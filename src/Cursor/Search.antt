-- ===== src/Cursor/Search.antt =====
-- The searches for plain text of cursor.rs.
pub mod Matches
pub mod Forward
use org_rs.Prelude.{
  ℕ, zero, suc, ◌+◌, ◌-◌, Bool, ◌&&◌, Option, none, some, List, [], ◌∷◌, ltb, ◌==◌, if◌then◌else◌,
  length,
}
use org_rs.Cursor.State.{M, pure, lift, ◌>>=◌, ◌>>◌, set, get_pos, get_text}
use org_rs.Rust.Str.{Str, is_lead, is_prefix, str_from}

-- Whether an occurrence of `needle` starts here, at a character boundary.
abbrev pub hits : Str → ℕ → Str → Bool
hits needle y ys = is_lead y && is_prefix needle (y ∷ ys)

-- `s.match_indices(needle)` from offset `i` on, passing over `skip` bytes of the last occurrence.
unfoldable pub match_indices_from : Str → ℕ → ℕ → Str → List ℕ
match_indices_from needle i skip [] = elim needle [ [] ↦ i ∷ [] | _ ↦ [] ]
match_indices_from needle i (suc skip) (y ∷ ys) = match_indices_from needle (i + 1) skip ys
match_indices_from needle i zero (y ∷ ys) =
    let hit = hits needle y ys in
    let later = match_indices_from needle (i + 1) (if hit then length needle - 1 else 0) ys in
    if hit then i ∷ later else later

abbrev pub match_indices : Str → Str → List ℕ
match_indices needle s = match_indices_from needle 0 0 s

-- The loop of `search_forward` over the iterator; `i` counts the occurrences seen.
unfoldable pub search_loop : ℕ → ℕ → ℕ → ℕ → ℕ → List ℕ → M (Option ℕ)
search_loop pos len bound count i [] = pure none
search_loop pos len bound count i (found ∷ iter) =
    let again = search_loop pos len bound count (i + 1) iter in
    if ltb bound (found + pos + len)
    then pure none
    else if count == i
    then (do set (found + pos + len); pure (some (found + pos + len)))
    else again

abbrev or_else {ℓ} : {A : Type ℓ} → Option A → A → A
or_else none d = d
or_else (some a) d = a

unfoldable pub search_within : Str → ℕ → ℕ → ℕ → M (Option ℕ)
search_within str pos bound count = do
  text ← get_text
  rest ← lift (str_from text pos)
  search_loop pos (length str) bound count 1 (match_indices str rest)

unfoldable pub search_forward : Str → Option ℕ → Option ℕ → M (Option ℕ)
unfolding search_within
search_forward str bound count = do
  text ← get_text
  pos ← get_pos
  let limit = or_else bound (length text)
  if ltb limit pos then pure none else search_within str pos limit (or_else count 1)
