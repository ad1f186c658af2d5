-- ===== src/Cursor/Search/Forward.antt =====
-- `search_forward` against the occurrences that `match_indices` yields.
use org_rs.Prelude.{
  ℕ, zero, suc, ◌+◌, ◌<◌, ◌≤◌, ◌≡◌, refl, ◌∙◌, true, Option, none, some, List, [], ◌∷◌, arith,
  length, if◌then◌else◌, drop, ltb, get_elem?,
}
use org_rs.Cursor.Search.{match_indices, search_loop, search_forward}
use org_rs.Cursor.Search.Matches.{Found, match_indices-Found, stride}
use org_rs.Cursor.State.{Cursor, new}
use org_rs.Rust.Outcome.{Outcome, ok}
use org_rs.Rust.Str.{Str, str_from, is_char_boundary}

-- The answer for the occurrence at offset `m` behind `p`: its end, if that is within the bound.
abbrev pub answer : Str → ℕ → ℕ → ℕ → Option ℕ → Outcome (Option ℕ × Cursor)
answer s p len bound none = ok (none, new s p)
answer s p len bound (some m) =
    if ltb bound (m + p + len)
    then ok (none, new s p)
    else ok (some (m + p + len), new s (m + p + len))

-- The `k`-th of a list, counted from 1.
abbrev pub nth : List ℕ → ℕ → Option ℕ
nth ms zero = none
nth ms (suc k) = get_elem? ms k

module _ (needle s t : Str) (p bound : ℕ) where
  -- Once an occurrence ends beyond the bound, all later ones do.
  beyond :
      (ms : List ℕ) (at k : ℕ)
      → Found needle t at ms
      → bound < at + p + length needle
      → answer s p (length needle) bound (get_elem? ms k) ≡ ok (none, new s p)
  beyond [] at k found over = refl
  beyond (m ∷ ms) at zero found over = ground arith
  beyond (m ∷ ms) at (suc k) found over =
      beyond ms (m + stride needle) k found.4 (omega (arith, found.0))

  search_loop-answer :
      (ms : List ℕ) (at i k : ℕ)
      → Found needle t at ms
      → search_loop p (length needle) bound (i + k) i ms (new s p)
        ≡ answer s p (length needle) bound (get_elem? ms k)
  unfolding search_loop
  search_loop-answer [] at i k found = refl
  search_loop-answer (m ∷ ms) at i zero found = ground arith
  search_loop-answer (m ∷ ms) at i (suc k) found = ground (
    arith,
    search_loop-answer ms (m + stride needle) (i + 1) k found.4,
    beyond ms (m + stride needle) k found.4,
  )

  -- A count of 0 is never reached.
  search_loop-zero :
      (ms : List ℕ) (i : ℕ)
      → search_loop p (length needle) bound 0 (suc i) ms (new s p) ≡ ok (none, new s p)
  unfolding search_loop
  search_loop-zero [] i = refl
  search_loop-zero (m ∷ ms) i = ground (arith, search_loop-zero ms (suc i))

  search_loop-nth :
      (count : ℕ) (ms : List ℕ)
      → Found needle t 0 ms
      → search_loop p (length needle) bound count 1 ms (new s p)
        ≡ answer s p (length needle) bound (nth ms count)
  search_loop-nth zero ms found = search_loop-zero ms 0
  search_loop-nth (suc k) ms found = ground (arith, search_loop-answer ms 0 1 k found)

-- The bound and the count in force.
abbrev pub bound_of : Str → Option ℕ → ℕ
bound_of s none = length s
bound_of s (some b) = b

abbrev pub count_of : Option ℕ → ℕ
count_of none = 1
count_of (some k) = k

str_from-boundary : (s : Str) (p : ℕ) → is_char_boundary s p ≡ true → str_from s p ≡ ok (drop p s)
unfolding str_from
str_from-boundary s p h = rw h

module _ (needle s : Str) (p : ℕ) (bound count : Option ℕ) where
  search_forward-loop :
      is_char_boundary s p ≡ true
      → p ≤ bound_of s bound
      → search_forward needle bound count (new s p)
        ≡ search_loop p
            (length needle)
            (bound_of s bound)
            (count_of count)
            1
            (match_indices needle (drop p s))
            (new s p)
  unfolding search_forward
  search_forward-loop boundary within = ground (arith, str_from-boundary s p boundary)

  -- At a character boundary up to its bound, `search_forward` finds the leftmost occurrences that do
  -- not overlap. It moves to the end of the one that the count asks for and returns that place, if it
  -- lies within the bound. If there is none, or it ends beyond, the answer is `None` and the cursor
  -- stays.
  pub search_forward-Found :
      is_char_boundary s p ≡ true
      → p ≤ bound_of s bound
      → (ms : List ℕ) × Found needle (drop p s) 0 ms
        × (search_forward needle bound count (new s p)
            ≡ answer s p (length needle) (bound_of s bound) (nth ms (count_of count)))
  search_forward-Found boundary within =
      let found = match_indices-Found needle (drop p s) in
      (
        match_indices needle (drop p s),
        found,
        search_forward-loop boundary within
            ∙ search_loop-nth needle s (drop p s) p (bound_of s bound) (count_of count) _ found,
      )

  -- Behind its bound it finds nothing.
  pub search_forward_behind :
      bound_of s bound < p → search_forward needle bound count (new s p) ≡ ok (none, new s p)
  unfolding search_forward
  search_forward_behind over = ground arith
