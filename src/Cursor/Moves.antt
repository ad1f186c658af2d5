-- ===== src/Cursor/Moves.antt =====
-- The moves of cursor.rs that are generic in the metric, and those by one character.
pub mod Arrive
pub mod Zipper
pub mod RoundTrip
pub mod Whitespace
pub mod CharRun
use org_rs.Prelude.{
  ℕ, zero, suc, ◌+◌, Bool, not, Option, none, some, leb, ltb, if◌then◌else◌, length, elem, List,
}
use org_rs.Cursor.Metric.{Metric, base_metric}
use org_rs.Cursor.State.{M, pure, lift, out_of_fuel, ◌>>=◌, ◌>>◌, set, get_pos, get_text, reads}
use org_rs.Rust.Outcome.{ok}
use org_rs.Rust.Str.{str_from}
use org_rs.Rust.Utf8.{Char, first_char, is_whitespace}

-- Move to the place that a metric found, if any.
abbrev pub moved : Option ℕ → M (Option ℕ)
moved none = pure none
moved (some offset) = do set offset; pure (some offset)

module _ (m : Metric) where
  unfoldable pub next : M (Option ℕ)
  next = do r ← reads (λ c. m.next c.text c.pos); moved r

  unfoldable pub prev : M (Option ℕ)
  prev = do r ← reads (λ c. m.prev c.text c.pos); moved r

  unfoldable pub is_boundary : M Bool
  is_boundary = reads (λ c. m.is_boundary c.text c.pos)

  unfoldable pub at_or_next : M (Option ℕ)
  unfolding is_boundary next
  at_or_next = do here ← is_boundary; if here then (λ c. ok (some c.pos, c)) else next

  unfoldable pub at_or_prev : M (Option ℕ)
  unfolding is_boundary prev
  at_or_prev = do here ← is_boundary; if here then (λ c. ok (some c.pos, c)) else prev

-- `self.data[pos..].chars().next()`
abbrev pub char_at : ℕ → M (Option Char)
char_at pos = do text ← get_text; rest ← lift (str_from text pos); pure (first_char rest)

abbrev pub char_if : ℕ → Option ℕ → M (Option Char)
char_if pos none = pure none
char_if pos (some offset) = do set offset; char_at pos

unfoldable pub get_next_char : M (Option Char)
get_next_char = do pos ← get_pos; found ← next base_metric; char_if pos found

abbrev char_at_found : Option ℕ → M (Option Char)
char_at_found none = pure none
char_at_found (some offset) = do set offset; char_at offset

unfoldable pub get_prev_char : M (Option Char)
get_prev_char = do found ← prev base_metric; char_at_found found

unfoldable pub char_after : ℕ → M (Option Char)
char_after offset = do pos ← get_pos; set offset; result ← get_next_char; set pos; pure result

-- The loop of `skip_whitespace`.
unfoldable pub skip_whitespace_loop : ℕ → M (Unit {0})
skip_whitespace_loop zero = out_of_fuel
skip_whitespace_loop (suc fuel) = do
  next_char ← get_next_char
  elim next_char [
    | none ↦ pure tt
    | some ch ↦
        let again = skip_whitespace_loop fuel in
        if not (is_whitespace ch) then (do get_prev_char; pure tt) else (do get_next_char; again)
  ]

-- Every round reads a character, so the length of the text bounds the rounds.
unfoldable pub skip_whitespace : M ℕ
skip_whitespace = do text ← get_text; skip_whitespace_loop (suc (length text)); get_pos

-- The loop of `skip_chars_forward`; `chars` are the code points of its argument `str`.
unfoldable pub skip_chars_loop : ℕ → List Char → ℕ → ℕ → ℕ → M ℕ
skip_chars_loop zero chars pos limit count = out_of_fuel
skip_chars_loop (suc fuel) chars pos limit count = do
  next_char ← get_next_char
  elim next_char [
    | none ↦ pure count
    | some ch ↦
        let again = skip_chars_loop fuel chars pos limit (count + 1) in
        if not (elem ch chars)
        then (do get_prev_char; pure count)
        else if ltb limit (count + pos)
        then (do get_prev_char; pure count)
        else again
  ]

unfoldable pub skip_chars_forward : List Char → Option ℕ → M ℕ
skip_chars_forward chars limit = do
  pos ← get_pos
  text ← get_text
  let lim : ℕ = elim limit [ some lim ↦ lim | none ↦ length text ]
  if leb lim pos then pure 0 else skip_chars_loop (suc (length text)) chars pos lim 0
