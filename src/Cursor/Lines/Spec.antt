-- ===== src/Cursor/Lines/Spec.antt =====
-- What the moves by lines are to find, said of the bytes of the text alone.
use org_rs.Prelude.{
  ℕ, zero, suc, ◌-◌, ◌≤◌, ◌<◌, ◌≡◌, ◌≢◌, ◌⊎◌, inl, inr, Option, none, some, arith, length,
  get_elem?,
}
use org_rs.Rust.Str.{Str, newline}

-- No newline from `a` up to `b`, `b` not included.
abbrev pub Clear : Str → ℕ → ℕ → Type 0
Clear s a b = (i : ℕ) → a ≤ i → i < b → get_elem? s i ≢ some newline

-- A line starts at `b`: the text does, or a newline stands before it.
abbrev pub Starts : Str → ℕ → Type 0
Starts s b = (b ≡ 0) ⊎ ((0 < b) × (get_elem? s (b - 1) ≡ some newline))

-- `b` is the beginning of the line that holds position `p`.
pub record IsLineBegin (s : Str) (p b : ℕ) : Type 0 where
  pub below : b ≤ p
  pub starts : Starts s b
  pub clear : Clear s b p

-- `q` is the beginning of the line after the one that holds `p`.
pub record IsNextLine (s : Str) (p q : ℕ) : Type 0 where
  pub above : p < q
  pub inside : q ≤ length s
  pub newline_before : get_elem? s (q - 1) ≡ some newline
  pub clear : Clear s p (q - 1)

-- What the search forward answers: the next line, or that the text has no further newline.
abbrev pub NextAnswer : Str → ℕ → Option ℕ → Type 0
NextAnswer s p none = Clear s p (length s)
NextAnswer s p (some q) = IsNextLine s p q

-- What the search backward from `p` answers: the last line start below `p`, other than 0.
abbrev pub PrevAnswer : Str → ℕ → Option ℕ → Type 0
PrevAnswer s p none = Clear s 0 (p - 1)
PrevAnswer s p (some b) =
    (0 < b) × (b < p) × (get_elem? s (b - 1) ≡ some newline) × Clear s b (p - 1)

-- `m` begins the line that lies `k` lines above the line that begins at `b`, or the first line.
abbrev pub LinesUp : Str → ℕ → ℕ → ℕ → Type 0
LinesUp s zero b m = m ≡ b
LinesUp s (suc k) b m =
    ((b ≡ 0) × (m ≡ 0)) ⊎ ((0 < b) × ((a : ℕ) × IsLineBegin s (b - 1) a × LinesUp s k a m))

-- `q` is where `k` steps to the beginning of the next line lead from `p`; a step from the last line
-- leads to the end of the text.
abbrev pub LinesDown : Str → ℕ → ℕ → ℕ → Type 0
LinesDown s zero p q = q ≡ p
LinesDown s (suc k) p q =
    (r : Option ℕ) × NextAnswer s p r × LinesDown s k (elim r [ none ↦ length s | some n ↦ n ]) q

-- One more byte that is no newline.
pub Clear-extend :
    (s : Str) (a p : ℕ) → Clear s a (p - 1) → get_elem? s (p - 1) ≢ some newline → Clear s a p
Clear-extend s a p clear other i lo hi = ground (arith, clear i, other)

module _ {s : Str} {p : ℕ} where
  IsLineBegin-le : {b b' : ℕ} → IsLineBegin s p b → IsLineBegin s p b' → b' ≤ b
  IsLineBegin-le {b} {b'} h h' = elim h'.starts [
    | inl zero_start ↦ omega arith
    | inr (positive, at_newline) ↦ go at_newline positive
  ]
    where
      go : get_elem? s (b' - 1) ≡ some newline → 0 < b' → b' ≤ b
      go e pos = ground (arith, h.clear (b' - 1), h.below, h'.below)

  -- A line has one beginning.
  pub IsLineBegin-unique : {b b' : ℕ} → IsLineBegin s p b → IsLineBegin s p b' → b ≡ b'
  IsLineBegin-unique h h' = omega (arith, IsLineBegin-le h h', IsLineBegin-le h' h)

  pub IsNextLine-unique : {q q' : ℕ} → IsNextLine s p q → IsNextLine s p q' → q ≡ q'
  IsNextLine-unique {q} {q'} h h' = ground (
    arith,
    h.clear (q' - 1),
    h'.clear (q - 1),
    h.above,
    h'.above,
    h.newline_before,
    h'.newline_before,
  )

-- The search backward has one answer.
pub PrevAnswer-unique :
    (s : Str) (p b : ℕ) (r : Option ℕ) → PrevAnswer s p (some b) → PrevAnswer s p r → r ≡ some b
PrevAnswer-unique s p b none h clear = absurd (clear (b - 1) (omega arith) (omega arith) h.2)
PrevAnswer-unique s p b (some a) h h' = ground (arith, h.3 (a - 1), h'.3 (b - 1), h.2, h'.2)
