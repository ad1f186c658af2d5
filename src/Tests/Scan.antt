-- ===== src/Tests/Scan.antt =====
-- A `memchr` by scanning, which satisfies the interface.
use org_rs.Prelude.{
  ℕ, zero, suc, ◌<◌, ◌≡◌, ◌≢◌, Option, none, some, [], ◌∷◌, arith, ◌==◌, if◌then◌else◌, get_elem?,
}
use org_rs.Crates.Memchr.{Memchr}
use org_rs.Rust.Str.{Str}

abbrev bump : Option ℕ → Option ℕ
bump none = none
bump (some i) = some (suc i)

unfoldable pub first_index : ℕ → Str → Option ℕ
first_index b [] = none
first_index b (x ∷ xs) = let later = bump (first_index b xs) in if x == b then some 0 else later

abbrev or_here : ℕ → ℕ → Option ℕ → Option ℕ
or_here b x (some i) = some (suc i)
or_here b x none = if x == b then some 0 else none

unfoldable pub last_index : ℕ → Str → Option ℕ
last_index b [] = none
last_index b (x ∷ xs) = or_here b x (last_index b xs)

module _ (b : ℕ) where
  pub first_some : (s : Str) (i : ℕ) → first_index b s ≡ some i → get_elem? s i ≡ some b
  unfolding first_index
  first_some [] i h = cc
  first_some (x ∷ xs) zero h = ground arith
  first_some (x ∷ xs) (suc i) h = first_some xs i (ground arith)

  pub first_first : (s : Str) (i j : ℕ) → first_index b s ≡ some i → j < i → get_elem? s j ≢ some b
  unfolding first_index
  first_first [] i j h lt = cc
  first_first (x ∷ xs) zero j h lt = absurd (omega arith)
  first_first (x ∷ xs) (suc i) zero h lt = ground arith
  first_first (x ∷ xs) (suc i) (suc j) h lt = first_first xs i j (ground arith) (omega arith)

  pub first_none : (s : Str) (j : ℕ) → first_index b s ≡ none → get_elem? s j ≢ some b
  unfolding first_index
  first_none [] j h = λ e. cc
  first_none (x ∷ xs) zero h = ground arith
  first_none (x ∷ xs) (suc j) h = first_none xs j (ground arith)

  pub last_none : (s : Str) (j : ℕ) → last_index b s ≡ none → get_elem? s j ≢ some b
  unfolding last_index
  last_none [] j h = λ e. cc
  last_none (x ∷ xs) zero h = ground arith
  last_none (x ∷ xs) (suc j) h = last_none xs j (ground arith)

  pub last_some : (s : Str) (i : ℕ) → last_index b s ≡ some i → get_elem? s i ≡ some b
  unfolding last_index
  last_some [] i h = cc
  last_some (x ∷ xs) zero h = ground arith
  last_some (x ∷ xs) (suc i) h = last_some xs i (ground arith)

  pub last_last : (s : Str) (i j : ℕ) → last_index b s ≡ some i → i < j → get_elem? s j ≢ some b
  unfolding last_index
  last_last [] i j h lt = cc
  last_last (x ∷ xs) i zero h lt = absurd (omega arith)
  last_last (x ∷ xs) zero (suc j) h lt = last_none xs j (ground arith)
  last_last (x ∷ xs) (suc i) (suc j) h lt = last_last xs i j (ground arith) (omega arith)

abbrev pub scan : Memchr
scan = record {
  memchr = first_index;
  memrchr = last_index;
  memchr_some = first_some;
  memchr_first = first_first;
  memchr_none = first_none;
  memrchr_some = last_some;
  memrchr_last = last_last;
  memrchr_none = last_none;
}
