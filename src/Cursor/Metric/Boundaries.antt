-- ===== src/Cursor/Metric/Boundaries.antt =====
-- The search of `BaseMetric` backward finds the nearest character boundary below.
use org_rs.Prelude.{
  ℕ, zero, suc, ◌-◌, ◌≤◌, ◌<◌, ◌≡◌, ◌⊎◌, inl, inr, refl, true, false, some, arith, Bool-cases,
  get_elem?,
}
use org_rs.Cursor.Metric.{boundary_below, base_prev}
use org_rs.Rust.Outcome.{ok}
use org_rs.Rust.Str.{Str, is_char_boundary, newline}

-- `b` is the start of the character that ends at `p`, or that holds the byte before `p`.
pub record IsBoundaryBelow (s : Str) (p b : ℕ) : Type 0 where
  pub below : b < p
  pub boundary : is_char_boundary s b ≡ true
  pub nearest : (i : ℕ) → b < i → i < p → is_char_boundary s i ≡ false

-- What `BaseMetric::prev` leads to: 0 from 0, and else the boundary below.
abbrev pub CharBefore : Str → ℕ → ℕ → Type 0
CharBefore s p b = ((p ≡ 0) × (b ≡ 0)) ⊎ IsBoundaryBelow s p b

is_char_boundary-zero : (s : Str) → is_char_boundary s 0 ≡ true
unfolding is_char_boundary
is_char_boundary-zero s = refl

pub boundary_below-zero : (s : Str) → boundary_below s 0 ≡ 0
unfolding boundary_below
boundary_below-zero s = refl

pub base_prev-suc : (s : Str) (q : ℕ) → base_prev s (suc q) ≡ ok (some (boundary_below s (suc q)))
unfolding base_prev
base_prev-suc s q = ground arith

module _ (s : Str) where
  IsBoundaryBelow-step :
      (n b : ℕ) → is_char_boundary s n ≡ false → IsBoundaryBelow s n b → IsBoundaryBelow s (suc n) b
  IsBoundaryBelow-step n b away h = record {
    below = omega (arith, h.below);
    boundary = h.boundary;
    nearest = λ i lo hi. ground (arith, h.nearest i);
  }

  pub boundary_below-IsBoundaryBelow : (p : ℕ) → 0 < p → IsBoundaryBelow s p (boundary_below s p)
  unfolding boundary_below
  boundary_below-IsBoundaryBelow zero pos = absurd (omega arith)
  boundary_below-IsBoundaryBelow (suc zero) pos = rw (is_char_boundary-zero s) (record {
    below = omega arith;
    boundary = is_char_boundary-zero s;
    nearest = λ i lo hi. absurd (omega arith);
  })
  boundary_below-IsBoundaryBelow (suc (suc n)) pos =
      elim (Bool-cases (is_char_boundary s (suc n))) [
        | inl here ↦ rw here (record {
          below = omega arith;
          boundary = here;
          nearest = λ i lo hi. absurd (omega arith);
        })
        | inr away ↦ rw away (
            IsBoundaryBelow-step (suc n) (boundary_below s (suc n)) away
              (boundary_below-IsBoundaryBelow (suc n) (omega arith)))
      ]

  pub boundary_below-CharBefore : (p : ℕ) → CharBefore s p (boundary_below s p)
  boundary_below-CharBefore zero = inl (refl, boundary_below-zero s)
  boundary_below-CharBefore (suc n) = inr (boundary_below-IsBoundaryBelow (suc n) (omega arith))

  IsBoundaryBelow-le : {p a b : ℕ} → IsBoundaryBelow s p a → IsBoundaryBelow s p b → b ≤ a
  IsBoundaryBelow-le {p} {a} {b} h k = ground (arith, h.nearest b, k.boundary, k.below)

  pub IsBoundaryBelow-unique : {p a b : ℕ} → IsBoundaryBelow s p a → IsBoundaryBelow s p b → a ≡ b
  IsBoundaryBelow-unique h k = omega (arith, IsBoundaryBelow-le h k, IsBoundaryBelow-le k h)

  newline-boundary : (i : ℕ) → get_elem? s i ≡ some newline → is_char_boundary s i ≡ true
  unfolding is_char_boundary
  newline-boundary i e = ground arith

  -- Before the place behind a newline stands that newline.
  pub newline-IsBoundaryBelow :
      (q : ℕ) → 0 < q → get_elem? s (q - 1) ≡ some newline → IsBoundaryBelow s q (q - 1)
  newline-IsBoundaryBelow q pos e = record {
    below = omega arith;
    boundary = newline-boundary (q - 1) e;
    nearest = λ i lo hi. absurd (omega arith);
  }
