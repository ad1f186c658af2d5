-- ===== src/Rust/Outcome.antt =====
-- A Rust call returns or panics; `stuck` is the answer of a loop whose fuel has run out.
use org_rs.Prelude.{Bool, true, false}

pub data Panic : Type 0 where
  out_of_bounds not_char_boundary overflow unwrap_none unimplemented already_borrowed
        assertion_failed :
      Panic

pub data Outcome {ℓ} (A : Type ℓ) : Type ℓ where
  ok : A → Outcome A
  panic : Panic → Outcome A
  stuck : Outcome A

infixl 5 ◌>>=◌
abbrev pub ◌>>=◌ {ℓ κ} : {A : Type ℓ} {B : Type κ} → Outcome A → (A → Outcome B) → Outcome B
ok a >>= f = f a
panic p >>= f = panic p
stuck >>= f = stuck

abbrev pub map_ok {ℓ κ} : {A : Type ℓ} {B : Type κ} → (A → B) → Outcome A → Outcome B
map_ok f (ok a) = ok (f a)
map_ok f (panic p) = panic p
map_ok f stuck = stuck

-- `assert!`, an index check or an arithmetic check: continue, or panic.
abbrev pub check {ℓ} : {A : Type ℓ} → Bool → Panic → Outcome A → Outcome A
check true p m = m
check false p m = panic p
