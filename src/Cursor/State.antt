-- ===== src/Cursor/State.antt =====
-- `struct Cursor` of cursor.rs, and the monad of its methods: `&mut self`, and a panic.
use org_rs.Prelude.{ℕ, Bool, true, false}
use org_rs.Rust.Outcome.{Outcome, ok, panic, stuck}
use org_rs.Rust.Str.{Str}

-- The source's field `data` is `text` here.
pub record Cursor : Type 0 where
  pub text : Str
  pub pos : ℕ

abbrev pub M {ℓ} : Type ℓ → Type ℓ
M A = Cursor → Outcome (A × Cursor)

module _ {ℓ} {A : Type ℓ} where
  abbrev pub pure : A → M A
  pure a c = ok (a, c)

  abbrev pub returned : Cursor → Outcome A → Outcome (A × Cursor)
  returned c (ok a) = ok (a, c)
  returned c (panic p) = panic p
  returned c stuck = stuck

  -- A computation that leaves the cursor alone.
  abbrev pub lift : Outcome A → M A
  lift m c = returned c m

  abbrev pub out_of_fuel : M A
  out_of_fuel c = stuck

infixl 5 ◌>>=◌ ◌>>◌
abbrev pub bound {ℓ κ} :
    {A : Type ℓ} {B : Type κ} → Outcome (A × Cursor) → (A → M B) → Outcome (B × Cursor)
bound (ok (a, c)) f = f a c
bound (panic p) f = panic p
bound stuck f = stuck

abbrev pub ◌>>=◌ {ℓ κ} : {A : Type ℓ} {B : Type κ} → M A → (A → M B) → M B
◌>>=◌ m f c = bound (m c) f

abbrev pub ◌>>◌ {ℓ κ} : {A : Type ℓ} {B : Type κ} → M A → M B → M B
◌>>◌ m n c = bound (m c) (λ _. n)

-- `Cursor::new`
abbrev pub new : Str → ℕ → Cursor
new text pos = record { text = text; pos = pos }

-- `Cursor::set`
abbrev pub set : ℕ → M (Unit {0})
set p c = ok (tt, record c { pos = p })

-- `Cursor::pos`
abbrev pub get_pos : M ℕ
get_pos c = ok (c.pos, c)

abbrev pub get_text : M Str
get_text c = ok (c.text, c)

-- A method on `&self`, by the cursor that it reads.
abbrev pub reads {ℓ} : {A : Type ℓ} → (Cursor → Outcome A) → M A
reads f c = returned c (f c)

abbrev pub when : Bool → M (Unit {0}) → M (Unit {0})
when true m = m
when false m = pure tt
