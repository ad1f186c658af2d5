-- ===== src/Affiliated/Equality/Decides.antt =====
-- Tests that return, and what their results say: strings, options, vectors and `DualVal`.
use org_rs.Prelude.{
  ◌≡◌, ◌↔◌, refl, ap, Option, none, some, Bool, true, false, List, [], ◌∷◌, ◌==◌, length, arith,
  inl, inr, Bool-cases,
}
use org_rs.Affiliated.Equality.{and_then, str_eq, option_eq, elements_eq, vec_eq, dual_val_eq, eq}
use org_rs.Affiliated.Output.{StringOrObject, raw, parsed, DualVal, equal}
use org_rs.Affiliated.Output.Attr.{equal_iff}
use org_rs.Rust.Outcome.{Outcome, ok}
use org_rs.Rust.Str.{Str}

-- The test returns, and answers whether `P`.
abbrev pub Decides : Type 0 → Outcome Bool → Type 0
Decides P o = (t : Bool) × (o ≡ ok t) × ((t ≡ true) ↔ P)

pub Decides-iff : {P Q : Type 0} (o : Outcome Bool) → P ↔ Q → Decides P o → Decides Q o
Decides-iff o pq (t, run, tells) = (t, run, (λ e. pq.0 (tells.0 e), λ q. tells.1 (pq.1 q)))

pub Decides-and :
    {P Q : Type 0} (m n : Outcome Bool) → Decides P m → Decides Q n → Decides (P × Q) (and_then m n)
Decides-and m n (true, run, tells) (u, later, says) =
    rw (run, later) (u, refl, (λ e. (tells.0 refl, says.0 e), λ h. says.1 h.1))
Decides-and m n (false, run, tells) (u, later, says) =
    rw run (false, refl, (λ e. cc, λ h. tells.1 h.0))

pub Decides-no : {P : Type 0} → (P → ⊥) → Decides P (ok false)
Decides-no differ = (false, refl, (λ e. cc, λ p. absurd (differ p)))

pub Decides-yes : {P : Type 0} → P → Decides P (ok true)
Decides-yes p = (true, refl, (λ e. p, λ p. refl))

pub Decides-str : (a b : Str) → Decides (a ≡ b) (str_eq a b)
Decides-str a b = (equal a b, refl, equal_iff a b)

-- A test that decides equality for left sides with `R`.
abbrev pub DecidesOn : {T : Type 0} → (T → Type 0) → (T → T → Outcome Bool) → Type 0
DecidesOn {T} R eq_of = (a b : T) → R a → Decides (a ≡ b) (eq_of a b)

abbrev pub IfSome : {T : Type 0} → (T → Type 0) → Option T → Type 0
IfSome R none = Unit
IfSome R (some a) = R a

abbrev pub All : {T : Type 0} → (T → Type 0) → List T → Type 0
All R [] = Unit
All R (a ∷ xs) = R a × All R xs

cons_iff : {T : Type 0} (a b : T) (xs ys : List T) → ((a ≡ b) × (xs ≡ ys)) ↔ (a ∷ xs ≡ b ∷ ys)
cons_iff a b xs ys = (λ h i. h.0 i ∷ h.1 i, λ e. (cc, cc))

some_iff : {T : Type 0} (a b : T) → (a ≡ b) ↔ (some a ≡ some b)
some_iff a b = (λ e i. some (e i), λ e. cc)

module _ {T : Type 0} (R : T → Type 0) (eq_of : T → T → Outcome Bool)
    (decides : DecidesOn R eq_of) where
  pub Decides-option : (a b : Option T) → IfSome R a → Decides (a ≡ b) (option_eq eq_of a b)
  unfolding option_eq
  Decides-option none none r = Decides-yes refl
  Decides-option (some a) (some b) r = Decides-iff _ (some_iff a b) (decides a b r)
  Decides-option none (some b) r = Decides-no (λ e. cc)
  Decides-option (some a) none r = Decides-no (λ e. cc)

  Decides-elements :
      (xs ys : List T)
      → length xs ≡ length ys
      → All R xs
      → Decides (xs ≡ ys) (elements_eq eq_of xs ys)
  unfolding elements_eq
  Decides-elements [] [] same r = Decides-yes refl
  Decides-elements [] (b ∷ ys) same r = absurd (omega (arith, same))
  Decides-elements (a ∷ xs) [] same r = absurd (omega (arith, same))
  Decides-elements (a ∷ xs) (b ∷ ys) same r =
      Decides-iff _ (cons_iff a b xs ys)
        (Decides-and _ _ (decides a b r.0) (Decides-elements xs ys (omega (arith, same)) r.1))

  pub Decides-vec : (xs ys : List T) → All R xs → Decides (xs ≡ ys) (vec_eq eq_of xs ys)
  unfolding vec_eq
  Decides-vec xs ys r = elim (Bool-cases (length xs == length ys)) [
    | inl same ↦ rw same (Decides-elements xs ys (ground arith) r)
    | inr other ↦ rw other (
        Decides-no (λ e.
          let sizes : length xs ≡ length ys = ap (λ (l : List T). length l) e in ground arith))
  ]

  abbrev pub Both : DualVal T → Type 0
  Both d = R d.value × IfSome R d.secondary

  dual_iff : (a b : DualVal T) → ((a.value ≡ b.value) × (a.secondary ≡ b.secondary)) ↔ (a ≡ b)
  dual_iff a b = (
    λ h i. record { value = h.0 i; secondary = h.1 i },
    λ e. (ap (λ (d : DualVal T). d.value) e, ap (λ (d : DualVal T). d.secondary) e),
  )

  pub Decides-dual : DecidesOn Both (dual_val_eq eq_of)
  unfolding dual_val_eq
  Decides-dual a b r =
      Decides-iff _ (dual_iff a b)
        (Decides-and _ _ (decides a.value b.value r.0) (Decides-option a.secondary b.secondary r.1))

abbrev pub IsRaw : StringOrObject → Type 0
IsRaw (raw r) = Unit
IsRaw (parsed p) = ⊥

pub eq-DecidesOn : DecidesOn IsRaw eq
unfolding eq
eq-DecidesOn (raw r) (parsed p) h = Decides-no (λ e. cc)
eq-DecidesOn (raw r) (raw rhs) h = Decides-iff _ (λ e. ap raw e, λ e. cc) (Decides-str r rhs)
eq-DecidesOn (parsed p) other h = absurd h
