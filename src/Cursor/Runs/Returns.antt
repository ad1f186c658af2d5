-- ===== src/Cursor/Runs/Returns.antt =====
-- Properties of the value that a method on the cursor returns.
use mathlib.Core.Path.{subst}
use org_rs.Prelude.{◌≡◌, refl, Bool, true, false, Option, none, some, if◌then◌else◌}
use org_rs.Cursor.State.{Cursor, M, bound, pure, ◌>>=◌}
use org_rs.Rust.Outcome.{Outcome, ok, panic, stuck, Panic}

-- Whatever `m` returns satisfies `P`.
pub record Ensures {A : Type 0} (P : A → Type 0) (m : M A) : Type 0 where
  pub returns : (c c' : Cursor) (a : A) → m c ≡ ok (a, c') → P a

pub pure_value : {A : Type 0} (a b : A) (c d : Cursor) → pure a c ≡ ok (b, d) → a ≡ b
pure_value a b c d e = cc

bound-cases :
    {A B : Type 0} (P : B → Type 0) (f : A → M B)
    → ((a : A) → Ensures P (f a))
    → (r : Outcome (A × Cursor)) (c' : Cursor) (b : B) → bound r f ≡ ok (b, c')
    → P b
bound-cases P f h (ok (a, c)) c' b e = (h a).returns c c' b e
bound-cases P f h (panic x) c' b e = cc
bound-cases P f h stuck c' b e = cc

pub Ensures-bind :
    {A B : Type 0} (P : B → Type 0) (m : M A) (f : A → M B)
    → ((a : A) → Ensures P (f a))
    → Ensures P (m >>= f)
Ensures-bind P m f h = record { returns = λ c c' b e. bound-cases P f h (m c) c' b e }

after-cases :
    {A B : Type 0} (Q : A → Type 0) (P : B → Type 0) (f : A → M B)
    → ((a : A) → Q a → Ensures P (f a))
    → (r : Outcome (A × Cursor)) → ((a : A) (d : Cursor) → r ≡ ok (a, d) → Q a)
    → (c' : Cursor) (b : B) → bound r f ≡ ok (b, c')
    → P b
after-cases Q P f h (ok (a, c)) q c' b e = (h a (q a c refl)).returns c c' b e
after-cases Q P f h (panic x) q c' b e = cc
after-cases Q P f h stuck q c' b e = cc

-- What the first step ensures is known to the second.
pub Ensures-after :
    {A B : Type 0} (Q : A → Type 0) (P : B → Type 0) (m : M A) (f : A → M B)
    → Ensures Q m
    → ((a : A) → Q a → Ensures P (f a))
    → Ensures P (m >>= f)
Ensures-after Q P m f hm hf = record {
  returns = λ c c' b e. after-cases Q P f hf (m c) (λ a d. hm.returns c d a) c' b e;
}

pub Ensures-pure : {A : Type 0} (P : A → Type 0) (a : A) → P a → Ensures P (pure a)
Ensures-pure P a h = record { returns = λ c c' b e. subst P (pure_value a b c c' e) h }

pub Ensures-weaken :
    {A : Type 0} (P Q : A → Type 0) → ((a : A) → P a → Q a) → (m : M A) → Ensures P m → Ensures Q m
Ensures-weaken P Q h m hm = record { returns = λ c c' a e. h a (hm.returns c c' a e) }

pub Ensures-and :
    {A : Type 0} (P Q : A → Type 0) (m : M A)
    → Ensures P m
    → Ensures Q m
    → Ensures (λ a. P a × Q a) m
Ensures-and P Q m hp hq = record {
  returns = λ c c' a e. (hp.returns c c' a e, hq.returns c c' a e);
}

-- The branches of a test know its result.
pub Ensures-test :
    {A : Type 0} (P : A → Type 0) (t : Bool) (m n : M A)
    → (t ≡ true → Ensures P m)
    → (t ≡ false → Ensures P n)
    → Ensures P (if t then m else n)
Ensures-test P true m n hm hn = hm refl
Ensures-test P false m n hm hn = hn refl

pub Ensures-if :
    {A : Type 0} (P : A → Type 0) (t : Bool) (m n : M A)
    → Ensures P m
    → Ensures P n
    → Ensures P (if t then m else n)
Ensures-if P true m n hm hn = hm
Ensures-if P false m n hm hn = hn

pub Ensures-option :
    {A B : Type 0} (P : B → Type 0) (o : Option A) (n : M B) (f : A → M B)
    → Ensures P n
    → ((a : A) → Ensures P (f a))
    → Ensures P (elim o [ none ↦ n | some a ↦ f a ])
Ensures-option P none n f hn hf = hn
Ensures-option P (some a) n f hn hf = hf a

pub Ensures-panic : {A : Type 0} (P : A → Type 0) (x : Panic) → Ensures P (λ c. panic x)
Ensures-panic P x = record { returns = λ c c' a e. cc }
