-- ===== src/Cursor/Runs.antt =====
-- What holds of the runs of a method: `Triple I J m` says that from a cursor with `I` the method
-- returns with `J`, or panics; it does not run out of fuel.
pub mod Ends
pub mod Keeps
pub mod Saved
pub mod Returns
use mathlib.Core.Path.{subst}
use org_rs.Prelude.{
  ℕ, ◌≡◌, ◌≢◌, refl, sym, ◌∙◌, Bool, true, false, Option, none, some, if◌then◌else◌,
}
use org_rs.Cursor.State.{
  Cursor, M, bound, ◌>>=◌, ◌>>◌, pure, set, get_pos, get_text, lift, new, reads, returned,
}
use org_rs.Rust.Outcome.{Outcome, ok, panic, stuck}
use org_rs.Rust.Str.{Str}

abbrev pub Meets : {A : Type 0} → (A → Cursor → Type 0) → Outcome (A × Cursor) → Type 0
Meets P (ok (a, c)) = P a c
Meets P (panic x) = Unit
Meets P stuck = ⊥

pub record Triple {A : Type 0} (I : Cursor → Type 0) (J : A → Cursor → Type 0) (m : M A)
    : Type 0 where
  pub runs : (c : Cursor) → I c → Meets J (m c)

-- The method keeps `I`.
abbrev pub Stays : {A : Type 0} → (Cursor → Type 0) → M A → Type 0
Stays I m = Triple I (λ _. I) m

-- The method returns with the cursor that it was given.
pub record Same {A : Type 0} (m : M A) : Type 0 where
  pub unmoved : (c : Cursor) → Meets (λ _ c'. c' ≡ c) (m c)

pub Meets-weaken :
    {A : Type 0} (P Q : A → Cursor → Type 0)
    → ((a : A) (c : Cursor) → P a c → Q a c)
    → (r : Outcome (A × Cursor)) → Meets P r
    → Meets Q r
Meets-weaken P Q h (ok (a, c)) p = h a c p
Meets-weaken P Q h (panic x) p = tt
Meets-weaken P Q h stuck p = p

pub Meets-bound :
    {A B : Type 0} (P : A → Cursor → Type 0) (Q : B → Cursor → Type 0) (f : A → M B)
    → ((a : A) (c : Cursor) → P a c → Meets Q (f a c))
    → (r : Outcome (A × Cursor)) → Meets P r
    → Meets Q (bound r f)
Meets-bound P Q f h (ok (a, c)) p = h a c p
Meets-bound P Q f h (panic x) p = tt
Meets-bound P Q f h stuck p = p

module _ {A B : Type 0} (I : Cursor → Type 0) (K : B → Cursor → Type 0) where
  pub Triple-bind :
      (J : A → Cursor → Type 0) (m : M A) (f : A → M B)
      → Triple I J m
      → ((a : A) → Triple (J a) K (f a))
      → Triple I K (m >>= f)
  Triple-bind J m f hm hf = record {
    runs = λ c i. Meets-bound J K f (λ a. (hf a).runs) (m c) (hm.runs c i);
  }

  -- A first step that keeps the invariant.
  pub Stays-bind :
      (m : M A) (f : A → M B) → Stays I m → ((a : A) → Triple I K (f a)) → Triple I K (m >>= f)
  Stays-bind m f hm hf = Triple-bind (λ _. I) m f hm hf

  pub Stays-then : (m : M A) (n : M B) → Stays I m → Triple I K n → Triple I K (m >> n)
  Stays-then m n hm hn = Triple-bind (λ _. I) m (λ _. n) hm (λ _. hn)

module _ {A : Type 0} (I : Cursor → Type 0) (J : A → Cursor → Type 0) where
  pub Triple-if :
      (t : Bool) (m n : M A) → Triple I J m → Triple I J n → Triple I J (if t then m else n)
  Triple-if true m n hm hn = hm
  Triple-if false m n hm hn = hn

  -- The branches of a test know its result.
  pub Triple-test :
      (t : Bool) (m n : M A)
      → (t ≡ true → Triple I J m)
      → (t ≡ false → Triple I J n)
      → Triple I J (if t then m else n)
  Triple-test true m n hm hn = hm refl
  Triple-test false m n hm hn = hn refl

  pub Triple-option :
      {B : Type 0} (o : Option B) (n : M A) (f : B → M A)
      → Triple I J n
      → ((b : B) → Triple I J (f b))
      → Triple I J (elim o [ none ↦ n | some b ↦ f b ])
  Triple-option none n f hn hf = hn
  Triple-option (some b) n f hn hf = hf b

  pub Triple-pure : (a : A) → ((c : Cursor) → I c → J a c) → Triple I J (pure a)
  Triple-pure a h = record { runs = λ c. h c }

  pub Triple-set :
      (p : ℕ) (n : M A)
      → ((c : Cursor) → I c → Meets J (n (record c { pos = p })))
      → Triple I J (set p >> n)
  Triple-set p n h = record { runs = λ c. h c }

  pub Triple-panic : (m : M A) → ((c : Cursor) → Meets J (m c)) → Triple I J m
  Triple-panic m h = record { runs = λ c i. h c }

Same-Meets :
    {A : Type 0} (I : Cursor → Type 0) (c : Cursor)
    → I c
    → (r : Outcome (A × Cursor)) → Meets (λ _ c'. c' ≡ c) r
    → Meets (λ _. I) r
Same-Meets I c i r h = Meets-weaken (λ _ c'. c' ≡ c) (λ _. I) (λ a c' e. subst I (sym e) i) r h

-- A method that leaves the cursor alone keeps every invariant.
pub Same-Stays : {A : Type 0} (I : Cursor → Type 0) (m : M A) → Same m → Stays I m
Same-Stays I m h = record { runs = λ c i. Same-Meets I c i (m c) (h.unmoved c) }

module _ {A B : Type 0} where
  Same-then :
      (f : A → M B) (c : Cursor)
      → ((a : A) → Same (f a))
      → (a : A) (c' : Cursor) → c' ≡ c
      → Meets (λ _ d. d ≡ c) (f a c')
  Same-then f c h a c' e =
      Meets-weaken (λ _ d. d ≡ c') (λ _ d. d ≡ c) (λ b d p. p ∙ e) (f a c') ((h a).unmoved c')

  pub Same-bind : (m : M A) (f : A → M B) → Same m → ((a : A) → Same (f a)) → Same (m >>= f)
  Same-bind m f hm hf = record {
    unmoved = λ c.
        Meets-bound (λ _ c'. c' ≡ c) (λ _ c'. c' ≡ c) f (Same-then f c hf) (m c) (hm.unmoved c);
  }

module _ {A : Type 0} where
  pub Same-pure : (a : A) → Same (pure a)
  Same-pure a = record { unmoved = λ c. refl }

  Same-returned : (c : Cursor) (o : Outcome A) → o ≢ stuck → Meets (λ _ c'. c' ≡ c) (returned c o)
  Same-returned c (ok a) h = refl
  Same-returned c (panic x) h = tt
  Same-returned c stuck h = h refl

  pub Same-lift : (o : Outcome A) → o ≢ stuck → Same (lift o)
  Same-lift o h = record { unmoved = λ c. Same-returned c o h }

  pub Same-reads : (f : Cursor → Outcome A) → ((c : Cursor) → f c ≢ stuck) → Same (reads f)
  Same-reads f h = record { unmoved = λ c. Same-returned c (f c) (h c) }

  pub Same-if : (t : Bool) (m n : M A) → Same m → Same n → Same (if t then m else n)
  Same-if true m n hm hn = hm
  Same-if false m n hm hn = hn

pub Same-get_pos : Same get_pos
Same-get_pos = record { unmoved = λ c. refl }

pub Same-get_text : Same get_text
Same-get_text = record { unmoved = λ c. refl }

abbrev pub TextIs : Str → Cursor → Type 0
TextIs s c = c.text ≡ s

module _ {B : Type 0} where
  -- Save the position, move, put the position back.
  pub excursion :
      (f : ℕ → M B)
      → ((s : Str) (p : ℕ) → Triple (TextIs s) (λ _ c'. c' ≡ new s p) (f p))
      → Same (get_pos >>= f)
  excursion f h = record { unmoved = λ c. (h c.text c.pos).runs c refl }

  pub put_back :
      (s : Str) (p : ℕ) (b : B) → Triple (TextIs s) (λ _ c'. c' ≡ new s p) (set p >> pure b)
  put_back s p b = record { runs = λ c e i. record { text = e i; pos = p } }

-- A first step that leaves the cursor alone: the rest runs from the same cursor.
pub Same-bound :
    {A B : Type 0} (K : B → Cursor → Type 0) (m : M A) (f : A → M B) (c : Cursor)
    → Same m
    → ((a : A) → Meets K (f a c))
    → Meets K (bound (m c) f)
Same-bound K m f c h hf =
    Meets-bound (λ _ d. d ≡ c) K f (λ a d e. subst (λ x. Meets K (f a x)) (sym e) (hf a)) (m c)
      (h.unmoved c)
