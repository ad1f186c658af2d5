-- ===== src/Affiliated/Collect/Round.antt =====
-- One round of collect_affiliated_keywords, and where it leaves the cursor (affiliated.rs).
use mathlib.Core.Path.{subst}
use org_rs.Prelude.{
  sym, ℕ, ◌+◌, ◌≤◌, ◌<◌, ◌≡◌, ◌≢◌, refl, Option, none, some, List, [], ◌∷◌, arith, length,
}
use org_rs.Affiliated.Collect.{
  collect_one, matched_group, choose, groups, value_begin, as_str, unwrapped, backend_of, trimmed,
}
use org_rs.Affiliated.Output.{AffiliatedData, Group, attr, store}
use org_rs.Crates.Memchr.{Memchr}
use org_rs.Crates.Regex.{RegexEngine, Match, Captures}
use org_rs.Cursor.Lines.{goto_next_line, line_end_position}
use org_rs.Cursor.Lines.Goto.{goto_next_line-NextAnswer}
use org_rs.Cursor.Lines.Spec.{NextAnswer}
use org_rs.Cursor.Runs.{
  Meets, Triple, Same, Same-Stays, Same-lift, Stays-bind, Same-bind, Same-pure,
}
use org_rs.Cursor.Runs.Ends.{str_between-ne-stuck}
use org_rs.Cursor.Runs.Saved.{line_end_position-Same}
use org_rs.Cursor.State.{Cursor, M, new, pure, lift, get_text, ◌>>=◌, ◌>>◌}
use org_rs.Rust.Outcome.{Outcome, panic, stuck, unwrap_none}
use org_rs.Rust.Str.{Str, str_between}
use org_rs.Rust.Trim.{trim}

choose-ne-stuck :
    (g : Group) (o : Option Match) (later : Outcome (Group × Match))
    → later ≢ stuck
    → choose g o later ≢ stuck
choose-ne-stuck g none later h = h
choose-ne-stuck g (some m) later h = cc

matched_group-ne-stuck : (cap : Captures) (gs : List Group) → matched_group cap gs ≢ stuck
unfolding matched_group
matched_group-ne-stuck cap [] = cc
matched_group-ne-stuck cap (g ∷ gs) = choose-ne-stuck g _ _ (matched_group-ne-stuck cap gs)

as_str-slice : (s : Str) (a b : ℕ) → Same (do t ← lift (str_between s a b); pure (some t))
as_str-slice s a b = Same-bind _ _ (Same-lift _ (str_between-ne-stuck s a b)) (λ t. Same-pure _)

as_str-Same : (p : ℕ) (o : Option Match) → Same (as_str p o)
as_str-Same p none = Same-pure none
as_str-Same p (some m) = record {
  unmoved = λ c. (as_str-slice c.text (p + m.start) (p + m.end)).unmoved c;
}

unwrapped-Same : (o : Option Str) → Same (unwrapped o)
unwrapped-Same none = Same-lift (panic unwrap_none) (λ e. cc)
unwrapped-Same (some s) = Same-pure s

backend_of-attr : (p : ℕ) (cap : Captures) → Same (backend_of attr p cap)
backend_of-attr p cap =
    Same-bind _ _ (as_str-Same p (cap.name "ATTR"))
      (λ s. Same-bind _ _ (unwrapped-Same s) (λ backend. Same-pure _))

backend_of-Same : (g : Group) (p : ℕ) (cap : Captures) → Same (backend_of g p cap)
backend_of-Same attr p cap = backend_of-attr p cap
backend_of-Same _ p cap = Same-pure []

-- One line on, or at the end of the text.
abbrev pub Next : Str → ℕ → Cursor → Type 0
Next s p c = (c.text ≡ s) × (p < c.pos) × (c.pos ≤ length s)

module _ {A : Type 0} (s : Str) (p : ℕ) (K : A → Cursor → Type 0) where
  abbrev pub From : M A → Type 0
  From m = Triple (λ c. c ≡ new s p) K m

  begin-Triple : (m : M A) → Meets K (m (new s p)) → From m
  begin-Triple m h = record { runs = λ c e. subst (λ d. Meets K (m d)) (sym e) h }

  begin-Same :
      {B : Type 0} (m : M B) (f : B → M A) → Same m → ((b : B) → From (f b)) → From (m >>= f)
  begin-Same m f h = Stays-bind (λ c. c ≡ new s p) K m f (Same-Stays _ m h)

module _ (mc : Memchr) (s : Str) (p : ℕ) (before_end : p < length s) where
  following_line-Next :
      (r : Option ℕ) → NextAnswer s p r → Next s p (new s (elim r [ none ↦ length s | some q ↦ q ]))
  following_line-Next none clear = (refl, before_end, omega arith)
  following_line-Next (some q) next = (refl, next.above, next.inside)

  module _ {A : Type 0} (a : A) where
    goto_next_line-Next : From s p (λ _ c. Next s p c) (do goto_next_line mc; pure a)
    goto_next_line-Next =
        let (r, answer, run) = goto_next_line-NextAnswer mc s p (omega arith) in
        begin-Triple s p (λ _ c. Next s p c) _ (rw run (following_line-Next r answer))

  module _ (engine : RegexEngine) (cap : Captures) (out : AffiliatedData) where
    abbrev pub K : AffiliatedData → Cursor → Type 0
    K _ c = Next s p c

    -- From the end of the value on.
    abbrev rest_of : Group × Match → ℕ → ℕ → Str → M AffiliatedData
    rest_of found first last text = do
      value ← lift (str_between text first last)
      secondary ← as_str p (cap.name "SECONDARY")
      backend ← backend_of found.0 p cap
      goto_next_line mc
      pure (store found.0 (trim value) (trimmed secondary) backend out)

    rest_of-Next :
        (found : Group × Match) (first last : ℕ) → From s p K (rest_of found first last s)
    rest_of-Next found first last =
        begin-Same s p K _ _ (Same-lift _ (str_between-ne-stuck s first last)) (λ value.
          begin-Same s p K _ _ (as_str-Same p (cap.name "SECONDARY")) (λ secondary.
            begin-Same s p K _ _ (backend_of-Same found.0 p cap)
              (λ backend. goto_next_line-Next _)))

    value_end-Next :
        (found : Group × Match) (first : ℕ)
        → From s p K
            (do last ← line_end_position mc none; text ← get_text; rest_of found first last text)
    value_end-Next found first =
        begin-Same s p K (line_end_position mc none)
          (λ last. do text ← get_text; rest_of found first last text)
          (line_end_position-Same mc none)
          (λ last. begin-Triple s p K _ ((rest_of-Next found first last).runs (new s p) refl))

    pub collect_one-Next : From s p K (collect_one mc engine cap out)
    unfolding collect_one
    collect_one-Next =
        begin-Same s p K (lift (matched_group cap groups)) _
          (Same-lift _ (matched_group-ne-stuck cap groups))
          (λ found. begin-Triple s p K _ (
            (value_end-Next found (value_begin p found.1 (cap.name "SECONDARY"))).runs (new s p)
              refl))
