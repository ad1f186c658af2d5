-- ===== src/Parser/Elements/Headline.antt =====
-- The frame of `parse_elements` around its loop, and the way to the first headline (parser.rs).
use mathlib.Core.Path.{subst}
use org_rs.Prelude.{
  ℕ, ◌≤◌, ◌≡◌, refl, sym, ◌∙◌, Bool, true, false, not, arith, length, Bool-cases, inl, inr,
}
use org_rs.Crates.Memchr.{Memchr}
use org_rs.Crates.Regex.{RegexEngine}
use org_rs.Cursor.Regexes.{on_headline, next_headline}
use org_rs.Cursor.Runs.{Meets, Meets-bound, Meets-weaken, Triple}
use org_rs.Cursor.State.{Cursor, M, new, pure, when, ◌>>◌}
use org_rs.Cursor.Regexes.Headlines.{
  OnHeadline, NextAt, next_headline-NextAt, on_headline-OnHeadline,
}
use org_rs.Data.Syntax.{Children}
use org_rs.Parser.Elements.Spec.{Begins, FromHeadline}
use org_rs.Parser.Contract.{Here}
use org_rs.Parser.Elements.{is_headline, skip_to_headline, elements_from}
use org_rs.Parser.Interface.{ElementParsers}
use org_rs.Parser.Mode.{ParseGranularity}
use org_rs.Rust.Str.{Str}

different : {b : Bool} → b ≡ true → b ≡ false → ⊥
different e e' = cc

module _ (mc : Memchr) (s : Str) (engine : RegexEngine) where
  -- Where the skip to the first headline leaves the cursor.
  abbrev pub At : ℕ → Cursor → Type 0
  At p d = (d.text ≡ s) × (p ≤ d.pos) × FromHeadline engine s p d.pos

  -- From a position inside the text, by whether its line is a headline.
  skip-At :
      (p : ℕ) (here : Bool)
      → p ≤ length s
      → OnHeadline engine s p here
      → Meets (λ _ d. At p d) (when (not here) (do next_headline mc engine; pure tt) (new s p))
  skip-At p true inside on = (refl, omega arith, inl (on, refl))
  skip-At p false inside off =
      Meets-bound (λ _ d. NextAt mc engine s p d) (λ _ d. At p d) _
        (λ _ d next. (next.0, next.1, inr (off, next.2))) (next_headline mc engine (new s p))
        (next_headline-NextAt mc engine s p inside)

  module _ (ps : ElementParsers) (granularity : ParseGranularity) where
    skip_to_headline-At :
        (p : ℕ)
        → p ≤ length s
        → is_headline granularity ≡ true
        → Meets (λ _ d. At p d) (skip_to_headline mc engine ps granularity (new s p))
    unfolding skip_to_headline
    skip_to_headline-At p inside one = rw one (
        Meets-bound (λ t d. (d ≡ new s p) × OnHeadline engine s p t) (λ _ d. At p d) _
          (λ here d h.
            subst
              (λ c. Meets (λ _ d. At p d) (when (not here) (do next_headline mc engine; pure tt) c))
              (sym h.0) (skip-At p here inside h.1))
          (on_headline mc engine (new s p)) (on_headline-OnHeadline mc engine s p inside))

    -- At the position, or with granularity `Headline` where the first headline is.
    abbrev pub Begun : ℕ → Cursor → Type 0
    Begun p d = (d.text ≡ s) × (p ≤ d.pos) × Begins engine granularity s p d.pos

    without_skip :
        (p : ℕ)
        → is_headline granularity ≡ false
        → Meets (λ _ d. Begun p d) (skip_to_headline mc engine ps granularity (new s p))
    unfolding skip_to_headline
    without_skip p other =
        rw other (refl, omega arith, (λ _. refl, λ one. absurd (different one refl)))

    skip_to_headline-Begun :
        (p : ℕ)
        → p ≤ length s
        → Meets (λ _ d. Begun p d) (skip_to_headline mc engine ps granularity (new s p))
    skip_to_headline-Begun p inside = elim (Bool-cases (is_headline granularity)) [
      | inl one ↦
          Meets-weaken (λ _ d. At p d) (λ _ d. Begun p d)
            (λ _ d at. (at.0, at.1, (λ other. absurd (different one other), λ _. at.2))) _
            (skip_to_headline-At p inside one)
      | inr other ↦ without_skip p other
    ]

    module _ (K : Children → Type 0) (beg : ℕ) (loop : M Children) (inside : beg ≤ length s)
        (runs : Triple (Begun beg) (λ kids d. (d.text ≡ s) × K kids) loop) where
      -- The loop runs from `beg` or further on, and the cursor is put back.
      pub elements_from-restores :
          (c : Cursor)
          → c.text ≡ s
          → Meets (λ kids d. (d ≡ c) × K kids) (elements_from mc engine ps granularity beg loop c)
      unfolding elements_from
      elements_from-restores c same =
          let J : Children → Cursor → Type 0 = λ kids d. (d ≡ c) × K kids in
          Meets-bound (λ _ d. Begun beg d) J _
            (λ _ d from.
              Meets-bound (λ kids d. (d.text ≡ s) × K kids) J _
                (λ kids e h. (λ i. record { text = (h.0 ∙ sym same) i; pos = c.pos }, h.1)) (loop d)
                (runs.runs d from))
            (skip_to_headline mc engine ps granularity (record { text = c.text; pos = beg }))
            (subst
              (λ t.
                Meets (λ _ d. Begun beg d)
                  (skip_to_headline mc engine ps granularity (record { text = t; pos = beg })))
              (sym same) (skip_to_headline-Begun beg inside))

      pub elements_from-Here :
          (q : ℕ)
          → Triple
              (Here s q)
              (λ kids d. Here s q d × K kids)
              (elements_from mc engine ps granularity beg loop)
      elements_from-Here q = record {
        runs = λ c i.
            Meets-weaken (λ kids d. (d ≡ c) × K kids) (λ kids d. Here s q d × K kids)
              (λ kids d h. (subst (Here s q) (sym h.0) i, h.1)) _ (elements_from-restores c i.0);
      }
