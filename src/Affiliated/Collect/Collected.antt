-- ===== src/Affiliated/Collect/Collected.antt =====
-- The loop of collect_affiliated_keywords, on the length of the text as fuel (affiliated.rs).
use org_rs.Prelude.{
  ap, true, false, ◌∙◌, ℕ, zero, suc, ◌-◌, ◌≤◌, ◌<◌, ◌≡◌, refl, Option, none, some, arith, length,
  leb, if◌then◌else◌, Bool-cases, inl, inr,
}
use org_rs.Affiliated.Collect.{
  collect_one, collect_loop, collect_from_bol, collect_affiliated_keywords, orphaned,
  regex_affiliated,
}
use org_rs.Affiliated.Collect.Round.{Next, collect_one-Next}
use org_rs.Affiliated.Output.{AffiliatedData, default}
use org_rs.Crates.Memchr.{Memchr}
use org_rs.Crates.Regex.{RegexEngine, Match, Captures}
use org_rs.Cursor.Lines.{is_bol}
use org_rs.Cursor.Regexes.{looking_at, capturing_at, regex_empty_line}
use org_rs.Cursor.Runs.{Meets, Meets-bound, Meets-weaken, Same-bound}
use org_rs.Cursor.Runs.Saved.{capturing_at-Same, looking_at-Same, is_bol-Same}
use org_rs.Cursor.State.{Cursor, M, pure, ◌>>=◌}
use org_rs.Rust.Str.{Str}

-- What the collection from `c` leads to: it returns the place where it started, keeps the text, and
-- goes forward, within the text; without a result the cursor is where it was.
pub record Collected (c : Cursor) (r : ℕ × Option AffiliatedData) (c' : Cursor) : Type 0 where
  pub origin : r.0 ≡ c.pos
  pub text_kept : c'.text ≡ c.text
  pub forward : c.pos ≤ c'.pos
  pub inside : c'.pos ≤ length c.text
  pub restored : r.1 ≡ none → c' ≡ c

abbrev Ahead : Cursor → Cursor → Type 0
Ahead c c' = (c'.text ≡ c.text) × (c.pos ≤ c'.pos) × (c'.pos ≤ length c.text)

module _ (mc : Memchr) (engine : RegexEngine) (limit : ℕ) where
  abbrev Loops : ℕ → Type 0
  Loops fuel =
      (out : AffiliatedData) (c : Cursor)
      → length c.text - c.pos < fuel
      → c.pos ≤ length c.text
      → limit ≤ length c.text
      → Meets (λ _ c'. Ahead c c') (collect_loop mc engine fuel limit out c)

  -- The later rounds, behind one that went on.
  loop-later :
      (fuel : ℕ) (out : AffiliatedData) (c d : Cursor)
      → Loops fuel
      → length c.text - c.pos < suc fuel
      → limit ≤ length c.text
      → Next c.text c.pos d
      → Meets (λ _ c'. Ahead c c') (collect_loop mc engine fuel limit out d)
  loop-later fuel out c d ih enough within (text, further, inside) =
      let len : length d.text ≡ length c.text = ap (λ (t : Str). length t) text in
      Meets-weaken (λ _ c'. Ahead d c') (λ _ c'. Ahead c c')
        (λ _ c' a. (a.0 ∙ text, omega arith, omega arith)) _
        (ih out d (omega arith) (omega arith) (omega arith))

  loop-round :
      (fuel : ℕ) (out : AffiliatedData) (c : Cursor) (cap : Captures)
      → Loops fuel
      → length c.text - c.pos < suc fuel
      → c.pos ≤ length c.text
      → limit ≤ length c.text
      → Meets
          (λ _ c'. Ahead c c')
          ((if leb limit c.pos then pure out else (do
            out' ← collect_one mc engine cap out
            collect_loop mc engine fuel limit out'))
            c)
  loop-round fuel out c cap ih enough inside within = elim (Bool-cases (leb limit c.pos)) [
    | inl done ↦ rw done (refl, omega arith, inside)
    | inr more ↦
        let left : c.pos < length c.text = ground arith in
        rw more (
          Meets-bound (λ _ d. Next c.text c.pos d) (λ _ c'. Ahead c c') _
            (λ out' d next. loop-later fuel out' c d ih enough within next) _
            ((collect_one-Next mc c.text c.pos left engine cap out).runs c refl))
  ]

  loop_found :
      (fuel : ℕ) (out : AffiliatedData) (c : Cursor) (found : Option Captures)
      → Loops fuel
      → length c.text - c.pos < suc fuel
      → c.pos ≤ length c.text
      → limit ≤ length c.text
      → let after : M AffiliatedData = elim found [
        | none ↦ pure out
        | some captures ↦
            let more : M AffiliatedData = (do
              out' ← collect_one mc engine captures out
              collect_loop mc engine fuel limit out') in
            if leb limit c.pos then pure out else more
      ] in
        Meets (λ _ c'. Ahead c c') (after c)
  loop_found fuel out c none ih enough inside within = (refl, omega arith, inside)
  loop_found fuel out c (some cap) ih enough inside within =
      loop-round fuel out c cap ih enough inside within

  collect_loop-Loops : (fuel : ℕ) → Loops fuel
  unfolding collect_loop
  collect_loop-Loops zero out c enough inside within = absurd (omega arith)
  collect_loop-Loops (suc fuel) out c enough inside within =
      Same-bound (λ _ c'. Ahead c c') (capturing_at mc engine regex_affiliated) _ c
        (capturing_at-Same mc engine regex_affiliated)
        (λ found. loop_found fuel out c found (collect_loop-Loops fuel) enough inside within)

  orphaned-Collected :
      (c d : Cursor) (out : AffiliatedData) (empty : Option Match)
      → Ahead c d
      → Meets (Collected c) (orphaned mc engine c.pos out empty d)
  orphaned-Collected c d out none (text, forward, inside) = record {
    origin = refl;
    text_kept = text;
    forward = forward;
    inside = inside;
    restored = λ e. cc;
  }
  orphaned-Collected c d out (some m) (text, forward, inside) = record {
    origin = refl;
    text_kept = text;
    forward = omega arith;
    inside = omega arith;
    restored = λ _ i. record { text = text i; pos = c.pos };
  }

  collect_from_bol-Collected :
      (c : Cursor)
      → c.pos ≤ length c.text
      → limit ≤ length c.text
      → Meets (Collected c) (collect_from_bol mc engine limit c)
  unfolding collect_from_bol
  collect_from_bol-Collected c inside within =
      Meets-bound (λ _ d. Ahead c d) (Collected c) _
        (λ out d ahead.
          Same-bound (Collected c) (looking_at mc engine regex_empty_line) _ d
            (looking_at-Same mc engine regex_empty_line)
            (λ empty. orphaned-Collected c d out empty ahead))
        (collect_loop mc engine (suc (length c.text)) limit default c)
        (collect_loop-Loops (suc (length c.text)) default c (omega arith) inside within)

  -- From a position inside the text, with a limit inside it, `collect_affiliated_keywords` ends: it
  -- panics, or returns the position where it started. It keeps the text, does not move backward or
  -- out of the text, and does not move at all where it returns no keywords.
  pub collect_affiliated_keywords-Collected :
      (c : Cursor)
      → c.pos ≤ length c.text
      → limit ≤ length c.text
      → Meets (Collected c) (collect_affiliated_keywords mc engine limit c)
  unfolding collect_affiliated_keywords
  collect_affiliated_keywords-Collected c inside within =
      Same-bound (Collected c) (is_bol mc) _ c (is_bol-Same mc) (elim [
        | true ↦ collect_from_bol-Collected c inside within
        | false ↦ record {
          origin = refl;
          text_kept = refl;
          forward = omega arith;
          inside = inside;
          restored = λ _. refl;
        }
      ])
