-- ===== src/Affiliated/Collect/Block/Gathered.antt =====
-- What `collect_affiliated_keywords` makes of a block of keywords.
use org_rs.Prelude.{
  ℕ, zero, suc, ◌+◌, ◌-◌, ◌≤◌, ◌<◌, ◌≡◌, ◌⊎◌, inl, inr, refl, true, false, Option, none, some,
  arith, length, take, drop, leb, Bool, le→leb, Option-cases, ap, sym, ◌∙◌,
}
use org_rs.Affiliated.Collect.{
  regex_affiliated, matched_group, groups, value_begin, as_str, backend_of, collect_one,
  collect_loop, collect_from_bol, collect_affiliated_keywords, orphaned,
}
use org_rs.Affiliated.Collect.Stored.{collect_one-store}
use org_rs.Affiliated.Output.{
  AffiliatedData, Group, caption, results, header, plot, name, attr, default,
}
use org_rs.Crates.Memchr.{Memchr}
use org_rs.Crates.Regex.{RegexEngine, Match, Captures}
use org_rs.Cursor.Lines.{is_bol}
use org_rs.Cursor.Lines.Found.{lines_next-NextAnswer}
use org_rs.Cursor.Lines.Prev.{is_bol-Starts}
use org_rs.Cursor.Lines.Spec.{NextAnswer, Starts}
use org_rs.Cursor.Regexes.{
  haystack_end, capturing_at, looking_at, is_multiline_regex, regex_empty_line,
}
use org_rs.Cursor.Regexes.Line.{rest_of_line, looking_at-line, slice_of_line, NextAnswer-unique}
use org_rs.Cursor.State.{Cursor, new}
use org_rs.Rust.Outcome.{ok}
use org_rs.Rust.Str.{Str, is_char_boundary, contains, str_between}
use org_rs.Affiliated.Collect.Block.{
  Taken, BackendIs, Took, ValueAt, KeywordLine, entry, Stops, Block, stop, more,
}

module _ (s : Str) (p : ℕ) where
  slice-Taken :
      (a b : ℕ)
      → a ≤ b
      → is_char_boundary s (p + a) ≡ true
      → is_char_boundary s (p + b) ≡ true
      → str_between s (p + a) (p + b) ≡ ok (take (p + b - (p + a)) (drop (p + a) s))
  unfolding str_between is_char_boundary
  slice-Taken a b ordered first last = ground arith

  as_str-Taken :
      (o : Option Match) (v : Option Str) → Taken s p o v → as_str p o (new s p) ≡ ok (v, new s p)
  as_str-Taken none v h = ap (λ (x : Option Str). ok (x, new s p)) (sym h)
  as_str-Taken (some m) v (ordered, first, last, value) =
      rw (slice-Taken m.start m.end ordered first last)
        (ap (λ (x : Option Str). ok (x, new s p)) (sym value))

  backend_of-BackendIs :
      (c : Captures) (g : Group) (b : Str)
      → BackendIs s p c g b
      → backend_of g p c (new s p) ≡ ok (b, new s p)
  backend_of-BackendIs c attr b (t, taken, capitals) =
      rw (as_str-Taken (c.name "ATTR") (some t) taken)
        (ap (λ (x : Str). ok (x, new s p)) (sym capitals))
  backend_of-BackendIs c caption b h = ap (λ (x : Str). ok (x, new s p)) (sym h)
  backend_of-BackendIs c results b h = ap (λ (x : Str). ok (x, new s p)) (sym h)
  backend_of-BackendIs c header b h = ap (λ (x : Str). ok (x, new s p)) (sym h)
  backend_of-BackendIs c plot b h = ap (λ (x : Str). ok (x, new s p)) (sym h)
  backend_of-BackendIs c name b h = ap (λ (x : Str). ok (x, new s p)) (sym h)

matched_group-Took :
    (c : Captures) (g : Group) (m : Match) → Took c g m → matched_group c groups ≡ ok (g, m)
unfolding matched_group
matched_group-Took c caption m h = rw h refl
matched_group-Took c results m (a, h) = rw (a, h) refl
matched_group-Took c header m (a, b, h) = rw (a, b, h) refl
matched_group-Took c plot m (a, b, d, h) = rw (a, b, d, h) refl
matched_group-Took c name m (a, b, d, e, h) = rw (a, b, d, e, h) refl
matched_group-Took c attr m (a, b, d, e, f, h) = rw (a, b, d, e, f, h) refl

value_begin-ValueAt :
    (p : ℕ) (m : Match) (o : Option Match) (first : ℕ)
    → ValueAt p m o first
    → value_begin p m o ≡ first
unfolding value_begin
value_begin-ValueAt p m none first h = sym h
value_begin-ValueAt p m (some sec) first h = sym h

affiliated-single : is_multiline_regex regex_affiliated ≡ false
unfolding is_multiline_regex contains
affiliated-single = refl

empty-single : is_multiline_regex regex_empty_line ≡ false
unfolding is_multiline_regex contains
empty-single = refl

module _ (mc : Memchr) (engine : RegexEngine) (s : Str) where
  -- `capturing_at` gives the expression the rest of the line.
  capturing_at-line :
      (p : ℕ) (r : Option ℕ)
      → p ≤ length s
      → is_char_boundary s p ≡ true
      → NextAnswer s p r
      → capturing_at mc engine regex_affiliated (new s p)
        ≡ ok (engine.captures regex_affiliated (rest_of_line s p r), new s p)
  unfolding capturing_at haystack_end
  capturing_at-line p r inside boundary answer =
      let (r', found, answer') = lines_next-NextAnswer mc s p inside in
      let same : r' ≡ r = NextAnswer-unique s p r r' answer answer' in
      rw (affiliated-single, found, same, slice_of_line s p r inside answer boundary) refl

  collect_one-entry :
      (limit p q : ℕ) (k : KeywordLine engine s p q) (out : AffiliatedData)
      → p ≤ length s
      → collect_one mc engine k.cap out (new s p) ≡ ok (entry engine s limit p q k out, new s q)
  collect_one-entry limit p q k out inside =
      collect_one-store mc s p q inside k.next engine k.cap out k.group k.found k.secondary
        k.backend (matched_group-Took k.cap k.group k.found k.matched)
        (as_str-Taken s p _ _ k.secondary_taken)
        (backend_of-BackendIs s p k.cap k.group k.backend k.backend_taken) k.first
        (value_begin-ValueAt p k.found (k.cap.name "SECONDARY") k.first k.value_at) k.value_inside
        k.value_boundary

  reached :
      (limit p : ℕ) (r : Option ℕ) (c : Captures)
      → (limit ≤ p) ⊎ (engine.captures regex_affiliated (rest_of_line s p r) ≡ none)
      → engine.captures regex_affiliated (rest_of_line s p r) ≡ some c
      → leb limit p ≡ true
  reached limit p r c (inl late) e = le→leb limit p late
  reached limit p r c (inr other) e = cc

  loop-Stops :
      (fuel limit p : ℕ) (r : Option ℕ) (out : AffiliatedData)
      → Stops engine s limit p r
      → collect_loop mc engine (suc fuel) limit out (new s p) ≡ ok (out, new s p)
  unfolding collect_loop
  loop-Stops fuel limit p r out h =
      elim (Option-cases (engine.captures regex_affiliated (rest_of_line s p r))) [
        | inl e ↦ rw (capturing_at-line p r h.inside h.boundary h.line, e) refl
        | inr (c, e) ↦
            rw (capturing_at-line p r h.inside h.boundary h.line, e, reached limit p r c h.over e)
              refl
      ]

  loop_goes_on :
      (fuel limit p q : ℕ) (out : AffiliatedData) (k : KeywordLine engine s p q)
      → p ≤ length s
      → p < limit
      → collect_loop mc engine (suc fuel) limit out (new s p)
        ≡ collect_loop mc engine fuel limit (entry engine s limit p q k out) (new s q)
  unfolding collect_loop
  loop_goes_on fuel limit p q out k inside before =
      let early : leb limit p ≡ false = ground arith in
      rw
        (
          capturing_at-line p (some q) inside k.boundary k.next,
          k.captured,
          early,
          collect_one-entry limit p q k out inside,
        )
        refl

  pub Block-start :
      (limit p e : ℕ) (out out' : AffiliatedData) → Block engine s limit p out e out' → p ≤ length s
  Block-start limit p e out out' (stop _ r _ h) = h.inside
  Block-start limit p e out out' (more _ q _ _ _ k before rest) =
      omega (arith, k.next.above, k.next.inside)

  -- The loop reads the block.
  collect_loop-Block :
      (fuel limit p e : ℕ) (out out' : AffiliatedData)
      → Block engine s limit p out e out'
      → length s - p < fuel
      → collect_loop mc engine fuel limit out (new s p) ≡ ok (out', new s e)
  collect_loop-Block zero limit p e out out' block enough = absurd (omega arith)
  collect_loop-Block (suc fuel) limit p e out out' (stop _ r _ h) enough =
      loop-Stops fuel limit p r out h
  collect_loop-Block (suc fuel) limit p e out out' (more _ q _ _ _ k before rest) enough =
      loop_goes_on fuel limit p q out k (omega (arith, k.next.above, k.next.inside)) before
      ∙ collect_loop-Block fuel limit q e _ out' rest (omega (arith, k.next.above, k.next.inside))

  pub Block-end :
      (limit p e : ℕ) (out out' : AffiliatedData)
      → Block engine s limit p out e out'
      → (r : Option ℕ) × Stops engine s limit e r
  Block-end limit p e out out' (stop _ r _ h) = (r, h)
  Block-end limit p e out out' (more _ q _ _ _ k before rest) = Block-end limit q e _ out' rest

  -- The data and the place behind the block; before an empty line none, and the place of the block.
  abbrev pub gathered : ℕ → ℕ → AffiliatedData → Option Match → (ℕ × Option AffiliatedData) × Cursor
  gathered p e out none = ((p, some out), new s e)
  gathered p e out (some m) = ((p, none), new s p)

  orphaned-gathered :
      (p e : ℕ) (out : AffiliatedData) (m : Option Match)
      → orphaned mc engine p out m (new s e) ≡ ok (gathered p e out m)
  orphaned-gathered p e out none = refl
  orphaned-gathered p e out (some m) = refl

  pub bol-true : (p : ℕ) → p ≤ length s → Starts s p → is_bol mc (new s p) ≡ ok (true, new s p)
  bol-true p inside starts =
      let (x, run, tells) = is_bol-Starts mc s p inside in
      run ∙ ap (λ (b : Bool). ok (b, new s p)) (tells.1 starts)

  from_bol :
      (limit p e : ℕ) (out : AffiliatedData) (m : Option Match)
      → collect_loop mc engine (suc (length s)) limit default (new s p) ≡ ok (out, new s e)
      → looking_at mc engine regex_empty_line (new s e) ≡ ok (m, new s e)
      → collect_from_bol mc engine limit (new s p) ≡ ok (gathered p e out m)
  unfolding collect_from_bol
  from_bol limit p e out m loop empty = rw (loop, empty) (orphaned-gathered p e out m)

  -- On a block of keyword lines that begins at `p`, `collect_affiliated_keywords` does not panic. It
  -- returns `p` and the data with the values of all its keywords in their order, and leaves the cursor
  -- behind the block, where the limit is reached or a line without a keyword begins. If the expression
  -- of an empty line matches the line there, it returns no data, and the cursor is at `p` again.
  pub collect_affiliated_keywords-Block :
      (limit p e : ℕ) (out : AffiliatedData) (r : Option ℕ)
      → Starts s p
      → Block engine s limit p default e out
      → NextAnswer s e r
      → collect_affiliated_keywords mc engine limit (new s p)
        ≡ ok (gathered p e out (engine.find regex_empty_line (rest_of_line s e r)))
  unfolding collect_affiliated_keywords
  collect_affiliated_keywords-Block limit p e out r starts block answer =
      let (r0, last) = Block-end limit p e default out block in
      let (r', answer', empty) =
        looking_at-line mc engine s regex_empty_line e empty-single last.inside last.boundary in
      let same : r' ≡ r = NextAnswer-unique s e r r' answer answer' in
      rw (bol-true p (Block-start limit p e default out block) starts) (
        from_bol limit p e out (engine.find regex_empty_line (rest_of_line s e r))
          (collect_loop-Block (suc (length s)) limit p e default out block (omega arith))
          (empty
            ∙ ap (λ (x : Option ℕ). ok (engine.find regex_empty_line (rest_of_line s e x), new s e))
                same))
