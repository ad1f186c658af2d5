-- ===== src/Affiliated/Collect/LastLine.antt =====
-- A keyword at the end of the input, with no newline behind it.
use org_rs.Prelude.{ℕ, ◌≤◌, ◌<◌, ◌≡◌, false, none, arith, length, leb}
use org_rs.Affiliated.Collect.{collect_one, matched_group, groups, value_begin}
use org_rs.Affiliated.Output.{AffiliatedData, Group}
use org_rs.Crates.Memchr.{Memchr}
use org_rs.Crates.Regex.{RegexEngine, Match, Captures}
use org_rs.Cursor.Lines.{line_end_position}
use org_rs.Cursor.Lines.EndOfLine.{line_end_position_last_line}
use org_rs.Cursor.Lines.Spec.{Clear}
use org_rs.Cursor.State.{new}
use org_rs.Rust.Outcome.{ok, panic, not_char_boundary}
use org_rs.Rust.Str.{Str, str_between}

str_between-backward : (s : Str) (a b : ℕ) → b < a → str_between s a b ≡ panic not_char_boundary
unfolding str_between
str_between-backward s a b back = let h : leb a b ≡ false = ground arith in rw h

module _ (mc : Memchr) (engine : RegexEngine) (s : Str) (p : ℕ) where
  collect_one-slice :
      (cap : Captures) (out : AffiliatedData) (g : Group) (m : Match) (e : ℕ)
      → matched_group cap groups ≡ ok (g, m)
      → line_end_position mc none (new s p) ≡ ok (e, new s p)
      → e < value_begin p m (cap.name "SECONDARY")
      → collect_one mc engine cap out (new s p) ≡ panic not_char_boundary
  unfolding collect_one
  collect_one-slice cap out g m e matched ended back = ground (
    arith,
    matched,
    ended,
    str_between-backward s (value_begin p m (cap.name "SECONDARY")) e back,
  )

  -- In the last line, with no newline behind it, a keyword whose value would begin at the end of the
  -- text, as in "#+NAME:", makes the collection panic: the slice of the value runs backward.
  pub collect_one_last_line :
      (cap : Captures) (out : AffiliatedData) (g : Group) (m : Match)
      → p ≤ length s
      → Clear s p (length s)
      → 0 < length s
      → matched_group cap groups ≡ ok (g, m)
      → value_begin p m (cap.name "SECONDARY") ≡ length s
      → collect_one mc engine cap out (new s p) ≡ panic not_char_boundary
  collect_one_last_line cap out g m inside clear nonempty matched at_end =
      let (e, ended, below) = line_end_position_last_line mc s p inside clear nonempty in
      collect_one-slice cap out g m e matched ended (omega (arith, below.below, at_end))
