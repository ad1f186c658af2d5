-- ===== src/Affiliated/Collect/Stored.antt =====
-- A keyword on a line that ends in a newline.
use org_rs.Prelude.{ℕ, ◌-◌, ◌≤◌, ◌≡◌, refl, true, Option, arith, length, take, drop}
use org_rs.Affiliated.Collect.{
  collect_one, matched_group, groups, value_begin, as_str, backend_of, trimmed,
}
use org_rs.Affiliated.Output.{AffiliatedData, Group, store}
use org_rs.Crates.Memchr.{Memchr}
use org_rs.Crates.Regex.{RegexEngine, Match, Captures}
use org_rs.Cursor.Lines.{goto_next_line}
use org_rs.Cursor.Lines.EndOfLine.{line_end_position_newline, next_unique}
use org_rs.Cursor.Lines.Goto.{goto_next_line-NextAnswer}
use org_rs.Cursor.Lines.Spec.{IsNextLine}
use org_rs.Cursor.State.{new}
use org_rs.Rust.Outcome.{ok}
use org_rs.Rust.Str.{Str, str_between, is_char_boundary}
use org_rs.Rust.Trim.{trim}

module _ (mc : Memchr) (s : Str) (p q : ℕ) (inside : p ≤ length s) (next : IsNextLine s p q) where
  goto_next_line-next : goto_next_line mc (new s p) ≡ ok (q, new s q)
  goto_next_line-next =
      let (r, answer, run) = goto_next_line-NextAnswer mc s p inside in
      let same = next_unique s p q r next answer in rw same at run

  slice-newline :
      (a : ℕ)
      → a ≤ q - 1
      → is_char_boundary s a ≡ true
      → str_between s a (q - 1) ≡ ok (take (q - 1 - a) (drop a s))
  unfolding str_between is_char_boundary
  slice-newline a before boundary = ground (arith, next.newline_before)

  -- At a keyword on a line that a newline ends, where the value begins at a character of the line,
  -- one round stores the trimmed text from there up to the newline under the group that matched, with
  -- the secondary value and the backend that the match gives, and goes to the next line.
  pub collect_one-store :
      (engine : RegexEngine) (cap : Captures) (out : AffiliatedData) (g : Group) (m : Match)
      (secondary : Option Str) (backend : Str)
      → matched_group cap groups ≡ ok (g, m)
      → as_str p (cap.name "SECONDARY") (new s p) ≡ ok (secondary, new s p)
      → backend_of g p cap (new s p) ≡ ok (backend, new s p)
      → (first : ℕ) → value_begin p m (cap.name "SECONDARY") ≡ first
      → first ≤ q - 1
      → is_char_boundary s first ≡ true
      → collect_one mc engine cap out (new s p)
        ≡ ok (
          store g (trim (take (q - 1 - first) (drop first s))) (trimmed secondary) backend out,
          new s q,
        )
  unfolding collect_one
  collect_one-store engine cap out g m secondary backend matched sec back first begin before
        boundary =
      rw
        (
          matched,
          line_end_position_newline mc s p inside q next,
          begin,
          slice-newline first before boundary,
          sec,
          back,
          goto_next_line-next,
        )
        refl
