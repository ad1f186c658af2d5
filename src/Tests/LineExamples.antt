-- ===== src/Tests/LineExamples.antt =====
-- The theorems on lines, applied to texts of a few lines.
use org_rs.Prelude.{
  ℕ, zero, suc, ◌≡◌, ◌↔◌, inr, refl, Bool, true, Option, none, some, arith, length,
}
use org_rs.Prelude.Int.{pos, negsuc}
use org_rs.Cursor.Lines.{
  goto_line_begin, goto_next_line, goto_prev_line, is_bol, line_beginning_position,
  line_end_position, repeat,
}
use org_rs.Cursor.Lines.Begin.{BeginAnswer, line_beginning_position-BeginAnswer}
use org_rs.Cursor.Lines.End.{EndAnswer, line_end_position-EndAnswer}
use org_rs.Cursor.Lines.EndOfLine.{line_end_position_last_line}
use org_rs.Cursor.Lines.Goto.{goto_line_begin-IsLineBegin, goto_next_line-NextAnswer}
use org_rs.Cursor.Lines.Prev.{goto_prev_line-LinesUp, is_bol-Starts}
use org_rs.Cursor.Lines.Spec.{
  Clear, Starts, IsLineBegin, IsNextLine, NextAnswer, PrevAnswer, LinesUp,
}
use org_rs.Cursor.Metric.Boundaries.{IsBoundaryBelow}
use org_rs.Cursor.Lines.RoundTrip.{goto_next_line-goto_prev_line, repeat-goto_next_line}
use org_rs.Cursor.State.{new, ◌>>◌}
use org_rs.Rust.Outcome.{ok}
use org_rs.Rust.Str.{Str, codes}
use org_rs.Tests.Scan.{scan}

abbrev lines : Str
lines = codes "One\nTwo\nThi\nFo4"

abbrev two : Str
two = codes "a\nb"

goto_line_begin-IsLineBegin_example :
    (b : ℕ) × (goto_line_begin scan (new lines 6) ≡ ok (b, new lines b)) × IsLineBegin lines 6 b
goto_line_begin-IsLineBegin_example = goto_line_begin-IsLineBegin scan lines 6 (omega arith)

goto_next_line-NextAnswer_example :
    (r : Option ℕ) × NextAnswer lines 6 r
    × (goto_next_line scan (new lines 6)
        ≡ ok (
          elim r [ none ↦ length lines | some q ↦ q ],
          new lines (elim r [ none ↦ length lines | some q ↦ q ]),
        ))
goto_next_line-NextAnswer_example = goto_next_line-NextAnswer scan lines 6 (omega arith)

goto_prev_line-LinesUp_example :
    (b m : ℕ) × IsLineBegin lines 6 b
    × (goto_prev_line scan (new lines 6) ≡ ok (m, new lines m))
    × LinesUp lines 1 b m
goto_prev_line-LinesUp_example = goto_prev_line-LinesUp scan lines 6 (omega arith)

is_bol-Starts_example :
    (x : Bool) × (is_bol scan (new lines 4) ≡ ok (x, new lines 4)) × ((x ≡ true) ↔ Starts lines 4)
is_bol-Starts_example = is_bol-Starts scan lines 4 (omega arith)

line_beginning_position-BeginAnswer_example :
    (b : ℕ) × (line_beginning_position scan (some (negsuc 0)) (new lines 13) ≡ ok (b, new lines 13))
    × BeginAnswer lines 13 (some (negsuc 0)) b
line_beginning_position-BeginAnswer_example =
    line_beginning_position-BeginAnswer scan lines 13 (some (negsuc 0)) (omega arith) (omega arith)

second-IsLineBegin : IsLineBegin two 2 2
second-IsLineBegin = record {
  below = omega arith;
  starts = inr (omega arith, refl);
  clear = λ i lo hi same. omega arith;
}

line_end_position-EndAnswer_example : EndAnswer scan lines 6 (some (pos 2))
line_end_position-EndAnswer_example =
    line_end_position-EndAnswer scan lines 6 (some (pos 2)) (omega arith) tt

first-Clear : Clear two 0 1
first-Clear zero lo hi same = grind arith
first-Clear (suc i) lo hi same = omega arith

first-IsNextLine : IsNextLine two 0 2
first-IsNextLine = record {
  above = omega arith;
  inside = omega arith;
  newline_before = refl;
  clear = first-Clear;
}

last-Clear : Clear two 2 3
last-Clear zero lo hi same = omega arith
last-Clear (suc zero) lo hi same = omega arith
last-Clear (suc (suc zero)) lo hi same = grind arith
last-Clear (suc (suc (suc i))) lo hi same = omega arith

line_end_position_last_line_example :
    (e : ℕ) × (line_end_position scan none (new two 2) ≡ ok (e, new two 2))
    × IsBoundaryBelow two 3 e
line_end_position_last_line_example =
    line_end_position_last_line scan two 2 (omega arith) last-Clear (omega arith)

-- From the end of the second line, the last newline ends the first.
second-PrevAnswer : PrevAnswer two 3 (some 2)
second-PrevAnswer = (omega arith, omega arith, refl, λ i lo hi same. omega arith)

goto_next_line-goto_prev_line_example :
    (goto_next_line scan >> goto_prev_line scan) (new two 0) ≡ goto_line_begin scan (new two 0)
goto_next_line-goto_prev_line_example =
    goto_next_line-goto_prev_line scan two 0 2 (omega arith) first-IsNextLine

repeat-goto_next_line_example :
    repeat 15 (goto_next_line scan) (new lines 6) ≡ ok (tt, new lines 15)
repeat-goto_next_line_example = repeat-goto_next_line scan lines 15 6 (omega arith) (omega arith)
