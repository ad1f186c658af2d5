-- ===== src/Tests/Engine.antt =====
-- Two matchers that satisfy the interface of the crate `regex`: one matches a haystack that starts
-- with the text of the expression, one matches every haystack; a match is the whole haystack.
use org_rs.Prelude.{◌≡◌, refl, Bool, true, false, none, some, arith, length, if◌then◌else◌}
use org_rs.Crates.Regex.{Match, Captures, IsMatchIn, RegexEngine}
use org_rs.Rust.Str.{Str, is_char_boundary, is_prefix}

abbrev pub whole : Str → Match
whole s = record { start = 0; end = length s }

whole-IsMatchIn : (s : Str) → IsMatchIn s (whole s)
unfolding is_char_boundary
whole-IsMatchIn s = record {
  ordered = omega arith;
  inside = omega arith;
  start_boundary = refl;
  end_boundary = ground arith;
}

pub find_literal-IsMatchIn :
    (s : Str) (m : Match) (t : Bool) → (if t then some (whole s) else none) ≡ some m → IsMatchIn s m
find_literal-IsMatchIn s m true e = grind (arith, whole-IsMatchIn s)
find_literal-IsMatchIn s m false e = cc

abbrev pub no_groups : Str → Captures
no_groups s = record { whole = whole s; name = λ n. none; get = λ i. none }

abbrev pub literal : RegexEngine
literal = record {
  find = λ re s. if is_prefix re s then some (whole s) else none;
  captures = λ re s. if is_prefix re s then some (no_groups s) else none;
  find-IsMatchIn = λ re s m. find_literal-IsMatchIn s m (is_prefix re s);
}

abbrev pub everything : RegexEngine
everything = record {
  find = λ re s. some (whole s);
  captures = λ re s. some (no_groups s);
  find-IsMatchIn = λ re s m. find_literal-IsMatchIn s m true;
}
