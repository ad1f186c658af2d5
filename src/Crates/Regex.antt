-- ===== src/Crates/Regex.antt =====
-- The crate `regex`: an expression is its source text. `find` gives the bounds of the leftmost match
-- in the haystack, as byte offsets; `captures` gives those of the whole match and of its groups.
use org_rs.Prelude.{ℕ, ◌≡◌, ◌≤◌, true, Option, some, length, String}
use org_rs.Rust.Str.{Str, is_char_boundary}

abbrev pub Regex : Type 0
Regex = Str

pub record Match : Type 0 where
  pub start : ℕ
  pub end : ℕ

-- The whole match, and the groups that took part in it, by name and by number.
pub record Captures : Type 0 where
  pub whole : Match
  pub name : String → Option Match
  pub get : ℕ → Option Match

-- The documented guarantees on the bounds of a match.
pub record IsMatchIn (haystack : Str) (m : Match) : Type 0 where
  pub ordered : m.start ≤ m.end
  pub inside : m.end ≤ length haystack
  pub start_boundary : is_char_boundary haystack m.start ≡ true
  pub end_boundary : is_char_boundary haystack m.end ≡ true

pub record RegexEngine : Type 0 where
  pub find : Regex → Str → Option Match
  pub captures : Regex → Str → Option Captures
  pub find-IsMatchIn : (re : Regex) (s : Str) (m : Match) → find re s ≡ some m → IsMatchIn s m
