-- ===== src/Rust/Trim.antt =====
-- `str::trim`, `str::chars` and `str::to_ascii_uppercase`.
use mathlib.Core.List.{reverse}
use org_rs.Prelude.{
  ℕ, zero, suc, ◌-◌, ◌&&◌, Option, none, some, List, [], ◌∷◌, map, leb, if◌then◌else◌,
}
use org_rs.Rust.Str.{Str}
use org_rs.Rust.Utf8.{Char, first_char, encode_all, is_whitespace}
use org_rs.Rust.Utf8.Encoding.{announced}

abbrev keep : Option Char → List Char → List Char
keep none cs = cs
keep (some c) cs = c ∷ cs

-- The code points, passing over `skip` bytes of the last one.
unfoldable pub chars_from : ℕ → Str → List Char
chars_from skip [] = []
chars_from (suc skip) (b ∷ bs) = chars_from skip bs
chars_from zero (b ∷ bs) = keep (first_char (b ∷ bs)) (chars_from (announced b - 1) bs)

unfoldable pub trim_start : List Char → List Char
trim_start [] = []
trim_start (c ∷ cs) = let rest = trim_start cs in if is_whitespace c then rest else c ∷ cs

unfoldable pub trim : Str → Str
unfolding chars_from trim_start
trim s = encode_all (reverse (trim_start (reverse (trim_start (chars_from 0 s)))))

abbrev upper : ℕ → ℕ
upper b = if leb b'a' b && leb b b'z' then b - 32 else b

unfoldable pub to_ascii_uppercase : Str → Str
to_ascii_uppercase = map upper
