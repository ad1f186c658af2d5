-- ===== src/Rust/Utf8.antt =====
-- UTF-8 (RFC 3629): the encoding of a `str`, and `chars().next()`; `char::is_whitespace`.
pub mod Encoding
use org_rs.Prelude.{
  ℕ, ◌+◌, ◌*◌, ◌/◌, ◌%◌, ◌<◌, Bool, ◌&&◌, ◌||◌, Option, none, some, List, [], ◌∷◌, ◌++◌, ltb, leb,
  ◌==◌, if◌then◌else◌,
}
use org_rs.Rust.Str.{Str}

-- A code point, as a number.
abbrev pub Char : Type 0
Char = ℕ

abbrev pub IsChar : Char → Type 0
IsChar c = c < 0x110000

-- The continuation byte that carries the low six bits.
abbrev pub continuation : ℕ → ℕ
continuation x = 128 + x % 64

unfoldable pub encode : Char → Str
encode c =
    if ltb c 0x80
    then c ∷ []
    else if ltb c 0x800
    then (192 + c / 64) ∷ continuation c ∷ []
    else if ltb c 0x10000
    then (224 + c / 4096) ∷ continuation (c / 64) ∷ continuation c ∷ []
    else (240 + c / 262144) ∷ continuation (c / 4096) ∷ continuation (c / 64) ∷ continuation c ∷ []

unfoldable pub encode_all : List Char → Str
encode_all [] = []
encode_all (c ∷ cs) = encode c ++ encode_all cs

-- Append the six bits of the next byte; a missing byte counts as zero bits.
abbrev next_bits : ℕ → Str → ℕ
next_bits acc [] = acc * 64
next_bits acc (b ∷ bs) = acc * 64 + b % 64

abbrev after : Str → Str
after [] = []
after (b ∷ bs) = bs

-- `s.chars().next()`
unfoldable pub first_char : Str → Option Char
first_char [] = none
first_char (b ∷ bs) =
    if ltb b 0x80
    then some b
    else if ltb b 0xe0
    then some (next_bits (b % 32) bs)
    else if ltb b 0xf0
    then some (next_bits (next_bits (b % 16) bs) (after bs))
    else some (next_bits (next_bits (next_bits (b % 8) bs) (after bs)) (after (after bs)))

-- `char::is_whitespace`: the Unicode property White_Space.
unfoldable pub is_whitespace : Char → Bool
is_whitespace c =
    (leb 0x09 c && leb c 0x0d)
    || c == 0x20
    || c == 0x85
    || c == 0xa0
    || c == 0x1680
    || (leb 0x2000 c && leb c 0x200a)
    || c == 0x2028
    || c == 0x2029
    || c == 0x202f
    || c == 0x205f
    || c == 0x3000

-- `str.contains(c)` over the code points of the pattern.
