-- ===== src/Rust/Str.antt =====
-- A `&str` is its list of bytes. Character boundaries, slices, and searches as in `std::str`.
use Prim.Native.Char.{code}
use org_rs.Prelude.{
  ℕ, ◌-◌, String, Bool, true, false, ◌&&◌, ◌||◌, Option, none, some, List, [], ◌∷◌, ltb, leb, ◌==◌,
  if◌then◌else◌, length, get_elem?, take, drop,
}
use org_rs.Rust.Outcome.{Outcome, ok, panic, check, out_of_bounds, not_char_boundary}

abbrev pub Str : Type 0
Str = List ℕ

abbrev pub newline : ℕ
newline = 10

-- The bytes of an ASCII literal of the source.
abbrev pub codes : String → Str
codes String.[] = []
codes (String.◌∷◌ c s) = code c ∷ codes s

-- A byte that starts a code point, `(b as i8) >= -0x40`.
abbrev pub is_lead : ℕ → Bool
is_lead b = ltb b 128 || leb 192 b

abbrev lead_at : Option ℕ → Bool
lead_at none = false
lead_at (some b) = is_lead b

-- `s.is_char_boundary(i)`
unfoldable pub is_char_boundary : Str → ℕ → Bool
is_char_boundary s i =
    if i == 0 then true else if i == length s then true else lead_at (get_elem? s i)

-- `s.as_bytes()[i]`
unfoldable pub byte_at : Str → ℕ → Outcome ℕ
byte_at s i = elim (get_elem? s i) [ none ↦ panic out_of_bounds | some b ↦ ok b ]

-- `&s.as_bytes()[..n]` and `&s.as_bytes()[n..]`
unfoldable pub bytes_to : Str → ℕ → Outcome Str
bytes_to s n = check (leb n (length s)) out_of_bounds (ok (take n s))

unfoldable pub bytes_from : Str → ℕ → Outcome Str
bytes_from s n = check (leb n (length s)) out_of_bounds (ok (drop n s))

-- `&s[a..]`: the start must be a character boundary.
unfoldable pub str_from : Str → ℕ → Outcome Str
unfolding is_char_boundary
str_from s a = check (is_char_boundary s a) not_char_boundary (ok (drop a s))

-- `&s[a..b]`
unfoldable pub str_between : Str → ℕ → ℕ → Outcome Str
unfolding is_char_boundary
str_between s a b =
    check (leb a b && (is_char_boundary s a && is_char_boundary s b)) not_char_boundary
      (ok (take (b - a) (drop a s)))

abbrev pub is_prefix : Str → Str → Bool
is_prefix [] s = true
is_prefix (x ∷ xs) [] = false
is_prefix (x ∷ xs) (y ∷ ys) = x == y && is_prefix xs ys

-- `s.contains(needle)`
unfoldable pub contains : Str → Str → Bool
contains needle [] = is_prefix needle []
contains needle (y ∷ ys) = is_prefix needle (y ∷ ys) || contains needle ys
