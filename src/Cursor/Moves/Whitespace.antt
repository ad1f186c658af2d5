-- ===== src/Cursor/Moves/Whitespace.antt =====
-- `skip_whitespace` over the characters behind the cursor.
use mathlib.Core.Path.{subst₂}
use org_rs.Prelude.{
  ℕ, zero, suc, ◌<◌, ◌≡◌, inl, inr, refl, ap, Bool, true, false, List, [], ◌∷◌, ◌++◌, append_assoc,
  append-nil, arith, length, length-append, if◌then◌else◌, Bool-cases,
}
use org_rs.Cursor.Moves.{skip_whitespace, skip_whitespace_loop}
use org_rs.Cursor.Moves.Zipper.{
  place, between, get_next_char-some, get_next_char-none, get_prev_char-some, length-le-place,
}
use org_rs.Rust.Outcome.{ok}
use org_rs.Rust.Utf8.{Char, IsChar, is_whitespace, encode_all}
use org_rs.Rust.Utf8.Encoding.{AllChars, encode_all-append}

-- The characters that the loop passes over, and those that it leaves.
abbrev pub skipped : List Char → List Char
skipped [] = []
skipped (c ∷ []) = if is_whitespace c then c ∷ [] else []
skipped (c ∷ d ∷ r) = let more = skipped r in if is_whitespace c then c ∷ d ∷ more else []

abbrev pub left : List Char → List Char
left [] = []
left (c ∷ []) = if is_whitespace c then [] else c ∷ []
left (c ∷ d ∷ r) = let more = left r in if is_whitespace c then more else c ∷ d ∷ r

abbrev Skips : ℕ → List Char → Type 0
Skips fuel behind =
    (before : List Char)
    → skip_whitespace_loop fuel (between before behind)
      ≡ ok (tt, between (before ++ skipped behind) (left behind))

skip-end : (fuel : ℕ) → Skips (suc fuel) []
unfolding skip_whitespace_loop
skip-end fuel before = ground (arith, get_next_char-none before, append-nil before)

skip-stop :
    (fuel : ℕ) (c : Char) (r : List Char)
    → IsChar c
    → is_whitespace c ≡ false
    → Skips (suc fuel) (c ∷ r)
unfolding skip_whitespace_loop
skip-stop fuel c [] valid stop before = ground (
  arith,
  get_next_char-some before c [] valid,
  get_prev_char-some before c [] valid,
  append-nil before,
)
skip-stop fuel c (d ∷ r) valid stop before = ground (
  arith,
  get_next_char-some before c (d ∷ r) valid,
  get_prev_char-some before c (d ∷ r) valid,
  append-nil before,
)

skip-last :
    (fuel : ℕ) (c : Char)
    → IsChar c
    → is_whitespace c ≡ true
    → Skips fuel []
    → Skips (suc fuel) (c ∷ [])
unfolding skip_whitespace_loop
skip-last fuel c valid white ih before = ground (
  arith,
  get_next_char-some before c [] valid,
  get_next_char-none (before ++ c ∷ []),
  ih (before ++ c ∷ []),
  append-nil (before ++ c ∷ []),
)

skip-two :
    (fuel : ℕ) (c d : Char) (r : List Char)
    → IsChar c
    → IsChar d
    → is_whitespace c ≡ true
    → Skips fuel r
    → Skips (suc fuel) (c ∷ d ∷ r)
unfolding skip_whitespace_loop
skip-two fuel c d r valid valid' white ih before = ground (
  arith,
  get_next_char-some before c (d ∷ r) valid,
  get_next_char-some (before ++ c ∷ []) d r valid',
  ih ((before ++ c ∷ []) ++ d ∷ []),
  append_assoc (before ++ c ∷ []) (d ∷ []) (skipped r),
  append_assoc before (c ∷ []) (d ∷ skipped r),
)

skip_whitespace_loop-Skips :
    (fuel : ℕ) (behind : List Char) → length behind < fuel → AllChars behind → Skips fuel behind
skip_whitespace_loop-Skips zero behind h valid = elim h [ ]
skip_whitespace_loop-Skips (suc fuel) [] h valid = skip-end fuel
skip_whitespace_loop-Skips (suc fuel) (c ∷ []) h valid = elim (Bool-cases (is_whitespace c)) [
  | inl white ↦ skip-last fuel c valid.0 white (skip_whitespace_loop-Skips fuel [] (omega arith) tt)
  | inr stop ↦ skip-stop fuel c [] valid.0 stop
]
skip_whitespace_loop-Skips (suc fuel) (c ∷ d ∷ r) h valid =
    let ih = skip_whitespace_loop-Skips fuel r (omega arith) valid.1.1 in
    elim (Bool-cases (is_whitespace c)) [
      | inl white ↦ skip-two fuel c d r valid.0 valid.1.0 white ih
      | inr stop ↦ skip-stop fuel c (d ∷ r) valid.0 stop
    ]

-- From between two characters `skip_whitespace` terminates without a panic, passes over exactly the
-- characters `skipped`, and returns the place behind them.
pub skip_whitespace-skipped :
    (before behind : List Char)
    → AllChars behind
    → skip_whitespace (between before behind)
      ≡ ok (place (before ++ skipped behind), between (before ++ skipped behind) (left behind))
unfolding skip_whitespace
skip_whitespace-skipped before behind valid =
    let enough : length behind < suc (length (encode_all (before ++ behind))) = omega (
      arith,
      length-le-place behind valid,
      ap length (encode_all-append before behind),
      length-append (encode_all before) (encode_all behind),
    ) in
    ground (arith, skip_whitespace_loop-Skips _ behind enough valid before)

-- The whitespace in front, as the method's comment asks for, and what follows it.
abbrev pub leading : List Char → List Char
leading [] = []
leading (c ∷ r) = let more = leading r in if is_whitespace c then c ∷ more else []

abbrev pub following : List Char → List Char
following [] = []
following (c ∷ r) = let more = following r in if is_whitespace c then more else c ∷ r

abbrev pub is_even : ℕ → Bool
is_even zero = true
is_even (suc zero) = false
is_even (suc (suc n)) = is_even n

skipped_even :
    (cs : List Char)
    → is_even (length (leading cs)) ≡ true
    → (skipped cs ≡ leading cs) × (left cs ≡ following cs)
skipped_even [] even = (refl, refl)
skipped_even (c ∷ []) even = ground arith
skipped_even (c ∷ d ∷ r) even = ground (arith, skipped_even r)

-- After an even number of whitespace characters `skip_whitespace` does what its comment says: it
-- stops in front of the next character that is not whitespace.
pub skip_whitespace_even :
    (before behind : List Char)
    → AllChars behind
    → is_even (length (leading behind)) ≡ true
    → skip_whitespace (between before behind)
      ≡ ok (place (before ++ leading behind), between (before ++ leading behind) (following behind))
skip_whitespace_even before behind valid even =
    let (same, same') = skipped_even behind even in
    subst₂
      (λ u v.
        skip_whitespace (between before behind) ≡ ok (place (before ++ u), between (before ++ u) v))
      same same' (skip_whitespace-skipped before behind valid)

skipped_none : (r : List Char) → leading r ≡ [] → (skipped r ≡ []) × (left r ≡ r)
skipped_none [] none_left = (refl, refl)
skipped_none (c ∷ []) none_left = ground arith
skipped_none (c ∷ d ∷ r) none_left = ground arith

-- With one whitespace character in front of `d`, which is none, and no whitespace behind `d`,
-- `skip_whitespace` stops behind `d`, and not in front of it.
pub skip_whitespace_swallows :
    (before : List Char) (c d : Char) (r : List Char)
    → AllChars (c ∷ d ∷ r)
    → is_whitespace c ≡ true
    → is_whitespace d ≡ false
    → leading r ≡ []
    → skip_whitespace (between before (c ∷ d ∷ r))
      ≡ ok (place (before ++ c ∷ d ∷ []), between (before ++ c ∷ d ∷ []) r)
skip_whitespace_swallows before c d r valid white other none_left =
    ground (arith, skip_whitespace-skipped before (c ∷ d ∷ r) valid, skipped_none r)
