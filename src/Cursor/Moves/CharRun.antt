-- ===== src/Cursor/Moves/CharRun.antt =====
-- `skip_chars_forward` over the characters behind the cursor.
use org_rs.Prelude.{
  ℕ, zero, suc, ◌+◌, ◌-◌, ◌<◌, ◌≤◌, ◌≡◌, ◌⊎◌, inl, inr, refl, ap, true, false, Option, none, some,
  List, [], ◌∷◌, ◌++◌, append_assoc, append-nil, arith, length, length-append, Bool-cases, elem,
  ltb,
}
use org_rs.Cursor.Moves.{skip_chars_forward, skip_chars_loop}
use org_rs.Cursor.Moves.Zipper.{
  place, between, get_next_char-some, get_next_char-none, get_prev_char-some, length-le-place,
}
use org_rs.Cursor.State.{Cursor}
use org_rs.Rust.Outcome.{ok}
use org_rs.Rust.Utf8.{Char, IsChar, encode_all}
use org_rs.Rust.Utf8.Encoding.{AllChars, encode_all-append}

abbrev pub AllIn : List Char → List Char → Type 0
AllIn chars [] = Unit
AllIn chars (c ∷ r) = (elem c chars ≡ true) × AllIn chars r

-- The run stops at the end of the text, or in front of a character that is not in the set.
abbrev pub StopsAt : List Char → List Char → Type 0
StopsAt chars [] = Unit
StopsAt chars (c ∷ r) = elem c chars ≡ false

-- What the loop does from a count of `count`: it passes over `run` and leaves `rest`.
pub record IsRun (chars : List Char) (room : ℕ) (behind run rest : List Char) : Type 0 where
  pub splits : behind ≡ run ++ rest
  pub in_set : AllIn chars run
  pub in_room : length run ≤ room
  pub maximal : StopsAt chars rest ⊎ (length run ≡ room)

module _ (chars : List Char) (start limit : ℕ) where
  -- One character more than the limit leaves room for.
  abbrev room : ℕ → ℕ
  room count = limit + 1 - (count + start)

  abbrev Runs : ℕ → List Char → ℕ → Type 0
  Runs fuel behind count =
      (before : List Char)
      → (run rest : List Char) × IsRun chars (room count) behind run rest
        × (skip_chars_loop fuel chars start limit count (between before behind)
            ≡ ok (count + length run, between (before ++ run) rest))

  run-end : (fuel count : ℕ) → Runs (suc fuel) [] count
  unfolding skip_chars_loop
  run-end fuel count before = (
    [],
    [],
    record { splits = refl; in_set = tt; in_room = omega arith; maximal = inl tt },
    ground (arith, get_next_char-none before, append-nil before),
  )

  run-stop :
      (fuel count : ℕ) (c : Char) (r : List Char)
      → IsChar c
      → (elem c chars ≡ false) ⊎ (ltb limit (count + start) ≡ true)
      → Runs (suc fuel) (c ∷ r) count
  unfolding skip_chars_loop
  run-stop fuel count c r valid why before = (
    [],
    c ∷ r,
    record { splits = refl; in_set = tt; in_room = omega arith; maximal = ground arith },
    ground (
      arith,
      get_next_char-some before c r valid,
      get_prev_char-some before c r valid,
      append-nil before,
    ),
  )

  run-more :
      (fuel count : ℕ) (c : Char) (r : List Char)
      → IsChar c
      → elem c chars ≡ true
      → ltb limit (count + start) ≡ false
      → Runs fuel r (count + 1)
      → Runs (suc fuel) (c ∷ r) count
  unfolding skip_chars_loop
  run-more fuel count c r valid isin within ih before =
      let (run, rest, h, e) = ih (before ++ c ∷ []) in
      (
        c ∷ run,
        rest,
        record {
          splits = ap (λ (t : List Char). c ∷ t) h.splits;
          in_set = (isin, h.in_set);
          in_room = ground (arith, h.in_room);
          maximal = ground (arith, h.maximal);
        },
        ground (arith, get_next_char-some before c r valid, e, append_assoc before (c ∷ []) run),
      )

  skip_chars_loop-Runs :
      (fuel : ℕ) (behind : List Char) (count : ℕ)
      → length behind < fuel
      → AllChars behind
      → Runs fuel behind count
  skip_chars_loop-Runs zero behind count h valid = elim h [ ]
  skip_chars_loop-Runs (suc fuel) [] count h valid = run-end fuel count
  skip_chars_loop-Runs (suc fuel) (c ∷ r) count h valid =
      let ih = skip_chars_loop-Runs fuel r (count + 1) (omega arith) valid.1 in
      elim (Bool-cases (elem c chars)) [
        | inr out ↦ run-stop fuel count c r valid.0 (inl out)
        | inl isin ↦ elim (Bool-cases (ltb limit (count + start))) [
          | inl over ↦ run-stop fuel count c r valid.0 (inr over)
          | inr within ↦ run-more fuel count c r valid.0 isin within ih
        ]
      ]

module _ (chars : List Char) (before behind : List Char) (valid : AllChars behind) where
  abbrev whole_length : ℕ
  whole_length = length (encode_all (before ++ behind))

  enough : length behind < suc whole_length
  enough = omega (
    arith,
    length-le-place behind valid,
    ap length (encode_all-append before behind),
    length-append (encode_all before) (encode_all behind),
  )

  -- The limit in force: the argument, or the length of the text.
  abbrev pub limit_of : Option ℕ → ℕ
  limit_of none = whole_length
  limit_of (some lim) = lim

  skip_chars_forward-loop :
      (limit : Option ℕ) (n : ℕ) (c : Cursor)
      → place before < limit_of limit
      → skip_chars_loop
          (suc whole_length)
          chars
          (place before)
          (limit_of limit)
          0
          (between before behind)
        ≡ ok (n, c)
      → skip_chars_forward chars limit (between before behind) ≡ ok (n, c)
  unfolding skip_chars_forward
  skip_chars_forward-loop none n c below run = ground (arith, run)
  skip_chars_forward-loop (some lim) n c below run = ground (arith, run)

  -- Below its limit `skip_chars_forward` returns the number of characters that it passes over. They
  -- all lie in the set; there are at most as many as the limit has bytes from the cursor on, and one
  -- more; and the run ends there, at the end of the text, or in front of a character outside the set.
  pub skip_chars_forward-IsRun :
      (limit : Option ℕ)
      → place before < limit_of limit
      → (run rest : List Char) × IsRun chars (limit_of limit + 1 - place before) behind run rest
        × (skip_chars_forward chars limit (between before behind)
            ≡ ok (length run, between (before ++ run) rest))
  skip_chars_forward-IsRun limit below =
      let (run, rest, h, e) =
        skip_chars_loop-Runs chars (place before) (limit_of limit) (suc whole_length) behind 0
          enough valid before in
      let same : 0 + length run ≡ length run = omega arith in
      let same_room : limit_of limit + 1 - (0 + place before) ≡ limit_of limit + 1 - place before =
        omega arith in
      (run, rest, rw same_room at h, skip_chars_forward-loop limit _ _ below (rw same at e))

  -- At the limit or beyond, it returns 0 and does not move.
  pub skip_chars_forward_at_limit :
      (limit : Option ℕ)
      → limit_of limit ≤ place before
      → skip_chars_forward chars limit (between before behind) ≡ ok (0, between before behind)
  unfolding skip_chars_forward
  skip_chars_forward_at_limit none above = ground arith
  skip_chars_forward_at_limit (some lim) above = ground arith
