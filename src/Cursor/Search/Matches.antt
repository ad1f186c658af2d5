-- ===== src/Cursor/Search/Matches.antt =====
-- What `match_indices` yields, said of the bytes of the text.
use mathlib.Core.Path.{subst}
use org_rs.Prelude.{
  length-drop, ℕ, zero, suc, ◌+◌, ◌-◌, ◌<◌, ◌≤◌, ◌≡◌, ◌⊎◌, inl, inr, refl, sym, Bool, true, false,
  List, [], ◌∷◌, arith, length, Bool-cases, drop,
}
use org_rs.Cursor.Search.{match_indices_from, match_indices, hits}
use org_rs.Rust.Str.{Str, is_prefix}

-- An occurrence at the beginning of the text, where a character starts.
abbrev pub occurs : Str → Str → Bool
occurs needle [] = is_prefix needle []
occurs needle (y ∷ ys) = hits needle y ys

-- How far behind an occurrence the next one may start: its length, and one byte at least.
abbrev pub stride : Str → ℕ
stride needle = suc (length needle - 1)

-- `ms` are the occurrences of `needle` in `s` from `at` on: each the first that starts no earlier
-- than one stride behind the last, and no other follows them.
abbrev pub Found : Str → Str → ℕ → List ℕ → Type 0
Found needle s at [] = (j : ℕ) → at ≤ j → j ≤ length s → occurs needle (drop j s) ≡ false
Found needle s at (m ∷ ms) =
    (at ≤ m)
    × (m ≤ length s)
    × (occurs needle (drop m s) ≡ true)
    × ((j : ℕ) → at ≤ j → j < m → occurs needle (drop j s) ≡ false)
    × Found needle s (m + stride needle) ms

-- One place more at which nothing occurs.
miss-earlier :
    (needle s : Str) (i j : ℕ)
    → occurs needle (drop i s) ≡ false
    → (i + 1 ≤ j → occurs needle (drop j s) ≡ false)
    → i ≤ j
    → occurs needle (drop j s) ≡ false
miss-earlier needle s i j miss later lo =
    let cases : (i ≡ j) ⊎ (i + 1 ≤ j) = omega arith in
    elim cases [
      | inl same ↦ subst (λ k. occurs needle (drop k s) ≡ false) same miss
      | inr lo' ↦ later lo'
    ]

Found-earlier :
    (needle s : Str) (i : ℕ) (ms : List ℕ)
    → occurs needle (drop i s) ≡ false
    → Found needle s (i + 1) ms
    → Found needle s i ms
Found-earlier needle s i [] miss found =
    λ j lo hi. miss-earlier needle s i j miss (λ lo'. found j lo' hi) lo
Found-earlier needle s i (m ∷ ms) miss (lo, hi, here, before, more) = (
  omega arith,
  hi,
  here,
  λ j lo hi. miss-earlier needle s i j miss (λ lo'. before j lo' hi) lo,
  more,
)

is_prefix-length : (xs ys : Str) → is_prefix xs ys ≡ true → length xs ≤ length ys
is_prefix-length [] ys h = omega arith
is_prefix-length (x ∷ xs) [] h = cc
is_prefix-length (x ∷ xs) (y ∷ ys) h = ground (arith, is_prefix-length xs ys)

drop-suc : (s : Str) (i y : ℕ) (ys : Str) → drop i s ≡ y ∷ ys → drop (i + 1) s ≡ ys
drop-suc [] zero y ys h = cc
drop-suc [] (suc i) y ys h = cc
drop-suc (x ∷ s) zero y ys h = ground arith
drop-suc (x ∷ s) (suc i) y ys h = ground (arith, drop-suc s i y ys)

length-zero : (t : Str) → length t ≡ 0 → t ≡ []
length-zero [] h = refl
length-zero (x ∷ t) h = absurd (omega arith)

drop-length : (s : Str) (j : ℕ) → length s ≤ j → drop j s ≡ []
drop-length s j h = length-zero (drop j s) (omega (arith, length-drop j s))

end-empty :
    (needle : Str) (i skip : ℕ)
    → is_prefix needle [] ≡ true
    → match_indices_from needle i skip [] ≡ i ∷ []
unfolding match_indices_from
end-empty [] i skip h = refl
end-empty (x ∷ needle) i skip h = cc

end-nonempty :
    (needle : Str) (i skip : ℕ)
    → is_prefix needle [] ≡ false
    → match_indices_from needle i skip [] ≡ []
unfolding match_indices_from
end-nonempty [] i skip h = cc
end-nonempty (x ∷ needle) i skip h = refl

module _ (needle s : Str) where
  abbrev Yields : ℕ → ℕ → ℕ → Str → Type 0
  Yields i skip at t =
      drop i s ≡ t
      → i + length t ≡ length s
      → skip ≤ length t
      → at ≡ i + skip
      → Found needle s at (match_indices_from needle i skip t)

  Yields-end-nonempty : (at : ℕ) → occurs needle [] ≡ false → at ≡ length s → Found needle s at []
  Yields-end-nonempty at none_here e j lo hi = rw (drop-length s j (omega arith)) none_here

  Yields-end : (i skip at : ℕ) → Yields i skip at []
  Yields-end i skip at e len fits same = elim (Bool-cases (is_prefix needle [])) [
    | inl empty ↦
        subst (λ ms. Found needle s at ms) (sym (end-empty needle i skip empty))
          (
            omega arith,
            omega arith,
            rw e empty,
            (λ j lo hi. absurd (omega arith)),
            (λ j lo hi. absurd (omega arith)),
          )
    | inr other ↦
        subst (λ ms. Found needle s at ms) (sym (end-nonempty needle i skip other))
          (Yields-end-nonempty at other (omega arith))
  ]

  Yields-hit :
      (i at y : ℕ) (ys : Str)
      → hits needle y ys ≡ true
      → Yields (i + 1) (length needle - 1) (i + stride needle) ys
      → Yields i 0 at (y ∷ ys)
  unfolding match_indices_from
  Yields-hit i at y ys hit ih e len fits same =
      let short : length needle ≤ suc (length ys) =
        is_prefix-length needle (y ∷ ys) (ground arith) in
      let more = ih (drop-suc s i y ys e) (omega arith) (omega arith) (omega arith) in
      rw hit (omega arith, omega arith, rw e hit, (λ j lo hi. absurd (omega arith)), more)

  Yields-miss :
      (i at y : ℕ) (ys : Str)
      → hits needle y ys ≡ false
      → Yields (i + 1) 0 (i + 1) ys
      → Yields i 0 at (y ∷ ys)
  unfolding match_indices_from
  Yields-miss i at y ys miss ih e len fits same =
      let more = ih (drop-suc s i y ys e) (omega arith) (omega arith) (omega arith) in
      let here : at ≡ i = omega arith in
      rw (miss, here) (Found-earlier needle s i _ (rw e miss) more)

  yields : (t : Str) (i skip at : ℕ) → Yields i skip at t
  unfolding match_indices_from
  yields [] i skip at = Yields-end i skip at
  yields (y ∷ ys) i (suc skip) at = λ e len fits same.
      yields ys (i + 1) skip at (drop-suc s i y ys e) (omega arith) (omega arith) (omega arith)
  yields (y ∷ ys) i zero at = elim (Bool-cases (hits needle y ys)) [
    | inl hit ↦ Yields-hit i at y ys hit (yields ys (i + 1) (length needle - 1) (i + stride needle))
    | inr miss ↦ Yields-miss i at y ys miss (yields ys (i + 1) 0 (i + 1))
  ]

  pub match_indices-Found : Found needle s 0 (match_indices needle s)
  match_indices-Found = yields s 0 0 0 refl (omega arith) (omega arith) (omega arith)
