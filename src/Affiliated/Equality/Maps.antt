-- ===== src/Affiliated/Equality/Maps.antt =====
-- The equality of the maps `attr`, as association lists with distinct keys.
use org_rs.Prelude.{
  suc, ◌≡◌, refl, sym, ◌∙◌, none, some, false, List, [], ◌∷◌, ◌==◌, length, arith, inl, inr,
  Bool-cases, if◌then◌else◌,
}
use org_rs.Affiliated.Equality.{str_eq, vec_eq, get, entries_in, hash_map_eq}
use org_rs.Affiliated.Equality.Decides.{
  Decides, Decides-iff, Decides-and, Decides-no, Decides-yes, Decides-str, Decides-option,
  Decides-vec, All,
}
use org_rs.Affiliated.Output.{equal, push_attr}
use org_rs.Affiliated.Output.Attr.{equal_iff}
use org_rs.Rust.Str.{Str}

abbrev pub Map : Type 0
Map = List (Str × List Str)

-- Each key has one entry.
abbrev pub Distinct : Map → Type 0
Distinct [] = Unit
Distinct ((k, vs) ∷ m) = (get k m ≡ none) × Distinct m

-- The maps have the same entries.
abbrev pub SameMap : Map → Map → Type 0
SameMap m n = (k : Str) → get k m ≡ get k n

-- The map without a key.
unfoldable remove : Str → Map → Map
remove k [] = []
remove k ((j, vs) ∷ m) = if equal j k then m else (j, vs) ∷ remove k m

length-remove :
    (k : Str) (vs : List Str) (m : Map) → get k m ≡ some vs → length m ≡ suc (length (remove k m))
unfolding get remove
length-remove k vs [] e = cc
length-remove k vs ((j, us) ∷ m) e = elim (Bool-cases (equal j k)) [
  | inl here ↦ rw here refl
  | inr there ↦ ground (arith, length-remove k vs m)
]

get-remove :
    (k j : Str) (m : Map) → Distinct m → get j (remove k m) ≡ (if equal k j then none else get j m)
unfolding get remove
get-remove k j [] d = ground arith
get-remove k j ((i, us) ∷ m) d =
    ground (arith, get-remove k j m d.1, d.0, equal_iff i k, equal_iff i j, equal_iff k j)

remove-Distinct : (k : Str) (m : Map) → Distinct m → Distinct (remove k m)
unfolding remove get
remove-Distinct k [] d = tt
remove-Distinct k ((i, us) ∷ m) d = elim (Bool-cases (equal i k)) [
  | inl here ↦ rw here d.1
  | inr there ↦ rw there (get-remove k i m d.1 ∙ ground (arith, d.0), remove-Distinct k m d.1)
]

everywhere : {T : Type 0} (xs : List T) → All (λ _. Unit) xs
everywhere [] = tt
everywhere (x ∷ xs) = (tt, everywhere xs)

pub Decides-strs : (xs ys : List Str) → Decides (xs ≡ ys) (vec_eq str_eq xs ys)
Decides-strs xs ys = Decides-vec (λ _. Unit) str_eq (λ a b h. Decides-str a b) xs ys (everywhere xs)

-- Each entry of the first map is in the second.
abbrev Included : Map → Map → Type 0
Included [] n = Unit
Included ((k, vs) ∷ m) n = (some vs ≡ get k n) × Included m n

Decides-entries : (m n : Map) → Decides (Included m n) (entries_in m n)
unfolding entries_in
Decides-entries [] n = Decides-yes tt
Decides-entries ((k, vs) ∷ m) n =
    Decides-and _ _
      (Decides-option (λ _. Unit) (vec_eq str_eq) (λ xs ys h. Decides-strs xs ys) (some vs)
        (get k n) tt)
      (Decides-entries m n)

Included-remove :
    (k : Str) (m n : Map) → Distinct n → get k m ≡ none → Included m n → Included m (remove k n)
unfolding get
Included-remove k [] n d absent h = tt
Included-remove k ((j, vs) ∷ m) n d absent h = (
  h.0 ∙ ground (arith, get-remove k j n d, absent, equal_iff j k, equal_iff k j),
  Included-remove k m n d (ground (arith, absent)) h.1,
)

Included-unremove : (k : Str) (m n : Map) → Distinct n → Included m (remove k n) → Included m n
Included-unremove k [] n d h = tt
Included-unremove k ((j, vs) ∷ m) n d h =
    (ground (arith, h.0, get-remove k j n d), Included-unremove k m n d h.1)

Included-SameMap :
    (m n : Map) → Distinct m → Distinct n → length m ≡ length n → Included m n → SameMap m n
unfolding get
Included-SameMap [] [] dm dn same h j = refl
Included-SameMap [] (e ∷ n) dm dn same h j = absurd (omega (arith, same))
Included-SameMap ((k, vs) ∷ m) n dm dn same h j =
    let shorter = length-remove k vs n (sym h.0) in
    let rest =
      Included-SameMap m (remove k n) dm.1 (remove-Distinct k n dn) (omega (arith, same, shorter))
        (Included-remove k m n dn dm.0 h.1) j in
    ground (arith, rest, get-remove k j n dn, h.0, equal_iff k j)

SameMap-Included :
    (m n : Map) → Distinct m → Distinct n → SameMap m n → (length m ≡ length n) × Included m n
unfolding get
SameMap-Included [] [] dm dn h = (refl, tt)
SameMap-Included [] ((j, us) ∷ n) dm dn h = absurd (ground (arith, h j, equal_iff j j))
SameMap-Included ((k, vs) ∷ m) n dm dn h =
    let found : some vs ≡ get k n = ground (arith, h k, equal_iff k k) in
    let (same, included) =
      SameMap-Included m (remove k n) dm.1 (remove-Distinct k n dn)
        (λ j. ground (arith, h j, dm.0, get-remove k j n dn, equal_iff k j)) in
    (
      omega (arith, same, length-remove k vs n (sym found)),
      (found, Included-unremove k m n dn included),
    )

-- On maps with distinct keys the test answers whether they have the same entries.
pub Decides-hash_map :
    (m n : Map) → Distinct m → Distinct n → Decides (SameMap m n) (hash_map_eq m n)
unfolding hash_map_eq
Decides-hash_map m n dm dn = elim (Bool-cases (length m == length n)) [
  | inl same ↦ rw same (
      Decides-iff _
        (Included-SameMap m n dm dn (ground arith), λ h. (SameMap-Included m n dm dn h).1)
        (Decides-entries m n))
  | inr other ↦
      rw other (Decides-no (λ h. let sizes = (SameMap-Included m n dm dn h).0 in ground arith))
]

-- A new value is under a key that is there or is new.
get-push_attr :
    (backend value k : Str) (m : Map)
    → get k m ≡ none
    → equal backend k ≡ false
    → get k (push_attr backend value m) ≡ none
unfolding push_attr get
get-push_attr backend value k [] absent other = rw other refl
get-push_attr backend value k ((j, us) ∷ m) absent other = ground (
  arith,
  absent,
  other,
  get-push_attr backend value k m,
  equal_iff j k,
  equal_iff j backend,
  equal_iff backend k,
)

pub push_attr-Distinct :
    (backend value : Str) (m : Map) → Distinct m → Distinct (push_attr backend value m)
unfolding push_attr get
push_attr-Distinct backend value [] d = (refl, tt)
push_attr-Distinct backend value ((j, us) ∷ m) d = elim (Bool-cases (equal j backend)) [
  | inl here ↦ rw here d
  | inr there ↦ rw there (
    get-push_attr backend value j m d.0 (ground (arith, equal_iff j backend, equal_iff backend j)),
    push_attr-Distinct backend value m d.1,
  )
]
