-- ===== src/Affiliated/Equality.antt =====
-- `Debug` and `PartialEq` of `StringOrObject`, and the derived equality of `DualVal` and
-- `AffiliatedData` (data.rs, affiliated.rs).
pub mod Decides
pub mod Maps
pub mod Plain
use org_rs.Prelude.{
  Option, none, some, Bool, true, false, List, [], ◌∷◌, ◌++◌, ◌==◌, length, if◌then◌else◌,
}
use org_rs.Affiliated.Output.{StringOrObject, raw, parsed, DualVal, AffiliatedData, equal}
use org_rs.Rust.Outcome.{Outcome, ok, panic, stuck, unimplemented}
use org_rs.Rust.Str.{Str, codes}

-- `fmt`, with the Debug of `str` of the library.
unfoldable pub fmt : (Str → Str) → StringOrObject → Outcome Str
fmt debug_str (raw r) = ok (codes "Raw: " ++ debug_str r)
fmt debug_str (parsed p) = panic unimplemented

unfoldable pub eq : StringOrObject → StringOrObject → Outcome Bool
eq (raw r) (parsed p) = ok false
eq (raw r) (raw rhs) = ok (equal r rhs)
eq (parsed p) other = panic unimplemented

-- `&&`: the second test runs if the first holds.
abbrev pub and_then : Outcome Bool → Outcome Bool → Outcome Bool
and_then (ok true) n = n
and_then (ok false) n = ok false
and_then (panic x) n = panic x
and_then stuck n = stuck

abbrev pub str_eq : Str → Str → Outcome Bool
str_eq a b = ok (equal a b)

module _ {T : Type 0} (eq_of : T → T → Outcome Bool) where
  -- `Option<T>`
  unfoldable pub option_eq : Option T → Option T → Outcome Bool
  option_eq none none = ok true
  option_eq (some a) (some b) = eq_of a b
  option_eq _ _ = ok false

  -- The elements of two vectors of one length, up to the first two that differ.
  unfoldable pub elements_eq : List T → List T → Outcome Bool
  elements_eq (a ∷ xs) (b ∷ ys) = and_then (eq_of a b) (elements_eq xs ys)
  elements_eq _ _ = ok true

  -- `Vec<T>`
  unfoldable pub vec_eq : List T → List T → Outcome Bool
  unfolding elements_eq
  vec_eq xs ys = if length xs == length ys then elements_eq xs ys else ok false

  -- The fields in their order.
  unfoldable pub dual_val_eq : DualVal T → DualVal T → Outcome Bool
  unfolding option_eq
  dual_val_eq a b = and_then (eq_of a.value b.value) (option_eq a.secondary b.secondary)

-- `HashMap::get`
unfoldable pub get : Str → List (Str × List Str) → Option (List Str)
get k [] = none
get k ((j, vs) ∷ m) = if equal j k then some vs else get k m

-- Every entry of the first map is in the second.
unfoldable pub entries_in : List (Str × List Str) → List (Str × List Str) → Outcome Bool
unfolding get
entries_in [] other = ok true
entries_in ((k, vs) ∷ m) other =
    and_then (option_eq (vec_eq str_eq) (some vs) (get k other)) (entries_in m other)

-- `HashMap<String, Vec<Cow<str>>>`
unfoldable pub hash_map_eq : List (Str × List Str) → List (Str × List Str) → Outcome Bool
unfolding entries_in
hash_map_eq m other = if length m == length other then entries_in m other else ok false

-- The fields in their order.
unfoldable pub affiliated_data_eq : AffiliatedData → AffiliatedData → Outcome Bool
unfolding hash_map_eq
affiliated_data_eq a b = and_then (vec_eq (dual_val_eq eq) a.caption b.caption) (
    and_then (vec_eq str_eq a.header b.header) (
      and_then (option_eq str_eq a.name b.name) (
        and_then (option_eq str_eq a.plot b.plot) (
          and_then (option_eq (dual_val_eq str_eq) a.results b.results)
            (hash_map_eq a.attr b.attr)))))
