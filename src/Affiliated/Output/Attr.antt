-- ===== src/Affiliated/Output/Attr.antt =====
-- The values that a backend has in the map `attr`.
use org_rs.Prelude.{true, ◌≡◌, ◌↔◌, List, [], ◌∷◌, ◌++◌, if◌then◌else◌, arith}
use org_rs.Affiliated.Output.{equal, push_attr}
use org_rs.Rust.Str.{Str}

pub equal_iff : (a b : Str) → (equal a b ≡ true) ↔ (a ≡ b)
equal_iff (x ∷ a) (y ∷ b) = ground (arith, equal_iff a b)
equal_iff _ _ = ground arith

-- The values of a backend, none if it has no entry.
abbrev pub values : Str → List (Str × List Str) → List Str
values k [] = []
values k ((j, vs) ∷ m) = if equal j k then vs else values k m

-- After `push_attr` the values of its backend have the new one at the end; those of every other
-- backend are the same.
pub values-push_attr :
    (backend k : Str) (value : Str) (m : List (Str × List Str))
    → values k (push_attr backend value m)
      ≡ (if equal backend k then values k m ++ value ∷ [] else values k m)
unfolding push_attr
values-push_attr backend k value [] = ground arith
values-push_attr backend k value ((j, vs) ∷ m) = ground (
  arith,
  values-push_attr backend k value m,
  equal_iff backend k,
  equal_iff j backend,
  equal_iff j k,
)
