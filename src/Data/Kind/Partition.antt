-- ===== src/Data/Kind/Partition.antt =====
-- How the classes of kinds lie to one another.
use org_rs.Prelude.{Bool, true, false, not, ◌&&◌, ◌||◌, ◌≡◌, ◌≢◌, refl}
use org_rs.Data.Kind.{
  SyntaxT, org_data, paragraph, table_row, verse_block, is_greater_element, is_element, is_object,
  is_recursive_object, is_object_container,
}

-- Every kind but the root is an element or an object, and none is both.
pub is_element-not-is_object : (k : SyntaxT) → k ≢ org_data → is_element k ≡ not (is_object k)
unfolding is_element is_object
is_element-not-is_object org_data h = absurd (h refl)
is_element-not-is_object _ h = refl

-- An element that holds objects and no elements.
abbrev pub holds_objects : SyntaxT → Bool
holds_objects paragraph = true
holds_objects table_row = true
holds_objects verse_block = true
holds_objects _ = false

-- How the classes lie to one another at a kind.
pub record IsClassified (k : SyntaxT) : Type 0 where
  pub greater_is_element : (is_greater_element k && not (is_element k)) ≡ false
  pub recursive_is_object : (is_recursive_object k && not (is_object k)) ≡ false
  pub object_containers : is_object_container k ≡ (is_recursive_object k || holds_objects k)
  pub one_content : (is_greater_element k && is_object_container k) ≡ false

-- Every kind is classified: greater elements are elements, recursive objects are objects, the object
-- containers are the recursive objects with paragraphs, table rows and verse blocks, and no kind
-- holds both elements and objects.
pub SyntaxT-IsClassified : (k : SyntaxT) → IsClassified k
unfolding is_element is_object is_greater_element is_recursive_object is_object_container
SyntaxT-IsClassified org_data = record {
  greater_is_element = refl;
  recursive_is_object = refl;
  object_containers = refl;
  one_content = refl;
}
SyntaxT-IsClassified _ = record {
  greater_is_element = refl;
  recursive_is_object = refl;
  object_containers = refl;
  one_content = refl;
}
