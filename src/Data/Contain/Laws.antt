-- ===== src/Data/Contain/Laws.antt =====
-- What `can_contain` allows, by the classes of kinds.
use org_rs.Prelude.{Bool, true, false, ◌||◌, ◌≡◌, ◌↔◌, refl, arith}
use org_rs.Data.Contain.{
  can_contain, is_from_standard_set, is_from_standard_set_no_line_break, keyword_can_contain,
  link_can_contain, radio_target_can_contain, table_cell_can_contain, table_row_can_contain,
}
use org_rs.Data.Kind.{
  SyntaxT, is_object, is_object_container, bold, italic, footnote_reference, paragraph,
  strike_through, subscript, superscript, underline, verse_block, headline, inline_task, item,
  keyword, link, radio_target, table_cell, org_data, line_break, table_row,
}

standard-is_object : (x : SyntaxT) → is_from_standard_set x ≡ true → is_object x ≡ true
unfolding is_from_standard_set is_object
standard-is_object table_cell h = cc
standard-is_object x h = h

no_line_break-is_object :
    (x : SyntaxT) → is_from_standard_set_no_line_break x ≡ true → is_object x ≡ true
unfolding is_from_standard_set_no_line_break
no_line_break-is_object line_break h = cc
no_line_break-is_object x h = standard-is_object x h

keyword-is_object : (x : SyntaxT) → keyword_can_contain x ≡ true → is_object x ≡ true
unfolding keyword_can_contain
keyword-is_object footnote_reference h = cc
keyword-is_object x h = standard-is_object x h

link-is_object : (x : SyntaxT) → link_can_contain x ≡ true → is_object x ≡ true
unfolding link_can_contain is_object
link-is_object org_data h = cc
link-is_object _ h = ground arith

radio_target-is_object : (x : SyntaxT) → radio_target_can_contain x ≡ true → is_object x ≡ true
unfolding radio_target_can_contain is_object
radio_target-is_object org_data h = cc
radio_target-is_object _ h = ground arith

table_cell-is_object : (x : SyntaxT) → table_cell_can_contain x ≡ true → is_object x ≡ true
unfolding table_cell_can_contain is_object
table_cell-is_object org_data h = cc
table_cell-is_object _ h = ground arith

table_row-is_object : (x : SyntaxT) → table_row_can_contain x ≡ true → is_object x ≡ true
unfolding table_row_can_contain is_object
table_row-is_object org_data h = cc
table_row-is_object _ h = ground arith

-- Nothing but objects is ever contained.
pub can_contain-is_object :
    (self that : SyntaxT) → can_contain self that ≡ true → is_object that ≡ true
unfolding can_contain
can_contain-is_object bold that h = standard-is_object that h
can_contain-is_object italic that h = standard-is_object that h
can_contain-is_object footnote_reference that h = standard-is_object that h
can_contain-is_object paragraph that h = standard-is_object that h
can_contain-is_object strike_through that h = standard-is_object that h
can_contain-is_object subscript that h = standard-is_object that h
can_contain-is_object superscript that h = standard-is_object that h
can_contain-is_object underline that h = standard-is_object that h
can_contain-is_object verse_block that h = standard-is_object that h
can_contain-is_object headline that h = no_line_break-is_object that h
can_contain-is_object inline_task that h = no_line_break-is_object that h
can_contain-is_object item that h = no_line_break-is_object that h
can_contain-is_object keyword that h = keyword-is_object that h
can_contain-is_object link that h = link-is_object that h
can_contain-is_object radio_target that h = radio_target-is_object that h
can_contain-is_object table_cell that h = table_cell-is_object that h
can_contain-is_object table_row that h = table_row-is_object that h
can_contain-is_object _ that h = cc

-- The elements whose title, tag or value is a secondary string.
abbrev pub has_secondary : SyntaxT → Bool
has_secondary headline = true
has_secondary inline_task = true
has_secondary item = true
has_secondary keyword = true
has_secondary _ = false

-- An object that a container of objects takes.
abbrev pub sample : SyntaxT → SyntaxT
sample table_row = table_cell
sample _ = bold

-- The object containers, and the elements with a secondary string, contain something; no other kind
-- contains anything.
pub can_contain-containers :
    (self : SyntaxT)
    → (can_contain self (sample self) ≡ (is_object_container self || has_secondary self))
      × ((that : SyntaxT)
          → can_contain self that ≡ true
          → (is_object_container self || has_secondary self) ≡ true)
unfolding can_contain is_object_container
can_contain-containers org_data = (refl, λ that h. cc)
can_contain-containers _ = (refl, λ that h. ground arith)

in_row : (k : SyntaxT) → can_contain k table_cell ≡ true → k ≡ table_row
unfolding can_contain is_object
in_row org_data h = cc
in_row _ h = ground arith

of_row : (k : SyntaxT) → can_contain table_row k ≡ true → k ≡ table_cell
unfolding can_contain
of_row org_data h = cc
of_row _ h = ground arith

row-cell : can_contain table_row table_cell ≡ true
unfolding can_contain
row-cell = refl

-- A table cell stands in table rows alone, and a table row holds nothing else.
pub can_contain-table_cell :
    (self that : SyntaxT)
    → ((can_contain self table_cell ≡ true) ↔ (self ≡ table_row))
      × ((can_contain table_row that ≡ true) ↔ (that ≡ table_cell))
can_contain-table_cell self that =
    ((in_row self, λ e. rw e row-cell), (of_row that, λ e. rw e row-cell))
