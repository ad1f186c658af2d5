-- ===== src/Tests/BlockExamples.antt =====
-- The theorems on a block of keywords and on the data collected from it, applied to "#+NAME: x" and a
-- newline.
use org_rs.Prelude.{◌≡◌, ◌↔◌, refl, Bool, true, none, some, [], ◌∷◌, arith, inl, inr, if◌then◌else◌}
use org_rs.Affiliated.Collect.{collect_affiliated_keywords}
use org_rs.Affiliated.Collect.Block.{KeywordLine, Block, stop, more, entry}
use org_rs.Affiliated.Collect.Block.Gathered.{collect_affiliated_keywords-Block}
use org_rs.Affiliated.Equality.{
  affiliated_data_eq, get, vec_eq, elements_eq, option_eq, hash_map_eq, entries_in,
}
use org_rs.Affiliated.Equality.Plain.{
  IsPlain, SameData, affiliated_data_eq_iff, collect_affiliated_keywords-IsPlain,
}
use org_rs.Affiliated.Output.{AffiliatedData, Group, default}
use org_rs.Crates.Regex.{RegexEngine}
use org_rs.Cursor.State.{new}
use org_rs.Rust.Outcome.{ok}
use org_rs.Rust.Str.{codes, is_prefix}
use org_rs.Tests.Engine.{literal}
use org_rs.Tests.KeywordExamples.{
  named, name_match, name_captures, named-IsNextLine, starts_at_zero, starts_at_seven,
  starts_at_end,
}
use org_rs.Tests.Scan.{scan}

-- Its `captures` knows the lines that begin with "#+NAME: ".
abbrev pub keywords : RegexEngine
keywords = record literal {
  captures = λ re s. if is_prefix (codes "#+NAME: ") s then some name_captures else none;
}

pub named_line : KeywordLine keywords named 0 10
named_line = record {
  cap = name_captures;
  group = Group.name;
  found = name_match;
  secondary = none;
  backend = [];
  next = named-IsNextLine;
  boundary = starts_at_zero;
  captured = refl;
  first = 7;
  matched = (refl, refl, refl, refl, refl);
  secondary_taken = refl;
  backend_taken = refl;
  value_at = refl;
  value_inside = omega arith;
  value_boundary = starts_at_seven;
}

abbrev pub collected : AffiliatedData
collected = entry keywords named 10 0 10 named_line default

pub named-Block : Block keywords named 10 0 default 10 collected
named-Block = more 0 10 10 default collected named_line (omega arith) (
    stop 10 none collected (record {
      inside = omega arith;
      boundary = starts_at_end;
      line = λ i lo hi. absurd (omega arith);
      over = inr refl;
    }))

named-collected :
    collect_affiliated_keywords scan keywords 10 (new named 0)
    ≡ ok ((0, some collected), new named 10)
named-collected =
    collect_affiliated_keywords-Block scan keywords named 10 0 10 collected none (inl refl)
      named-Block (λ i lo hi. absurd (omega arith))

collect_affiliated_keywords-IsPlain_example : IsPlain collected
collect_affiliated_keywords-IsPlain_example =
    collect_affiliated_keywords-IsPlain scan keywords 10 0 (new named 0) (new named 10) collected
      named-collected

-- Two backends, in both orders.
abbrev html_first : AffiliatedData
html_first = record default {
  attr = (codes "ATTR_HTML", codes "w" ∷ []) ∷ (codes "ATTR_LATEX", []) ∷ [];
}

abbrev latex_first : AffiliatedData
latex_first = record default {
  attr = (codes "ATTR_LATEX", []) ∷ (codes "ATTR_HTML", codes "w" ∷ []) ∷ [];
}

html_first-IsPlain : IsPlain html_first
unfolding get
html_first-IsPlain = record { captions = tt; backends = (refl, (refl, tt)) }

latex_first-IsPlain : IsPlain latex_first
unfolding get
latex_first-IsPlain = record { captions = tt; backends = (refl, (refl, tt)) }

affiliated_data_eq_iff_example :
    (t : Bool) × (affiliated_data_eq html_first latex_first ≡ ok t)
    × ((t ≡ true) ↔ SameData html_first latex_first)
affiliated_data_eq_iff_example =
    affiliated_data_eq_iff html_first latex_first html_first-IsPlain latex_first-IsPlain

orders_agree : affiliated_data_eq html_first latex_first ≡ ok true
unfolding affiliated_data_eq vec_eq elements_eq option_eq hash_map_eq entries_in get
orders_agree = refl
