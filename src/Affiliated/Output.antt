-- ===== src/Affiliated/Output.antt =====
-- `DualVal`, `StringOrObject` and `AffiliatedData`, and how one keyword is stored.
pub mod Attr
use org_rs.Prelude.{
  Option, none, some, Bool, true, false, ◌&&◌, ◌==◌, List, [], ◌∷◌, ◌++◌, if◌then◌else◌,
}
use org_rs.Data.Syntax.{SyntaxNode}
use org_rs.Rust.Outcome.{Outcome, ok, panic, unwrap_none}
use org_rs.Rust.Str.{Str}

-- `StringOrObject` of data.rs.
pub data StringOrObject : Type 0 where
  raw : Str → StringOrObject
  parsed : SyntaxNode → StringOrObject

pub record DualVal (T : Type 0) : Type 0 where
  pub value : T
  pub secondary : Option T

-- The hash map `attr` is an association list with one entry for each backend.
pub record AffiliatedData : Type 0 where
  pub caption : List (DualVal StringOrObject)
  pub header : List Str
  pub name : Option Str
  pub plot : Option Str
  pub results : Option (DualVal Str)
  pub attr : List (Str × List Str)

-- `AffiliatedData::default`
abbrev pub default : AffiliatedData
default = record { caption = []; header = []; name = none; plot = none; results = none; attr = [] }

-- The names of the groups of `REGEX_AFFILIATED` but SECONDARY, in the order of the groups.
pub data Group : Type 0 where
  caption results header plot name attr : Group

abbrev pub equal : Str → Str → Bool
equal [] [] = true
equal (x ∷ xs) (y ∷ ys) = x == y && equal xs ys
equal _ _ = false

-- Push to the values of a backend, or insert it.
unfoldable pub push_attr : Str → Str → List (Str × List Str) → List (Str × List Str)
push_attr backend value [] = (backend, value ∷ []) ∷ []
push_attr backend value ((k, vs) ∷ m) =
    if equal k backend then (k, vs ++ value ∷ []) ∷ m else (k, vs) ∷ push_attr backend value m

abbrev pub raw_option : Option Str → Option StringOrObject
raw_option none = none
raw_option (some v) = some (raw v)

-- The `match` on the name of the group; `backend` is the text of ATTR in capitals.
unfoldable pub store : Group → Str → Option Str → Str → AffiliatedData → AffiliatedData
unfolding push_attr
store caption value secondary backend out = record out {
  caption = out.caption ++ (record { value = raw value; secondary = raw_option secondary } ∷ []);
}
store results value secondary backend out = record out {
  results = some (record { value = value; secondary = secondary });
}
store name value secondary backend out = record out { name = some value }
store plot value secondary backend out = record out { plot = some value }
store header value secondary backend out = record out { header = out.header ++ value ∷ [] }
store attr value secondary backend out = record out { attr = push_attr backend value out.attr }
