-- ===== src/Data/Outline.antt =====
-- The data of headlines, inline tasks and node properties (headline.rs), and of lists (list.rs).
use org_rs.Prelude.{ℕ, Bool, Option, List}
use org_rs.Rust.Str.{Str}
use org_rs.Data.Objects.{TimestampData}

pub record NodePropertyData : Type 0 where
  pub key : Str
  pub value : Str

pub record Tag : Type 0 where
  pub text : Str

pub data TodoKeyword : Type 0 where
  todo done : TodoKeyword

pub record HeadlineData : Type 0 where
  pub archivedp : Bool
  pub closed : Option TimestampData
  pub commentedp : Bool
  pub deadline : Option TimestampData
  pub footnote_section_p : Bool
  pub level : ℕ
  pub pre_blank : ℕ
  pub priority : ℕ
  pub quotedp : Bool
  pub raw_value : Str
  pub scheduled : Option TimestampData
  pub tags : List Tag
  pub title : Str
  pub todo_keyword : TodoKeyword

pub record InlineTaskData : Type 0 where
  pub closed : Option TimestampData
  pub deadline : Option TimestampData
  pub level : ℕ
  pub priority : ℕ
  pub raw_value : Str
  pub scheduled : Option TimestampData
  pub tags : List Tag
  pub title : Str
  pub todo_keyword : Option TodoKeyword

-- A stub, with no fields yet.
pub data ListStruct : Type 0 where
  stub : ListStruct

pub data ListKind : Type 0 where
  descriptive ordered unordered : ListKind

pub record PlainListData : Type 0 where
  pub structure : ListStruct
  pub type_s : ListKind

pub data CheckBox : Type 0 where
  on off trans : CheckBox

pub record ItemData : Type 0 where
  pub bullet : Str
  pub checkbox : Option CheckBox
  pub counter : ℕ
  pub pre_blank : ℕ
  pub raw_tag : Option Str
  pub tag : Option Str
  pub structure : ListStruct
