-- ===== src/Data/Objects.antt =====
-- The data of the objects, of clocks, of planning lines and of timestamps, as in data.rs.
-- A `&str` or a `Cow<str>` is its bytes.
use org_rs.Prelude.{ℕ, Bool, Option, List}
use org_rs.Rust.Str.{Str}

pub data ClockStatus : Type 0 where
  running closed : ClockStatus

pub record DiarySexpData : Type 0 where
  pub value : Str

pub data LineNumberingMode : Type 0 where
  new continued : LineNumberingMode

pub record CodeData : Type 0 where
  pub value : Str

pub record EntityData : Type 0 where
  pub ascii : Str
  pub html : Str
  pub latex : Str
  pub latex_math_p : Bool
  pub latin1 : Str
  pub name : Str
  pub use_brackets_p : Bool
  pub utf_8 : Str

pub record ExportSnippetData : Type 0 where
  pub back_end : Str
  pub value : Str

pub record FootnoteReferenceData : Type 0 where
  pub label : Option Str
  pub type_s : Str

pub record InlineBabelCallData : Type 0 where
  pub call : Str
  pub inside_header : Option Str
  pub arguments : Option Str
  pub end_header : Option Str
  pub value : Str

pub record InlineSrcBlockData : Type 0 where
  pub language : Str
  pub parameters : Option Str
  pub value : Str

pub data LinkFormat : Type 0 where
  plain angle bracket : LinkFormat

pub data LinkType : Type 0 where
  coderef custom_id file fuzzy id radio : LinkType

pub record LinkData : Type 0 where
  pub application : Option Str
  pub format : LinkFormat
  pub path : Str
  pub raw_link : Str
  pub search_option : Option Str
  pub link_type : LinkType

pub record MacroData : Type 0 where
  pub args : List Str
  pub key : Str
  pub value : Str

pub record RadioTargetData : Type 0 where
  pub raw_value : Str

pub record StatisticsCookieData : Type 0 where
  pub value : Str

pub record SubscriptData : Type 0 where
  pub use_brackets_p : Bool

pub record SuperscriptData : Type 0 where
  pub use_brackets_p : Bool

pub record TargetData : Type 0 where
  pub value : Str

pub data WarningType : Type 0 where
  all first : WarningType

pub data TimestampType : Type 0 where
  active active_range diary inactive inactive_range : TimestampType

pub data RepeaterType : Type 0 where
  catch_up restart cumulate : RepeaterType

pub data TimeUnit : Type 0 where
  year month week day hour : TimeUnit

pub record TimestampData : Type 0 where
  pub day_end : ℕ
  pub day_start : ℕ
  pub hour_end : Option ℕ
  pub hour_start : Option ℕ
  pub minute_end : Option ℕ
  pub minute_start : Option ℕ
  pub month_end : ℕ
  pub month_start : ℕ
  pub raw_value : Str
  pub repeater_type : Option RepeaterType
  pub repeater_unit : Option TimeUnit
  pub repeater_value : Option ℕ
  pub type_s : TimestampType
  pub warning_type : Option WarningType
  pub warning_unit : Option TimeUnit
  pub warning_value : Option ℕ
  pub year_end : ℕ
  pub year_start : ℕ

pub record ClockData : Type 0 where
  pub duration : Str
  pub status : ClockStatus
  pub value : TimestampData

pub record PlanningData : Type 0 where
  pub closed : Option TimestampData
  pub deadline : Option TimestampData
  pub scheduled : Option TimestampData

pub record VerbatimData : Type 0 where
  pub value : Str
