-- ===== src/Data/Elements.antt =====
-- The data of blocks.rs, latex.rs, table.rs, markup.rs, keyword.rs, babel.rs and drawer.rs.
use org_rs.Prelude.{ℕ, Bool, Option}
use org_rs.Rust.Str.{Str}
use org_rs.Data.Objects.{LineNumberingMode}

pub record DynamicBlockData : Type 0 where
  pub arguments : Str
  pub block_name : Str
  pub drawer_name : Str

pub record CommentBlockData : Type 0 where
  pub value : Str

pub record ExampleBlockData : Type 0 where
  pub label_fmt : Option Str
  pub language : Option Str
  pub number_lines : Option LineNumberingMode
  pub options : Str
  pub parameters : Option Str
  pub preserve_indent : Bool
  pub retain_labels : Bool
  pub switches : Option Str
  pub use_labels : Bool
  pub value : Str

pub record ExportBlockData : Type 0 where
  pub type_s : Str
  pub value : Str

pub record SpecialBlockData : Type 0 where
  pub type_s : Str
  pub raw_value : Str

pub record SrcBlockData : Type 0 where
  pub label_fmt : Option Str
  pub language : Option Str
  pub number_lines : Option LineNumberingMode
  pub parameters : Option Str
  pub preserve_indent : Bool
  pub retain_labels : Bool
  pub switches : Option Str
  pub use_labels : Bool
  pub value : Str

pub record LatexEnvironmentData : Type 0 where
  pub begin : ℕ
  pub end : ℕ
  pub post_blank : ℕ
  pub value : Str

pub record LatexFragmentData : Type 0 where
  pub value : Str

pub record TableData : Type 0 where
  pub tblfm : Option Str

pub data TableRowType : Type 0 where
  standard rule : TableRowType

pub record TableRowData : Type 0 where
  pub table_row_type : TableRowType

pub record CommentData : Type 0 where
  pub value : Str

pub record FixedWidthData : Type 0 where
  pub value : Str

pub record FootnoteDefinitionData : Type 0 where
  pub label : Str
  pub pre_blank : ℕ

pub record KeywordData : Type 0 where
  pub key : Str
  pub value : Str

pub record BabelCallData : Type 0 where
  pub call : Str
  pub inside_header : Option Str
  pub arguments : Option Str
  pub end_header : Option Str
  pub value : Str

pub record DrawerData : Type 0 where
  pub drawer_name : Str
