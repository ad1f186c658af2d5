-- ===== src/Parser/Expressions.antt =====
-- The regular expressions of headline.rs, blocks.rs, latex.rs, table.rs, markup.rs, keyword.rs,
-- babel.rs, drawer.rs, planning.rs and list.rs that parser.rs tests.
use org_rs.Crates.Regex.{Regex}
use org_rs.Rust.Str.{codes}

abbrev pub regex_planning_line : Regex
regex_planning_line = codes "^[ \\t]*((?:CLOSED|DEADLINE|SCHEDULED):)"

abbrev pub regex_property_drawer : Regex
regex_property_drawer =
    codes "^[ \\t]*:PROPERTIES:[ \\t]*\\n(?:[ \\t]*:\\S+:(?: .*)?[ \\t]*\\n)*?[ \\t]*:END:[ \\t]*"

abbrev pub regex_clock_line : Regex
regex_clock_line = codes "^[ \\t]*CLOCK:"

abbrev pub regex_latex_begin_environment : Regex
regex_latex_begin_environment = codes "^[ \\t]*\\\\begin{([A-Za-z0-9*]+)}"

abbrev pub regex_drawer : Regex
regex_drawer = codes "^[ \\t]*:((?:\\w|[-_])+):[ \\t]*$"

abbrev pub regex_fixed_width : Regex
regex_fixed_width = codes "[ \\t]*:( |$)"

abbrev pub regex_starts_with_hashtag : Regex
regex_starts_with_hashtag = codes "[ \\t]*#"

abbrev pub regex_colon_or_eol : Regex
regex_colon_or_eol = codes "(?: |$)"

abbrev pub regex_block_begin : Regex
regex_block_begin = codes "\\+BEGIN_(\\S+)"

abbrev pub regex_dynamic_block : Regex
regex_dynamic_block = codes "\\+BEGIN:? "

abbrev pub regex_babel_call : Regex
regex_babel_call = codes "\\+CALL:"

abbrev pub regex_keyword : Regex
regex_keyword = codes "\\+\\S+:"

abbrev pub regex_footnote_definition : Regex
regex_footnote_definition = codes "^\\[fn:([-_[:word:]]+)\\]"

abbrev pub regex_horizontal_rule : Regex
regex_horizontal_rule = codes "[ \\t]*-{5,}[ \\t]*$"

abbrev pub regex_diary_sexp : Regex
regex_diary_sexp = codes "%%\\("

abbrev pub regex_table_border : Regex
regex_table_border = codes "[ \\t]*\\|"

abbrev pub regex_item : Regex
regex_item = codes "([ \\t]*([-+]|(([0-9]+)[.)]))|[ \\t]+\\*)([ \\t]|$)"
