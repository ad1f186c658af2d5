-- ===== src/Tests/ChoiceExamples.antt =====
-- The table of the choice of a parser, applied to "#+NAME: x" and a newline.
use org_rs.Affiliated.Collect.Block.{Block}
use org_rs.Cursor.State.{◌>>=◌, ◌>>◌}
