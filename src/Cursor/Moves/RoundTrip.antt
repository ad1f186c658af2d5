-- ===== src/Cursor/Moves/RoundTrip.antt =====
-- `get_next_char` called again and again.
use org_rs.Prelude.{
  ℕ, zero, suc, sym, ◌≡◌, ap, none, some, Option, List, [], ◌∷◌, ◌++◌, append_assoc, append-nil,
  length,
}
use org_rs.Cursor.Moves.{get_next_char}
use org_rs.Cursor.Moves.Zipper.{between, get_next_char-some, get_next_char-none}
use org_rs.Cursor.State.{M, pure, ◌>>=◌}
use org_rs.Rust.Outcome.{ok}
use org_rs.Rust.Utf8.{Char}
use org_rs.Rust.Utf8.Encoding.{AllChars}

-- At most `n` characters, up to the end of the text.
abbrev read_more : Option Char → M (List Char) → M (List Char)
read_more none more = pure []
read_more (some c) more = do cs ← more; pure (c ∷ cs)

unfoldable pub read_chars : ℕ → M (List Char)
read_chars zero = pure []
read_chars (suc n) = do c ← get_next_char; read_more c (read_chars n)

-- The characters of a text, encoded in UTF-8, come back one by one from `get_next_char`: reading from
-- any place between two characters gives those behind it, and the cursor is at the end.
pub read_chars-encode_all :
    (before cs : List Char)
    → AllChars cs
    → read_chars (suc (length cs)) (between before cs) ≡ ok (cs, between (before ++ cs) [])
unfolding read_chars
read_chars-encode_all before [] valid =
    rw (get_next_char-none before)
      (ap (λ (b : List Char). ok ([], between b [])) (sym (append-nil before)))
read_chars-encode_all before (c ∷ cs) valid =
    rw (get_next_char-some before c cs valid.0, read_chars-encode_all (before ++ c ∷ []) cs valid.1)
      (ap (λ (b : List Char). ok (c ∷ cs, between b [])) (append_assoc before (c ∷ []) cs))
