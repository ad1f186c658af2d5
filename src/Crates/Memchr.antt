-- ===== src/Crates/Memchr.antt =====
-- The crate `memchr`: the first and the last place of a byte in a slice.
use org_rs.Prelude.{ℕ, ◌≡◌, ◌≢◌, ◌<◌, Option, none, some, get_elem?}
use org_rs.Rust.Str.{Str}

pub record Memchr : Type 0 where
  pub memchr : ℕ → Str → Option ℕ
  pub memrchr : ℕ → Str → Option ℕ
  pub memchr_some : (b : ℕ) (s : Str) (i : ℕ) → memchr b s ≡ some i → get_elem? s i ≡ some b
  pub memchr_first :
      (b : ℕ) (s : Str) (i j : ℕ) → memchr b s ≡ some i → j < i → get_elem? s j ≢ some b
  pub memchr_none : (b : ℕ) (s : Str) (j : ℕ) → memchr b s ≡ none → get_elem? s j ≢ some b
  pub memrchr_some : (b : ℕ) (s : Str) (i : ℕ) → memrchr b s ≡ some i → get_elem? s i ≡ some b
  pub memrchr_last :
      (b : ℕ) (s : Str) (i j : ℕ) → memrchr b s ≡ some i → i < j → get_elem? s j ≢ some b
  pub memrchr_none : (b : ℕ) (s : Str) (j : ℕ) → memrchr b s ≡ none → get_elem? s j ≢ some b
