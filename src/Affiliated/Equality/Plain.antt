-- ===== src/Affiliated/Equality/Plain.antt =====
-- The equality of the data that `collect_affiliated_keywords` returns (affiliated.rs).
use org_rs.Prelude.{
  ℕ, zero, suc, ◌≡◌, ◌↔◌, Option, none, some, Bool, true, List, [], ◌∷◌, ◌++◌, leb, length,
}
use org_rs.Affiliated.Collect.{
  value_begin, as_str, backend_of, trimmed, collect_one, matched_group, groups, collect_loop,
  collect_from_bol, collect_affiliated_keywords, orphaned, regex_affiliated,
}
use org_rs.Affiliated.Equality.{affiliated_data_eq, option_eq, str_eq, dual_val_eq, eq}
use org_rs.Affiliated.Equality.Decides.{
  Decides, Decides-iff, Decides-and, Decides-str, Decides-option, Decides-vec, Decides-dual, All,
  IfSome, IsRaw, eq-DecidesOn, Both,
}
use org_rs.Affiliated.Equality.Maps.{
  Distinct, SameMap, Decides-strs, Decides-hash_map, push_attr-Distinct,
}
use org_rs.Affiliated.Output.{
  AffiliatedData, StringOrObject, DualVal, Group, caption, results, header, plot, name, attr,
  default, store, raw_option,
}
use org_rs.Crates.Memchr.{Memchr}
use org_rs.Crates.Regex.{RegexEngine, Captures, Match}
use org_rs.Cursor.Lines.{is_bol, line_end_position, goto_next_line}
use org_rs.Cursor.Regexes.{looking_at, capturing_at, regex_empty_line}
use org_rs.Cursor.Runs.Returns.{
  Ensures, Ensures-bind, Ensures-after, Ensures-pure, Ensures-if, Ensures-option,
}
use org_rs.Cursor.State.{Cursor, set, get_pos, get_text, lift}
use org_rs.Rust.Outcome.{ok}
use org_rs.Rust.Str.{Str, str_between}
use org_rs.Rust.Trim.{trim}

-- Captions are strings, and each backend has one entry.
abbrev pub RawDual : DualVal StringOrObject → Type 0
RawDual d = IsRaw d.value × IfSome IsRaw d.secondary

pub record IsPlain (a : AffiliatedData) : Type 0 where
  pub captions : All RawDual a.caption
  pub backends : Distinct a.attr

-- The data agree in every field, the maps of attributes in every entry.
pub record SameData (a b : AffiliatedData) : Type 0 where
  pub caption : a.caption ≡ b.caption
  pub header : a.header ≡ b.header
  pub name : a.name ≡ b.name
  pub plot : a.plot ≡ b.plot
  pub results : a.results ≡ b.results
  pub attr : SameMap a.attr b.attr

abbrev trivially : (o : Option Str) → IfSome (λ _. Unit) o
trivially none = tt
trivially (some x) = tt

trivial_dual :
    (o : Option (DualVal Str)) → IfSome (Both (λ _. Unit) str_eq (λ a b h. Decides-str a b)) o
trivial_dual none = tt
trivial_dual (some d) = (tt, trivially d.secondary)

Decides-name : (x y : Option Str) → Decides (x ≡ y) (option_eq str_eq x y)
Decides-name x y = Decides-option (λ _. Unit) str_eq (λ u v h. Decides-str u v) x y (trivially x)

-- On data whose captions are strings and whose backends have one entry each, the comparison of
-- `AffiliatedData` returns, and answers whether they agree in every field, in `attr` up to the order
-- of the entries.
pub affiliated_data_eq_iff :
    (a b : AffiliatedData)
    → IsPlain a
    → IsPlain b
    → (t : Bool) × (affiliated_data_eq a b ≡ ok t) × ((t ≡ true) ↔ SameData a b)
unfolding affiliated_data_eq
affiliated_data_eq_iff a b pa pb =
    Decides-iff _
      (
        λ h. record {
          caption = h.0;
          header = h.1.0;
          name = h.1.1.0;
          plot = h.1.1.1.0;
          results = h.1.1.1.1.0;
          attr = h.1.1.1.1.1;
        },
        λ s. (s.caption, (s.header, (s.name, (s.plot, (s.results, s.attr))))),
      )
      (Decides-and _ _
        (Decides-vec RawDual (dual_val_eq eq) (Decides-dual IsRaw eq eq-DecidesOn) a.caption
          b.caption pa.captions)
        (Decides-and _ _ (Decides-strs a.header b.header) (
          Decides-and _ _ (Decides-name a.name b.name) (
            Decides-and _ _ (Decides-name a.plot b.plot) (
              Decides-and _ _
                (Decides-option _ (dual_val_eq str_eq)
                  (Decides-dual (λ _. Unit) str_eq (λ x y h. Decides-str x y)) a.results b.results
                  (trivial_dual a.results))
                (Decides-hash_map a.attr b.attr pa.backends pb.backends))))))

All-append :
    {T : Type 0} (R : T → Type 0) (xs : List T) (x : T) → All R xs → R x → All R (xs ++ x ∷ [])
All-append R [] x h r = (r, tt)
All-append R (y ∷ xs) x h r = (h.0, All-append R xs x h.1 r)

raw_option-IsRaw : (o : Option Str) → IfSome IsRaw (raw_option o)
raw_option-IsRaw none = tt
raw_option-IsRaw (some v) = tt

store-IsPlain :
    (g : Group) (value : Str) (secondary : Option Str) (backend : Str) (out : AffiliatedData)
    → IsPlain out
    → IsPlain (store g value secondary backend out)
unfolding store
store-IsPlain caption value secondary backend out h = record {
  captions = All-append RawDual out.caption _ h.captions (tt, raw_option-IsRaw secondary);
  backends = h.backends;
}
store-IsPlain results value secondary backend out h = record {
  captions = h.captions;
  backends = h.backends;
}
store-IsPlain name value secondary backend out h = record {
  captions = h.captions;
  backends = h.backends;
}
store-IsPlain plot value secondary backend out h = record {
  captions = h.captions;
  backends = h.backends;
}
store-IsPlain header value secondary backend out h = record {
  captions = h.captions;
  backends = h.backends;
}
store-IsPlain attr value secondary backend out h = record {
  captions = h.captions;
  backends = push_attr-Distinct backend value out.attr h.backends;
}

module _ (mc : Memchr) (engine : RegexEngine) where
  collect_one-IsPlain :
      (cap : Captures) (out : AffiliatedData)
      → IsPlain out
      → Ensures IsPlain (collect_one mc engine cap out)
  unfolding collect_one
  collect_one-IsPlain cap out h = Ensures-bind IsPlain (lift (matched_group cap groups)) _ (λ found.
      Ensures-bind IsPlain get_pos _ (λ pos.
        Ensures-bind IsPlain (line_end_position mc none) _ (λ last.
          Ensures-bind IsPlain get_text _ (λ text.
            Ensures-bind IsPlain
              (lift (str_between text (value_begin pos found.1 (cap.name "SECONDARY")) last)) _
              (λ value. Ensures-bind IsPlain (as_str pos (cap.name "SECONDARY")) _ (λ secondary.
                Ensures-bind IsPlain (backend_of found.0 pos cap) _ (λ backend.
                  Ensures-bind IsPlain (goto_next_line mc) _ (λ next.
                    Ensures-pure IsPlain _
                      (store-IsPlain found.0 (trim value) (trimmed secondary) backend out h)))))))))

  collect_loop-IsPlain :
      (fuel limit : ℕ) (out : AffiliatedData)
      → IsPlain out
      → Ensures IsPlain (collect_loop mc engine fuel limit out)
  unfolding collect_loop
  collect_loop-IsPlain zero limit out h = record { returns = λ c c' a e. cc }
  collect_loop-IsPlain (suc fuel) limit out h =
      Ensures-bind IsPlain (capturing_at mc engine regex_affiliated) _ (λ found.
        Ensures-bind IsPlain get_pos _ (λ current_pos.
          Ensures-option IsPlain found _ _ (Ensures-pure IsPlain out h) (λ cap.
            Ensures-if IsPlain (leb limit current_pos) _ _ (Ensures-pure IsPlain out h) (
              Ensures-after IsPlain IsPlain (collect_one mc engine cap out) _
                (collect_one-IsPlain cap out h)
                (λ out' h'. collect_loop-IsPlain fuel limit out' h')))))

  abbrev Kept : ℕ × Option AffiliatedData → Type 0
  Kept r = IfSome IsPlain r.1

  orphaned-Kept :
      (origin : ℕ) (out : AffiliatedData) (empty : Option Match)
      → IsPlain out
      → Ensures Kept (orphaned mc engine origin out empty)
  orphaned-Kept origin out none h = Ensures-pure Kept (origin, some out) h
  orphaned-Kept origin out (some m) h =
      Ensures-bind Kept (set origin) _ (λ _. Ensures-pure Kept (origin, none) tt)

  collect_from_bol-Kept : (limit : ℕ) → Ensures Kept (collect_from_bol mc engine limit)
  unfolding collect_from_bol
  collect_from_bol-Kept limit = Ensures-bind Kept get_pos _ (λ origin.
      Ensures-bind Kept get_text _ (λ text.
        Ensures-after IsPlain Kept _ _
          (collect_loop-IsPlain (suc (length text)) limit default
            (record { captions = tt; backends = tt }))
          (λ out h.
            Ensures-bind Kept (looking_at mc engine regex_empty_line) _
              (λ empty. orphaned-Kept origin out empty h))))

  -- In the data that `collect_affiliated_keywords` returns, captions are strings, not objects, with
  -- their secondary values, and each backend has one entry in `attr`.
  pub collect_affiliated_keywords-IsPlain :
      (limit origin : ℕ) (c c' : Cursor) (out : AffiliatedData)
      → collect_affiliated_keywords mc engine limit c ≡ ok ((origin, some out), c')
      → IsPlain out
  unfolding collect_affiliated_keywords
  collect_affiliated_keywords-IsPlain limit origin c c' out =
      (Ensures-bind Kept (is_bol mc) _ (λ bol.
          Ensures-if Kept bol _ _ (collect_from_bol-Kept limit)
            (Ensures-bind Kept get_pos _ (λ pos. Ensures-pure Kept (pos, none) tt)))).returns
        c c' (origin, some out)
