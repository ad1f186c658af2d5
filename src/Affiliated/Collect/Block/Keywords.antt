-- ===== src/Affiliated/Collect/Block/Keywords.antt =====
-- A block of affiliated keywords as a list, and the data that the list stands for.
use org_rs.Prelude.{
  ℕ, ◌<◌, ◌≡◌, refl, sym, ◌∙◌, if◌then◌else◌, Bool-cases, inl, inr, Option, none, some, List, [],
  ◌∷◌, ◌++◌, append-nil, append_assoc,
}
use org_rs.Affiliated.Collect.{collect_affiliated_keywords, trimmed}
use org_rs.Affiliated.Collect.Block.{KeywordLine, value_of, Stops, Block, stop, more}
use org_rs.Affiliated.Collect.Block.Gathered.{gathered, collect_affiliated_keywords-Block}
use org_rs.Affiliated.Output.{
  AffiliatedData, DualVal, StringOrObject, raw, raw_option, Group, caption, results, header, plot,
  name, attr, default, store, equal, push_attr,
}
use org_rs.Affiliated.Output.Attr.{values, values-push_attr}
use org_rs.Crates.Memchr.{Memchr}
use org_rs.Crates.Regex.{RegexEngine}
use org_rs.Cursor.Lines.Spec.{NextAnswer, Starts}
use org_rs.Cursor.Regexes.{regex_empty_line}
use org_rs.Cursor.Regexes.Line.{rest_of_line}
use org_rs.Cursor.State.{new}
use org_rs.Rust.Outcome.{ok}
use org_rs.Rust.Str.{Str}

-- A keyword with its value, its secondary value and its backend.
pub data Keyword : Type 0 where
  keyword : Group → Str → Option Str → Str → Keyword

abbrev pub dual : Str → Option Str → DualVal Str
dual v w = record { value = v; secondary = w }

abbrev pub raw_dual : Str → Option Str → DualVal StringOrObject
raw_dual v w = record { value = raw v; secondary = raw_option w }

-- The values of the keywords of each group, in their order.
abbrev pub captions : List Keyword → List (DualVal StringOrObject)
captions [] = []
captions (keyword caption v w b ∷ ks) = raw_dual v w ∷ captions ks
captions (keyword _ v w b ∷ ks) = captions ks

abbrev pub headers : List Keyword → List Str
headers [] = []
headers (keyword header v w b ∷ ks) = v ∷ headers ks
headers (keyword _ v w b ∷ ks) = headers ks

abbrev pub names : List Keyword → List Str
names [] = []
names (keyword name v w b ∷ ks) = v ∷ names ks
names (keyword _ v w b ∷ ks) = names ks

abbrev pub plots : List Keyword → List Str
plots [] = []
plots (keyword plot v w b ∷ ks) = v ∷ plots ks
plots (keyword _ v w b ∷ ks) = plots ks

abbrev pub all_results : List Keyword → List (DualVal Str)
all_results [] = []
all_results (keyword results v w b ∷ ks) = dual v w ∷ all_results ks
all_results (keyword _ v w b ∷ ks) = all_results ks

-- The values for one backend.
abbrev pub attributes : Str → List Keyword → List Str
attributes k [] = []
attributes k (keyword attr v w b ∷ ks) = if equal b k then v ∷ attributes k ks else attributes k ks
attributes k (keyword _ v w b ∷ ks) = attributes k ks

abbrev pub last_or {ℓ} : {A : Type ℓ} → Option A → List A → Option A
last_or d [] = d
last_or d (x ∷ xs) = last_or (some x) xs

-- The data has every caption, header and attribute in order, and the last name, plot and results.
pub record DataOf (ks : List Keyword) (out : AffiliatedData) : Type 0 where
  pub captions_all : out.caption ≡ captions ks
  pub headers_all : out.header ≡ headers ks
  pub name_last : out.name ≡ last_or none (names ks)
  pub plot_last : out.plot ≡ last_or none (plots ks)
  pub results_last : out.results ≡ last_or none (all_results ks)
  pub attributes_all : (k : Str) → values k out.attr ≡ attributes k ks

module _ (engine : RegexEngine) (s : Str) (limit : ℕ) where
  abbrev pub keyword_of : (p q : ℕ) → KeywordLine engine s p q → Keyword
  keyword_of p q k = keyword k.group (value_of engine s limit p q k) (trimmed k.secondary) k.backend

  -- Keywords on the lines from one position to another, before the limit; none follows.
  pub data Keywords : ℕ → List Keyword → ℕ → Type 0 where
    no_more : (p : ℕ) (r : Option ℕ) → Stops engine s limit p r → Keywords p [] p
    on_line :
        (p q e : ℕ) (ks : List Keyword) (k : KeywordLine engine s p q)
        → p < limit
        → Keywords q ks e
        → Keywords p (keyword_of p q k ∷ ks) e

-- What the code stores for one keyword after the other.
abbrev stored : List Keyword → AffiliatedData → AffiliatedData
stored [] out = out
stored (keyword g v w b ∷ ks) out = stored ks (store g v w b out)

caption-stored :
    (ks : List Keyword) (out : AffiliatedData)
    → (stored ks out).caption ≡ out.caption ++ captions ks
unfolding store
caption-stored [] out = sym (append-nil out.caption)
caption-stored (keyword caption v w b ∷ ks) out =
    caption-stored ks (store caption v w b out)
    ∙ append_assoc out.caption (raw_dual v w ∷ []) (captions ks)
caption-stored (keyword results v w b ∷ ks) out = caption-stored ks (store results v w b out)
caption-stored (keyword header v w b ∷ ks) out = caption-stored ks (store header v w b out)
caption-stored (keyword plot v w b ∷ ks) out = caption-stored ks (store plot v w b out)
caption-stored (keyword name v w b ∷ ks) out = caption-stored ks (store name v w b out)
caption-stored (keyword attr v w b ∷ ks) out = caption-stored ks (store attr v w b out)

header-stored :
    (ks : List Keyword) (out : AffiliatedData) → (stored ks out).header ≡ out.header ++ headers ks
unfolding store
header-stored [] out = sym (append-nil out.header)
header-stored (keyword caption v w b ∷ ks) out = header-stored ks (store caption v w b out)
header-stored (keyword results v w b ∷ ks) out = header-stored ks (store results v w b out)
header-stored (keyword header v w b ∷ ks) out =
    header-stored ks (store header v w b out) ∙ append_assoc out.header (v ∷ []) (headers ks)
header-stored (keyword plot v w b ∷ ks) out = header-stored ks (store plot v w b out)
header-stored (keyword name v w b ∷ ks) out = header-stored ks (store name v w b out)
header-stored (keyword attr v w b ∷ ks) out = header-stored ks (store attr v w b out)

name-stored :
    (ks : List Keyword) (out : AffiliatedData) → (stored ks out).name ≡ last_or out.name (names ks)
unfolding store
name-stored [] out = refl
name-stored (keyword caption v w b ∷ ks) out = name-stored ks (store caption v w b out)
name-stored (keyword results v w b ∷ ks) out = name-stored ks (store results v w b out)
name-stored (keyword header v w b ∷ ks) out = name-stored ks (store header v w b out)
name-stored (keyword plot v w b ∷ ks) out = name-stored ks (store plot v w b out)
name-stored (keyword name v w b ∷ ks) out = name-stored ks (store name v w b out)
name-stored (keyword attr v w b ∷ ks) out = name-stored ks (store attr v w b out)

plot-stored :
    (ks : List Keyword) (out : AffiliatedData) → (stored ks out).plot ≡ last_or out.plot (plots ks)
unfolding store
plot-stored [] out = refl
plot-stored (keyword caption v w b ∷ ks) out = plot-stored ks (store caption v w b out)
plot-stored (keyword results v w b ∷ ks) out = plot-stored ks (store results v w b out)
plot-stored (keyword header v w b ∷ ks) out = plot-stored ks (store header v w b out)
plot-stored (keyword plot v w b ∷ ks) out = plot-stored ks (store plot v w b out)
plot-stored (keyword name v w b ∷ ks) out = plot-stored ks (store name v w b out)
plot-stored (keyword attr v w b ∷ ks) out = plot-stored ks (store attr v w b out)

results-stored :
    (ks : List Keyword) (out : AffiliatedData)
    → (stored ks out).results ≡ last_or out.results (all_results ks)
unfolding store
results-stored [] out = refl
results-stored (keyword caption v w b ∷ ks) out = results-stored ks (store caption v w b out)
results-stored (keyword results v w b ∷ ks) out = results-stored ks (store results v w b out)
results-stored (keyword header v w b ∷ ks) out = results-stored ks (store header v w b out)
results-stored (keyword plot v w b ∷ ks) out = results-stored ks (store plot v w b out)
results-stored (keyword name v w b ∷ ks) out = results-stored ks (store name v w b out)
results-stored (keyword attr v w b ∷ ks) out = results-stored ks (store attr v w b out)

pushed :
    (k b v : Str) (m : List (Str × List Str)) (vs : List Str)
    → values k (push_attr b v m) ++ vs ≡ values k m ++ (if equal b k then v ∷ vs else vs)
pushed k b v m vs = rw (values-push_attr b k v m) (elim (Bool-cases (equal b k)) [
  | inl e ↦ rw e (append_assoc (values k m) (v ∷ []) vs)
  | inr e ↦ rw e refl
])

attr-stored :
    (k : Str) (ks : List Keyword) (out : AffiliatedData)
    → values k (stored ks out).attr ≡ values k out.attr ++ attributes k ks
unfolding store
attr-stored k [] out = sym (append-nil (values k out.attr))
attr-stored k (keyword caption v w b ∷ ks) out = attr-stored k ks (store caption v w b out)
attr-stored k (keyword results v w b ∷ ks) out = attr-stored k ks (store results v w b out)
attr-stored k (keyword header v w b ∷ ks) out = attr-stored k ks (store header v w b out)
attr-stored k (keyword plot v w b ∷ ks) out = attr-stored k ks (store plot v w b out)
attr-stored k (keyword name v w b ∷ ks) out = attr-stored k ks (store name v w b out)
attr-stored k (keyword attr v w b ∷ ks) out =
    attr-stored k ks (store attr v w b out) ∙ pushed k b v out.attr (attributes k ks)

stored-DataOf : (ks : List Keyword) → DataOf ks (stored ks default)
stored-DataOf ks = record {
  captions_all = caption-stored ks default;
  headers_all = header-stored ks default;
  name_last = name-stored ks default;
  plot_last = plot-stored ks default;
  results_last = results-stored ks default;
  attributes_all = λ k. attr-stored k ks default;
}

module _ (mc : Memchr) (engine : RegexEngine) (s : Str) (limit : ℕ) where
  Keywords-Block :
      (p e : ℕ) (ks : List Keyword) (out : AffiliatedData)
      → Keywords engine s limit p ks e
      → Block engine s limit p out e (stored ks out)
  Keywords-Block p e ks out (no_more _ r h) = stop p r out h
  Keywords-Block p e ks out (on_line _ q _ ks' k before rest) =
      more p q e out _ k before (Keywords-Block q e ks' _ rest)

  -- On a block of keyword lines that begins at the line start `p`, `collect_affiliated_keywords` does
  -- not panic, and leaves the cursor behind the block, where the limit is reached or a line without a
  -- keyword begins. It returns `p` and data with all captions and headers in their order, for each
  -- backend all its attributes in their order, and of names, plots and results the last one. If the
  -- expression of an empty line matches behind the block, it returns no data, and the cursor is at `p`
  -- again.
  pub collect_affiliated_keywords-DataOf :
      (p e : ℕ) (ks : List Keyword) (r : Option ℕ)
      → Starts s p
      → Keywords engine s limit p ks e
      → NextAnswer s e r
      → (out : AffiliatedData) × DataOf ks out
        × (collect_affiliated_keywords mc engine limit (new s p)
            ≡ ok (gathered mc engine s p e out (engine.find regex_empty_line (rest_of_line s e r))))
  collect_affiliated_keywords-DataOf p e ks r starts keywords answer = (
    stored ks default,
    stored-DataOf ks,
    collect_affiliated_keywords-Block mc engine s limit p e (stored ks default) r starts
        (Keywords-Block p e ks default keywords) answer,
  )
