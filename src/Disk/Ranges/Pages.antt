-- ===== src/Disk/Ranges/Pages.antt =====
-- `_parse_page_list` and `list_page_ranges` of helper/helper_app/disk/vhd_range_copy.py. What the blob service
-- answers to each request, with its marker, is an argument; an answer is the parsed document.
use mathlib.Core.Path.{subst}
use vmware_migration_helper.Base.{
  ℕ, zero, suc, ◌+◌, ◌-◌, ◌<◌, ◌≡◌, ◌∙◌, ap, sym, refl, Bool, true, false, ◌&&◌, ◌||◌, Option, none,
  some, List, [], ◌∷◌, ◌++◌, ltb, leb, arith, any, if◌then◌else◌, Bool-cases, inl, inr, length,
  is_nil,
}
use vmware_migration_helper.Base.Bytes.{Bytes, strip}
use vmware_migration_helper.Disk.Ranges.{Range, covers, within_pair, merge_ranges}
use vmware_migration_helper.Disk.Ranges.Merge.{covers-merge_ranges}

-- The pairs of the first and the last byte that a page lists.
abbrev pub Page : Type 0
Page = List Range

-- A page list: its pairs, and the text of `NextMarker` if it has one.
pub record Document : Type 0 where
  pub pairs : Page
  pub next_marker : Option Bytes

-- A request fails: by an error of HTTP, a status other than 200, or XML that is none.
pub data Reply : Type 0 where
  failed : Reply
  document : Document → Reply

unfoldable pub parse_page : Page → List Range
parse_page [] = []
parse_page ((start, end) ∷ pairs) =
    let rest = parse_page pairs in if leb start end then (start, end - start + 1) ∷ rest else rest

-- `marker.strip() if marker and marker.strip() else None`
unfoldable pub next_of : Option Bytes → Option Bytes
next_of none = none
next_of (some marker) = let text = strip marker in if is_nil text then none else some text

unfoldable pub parse_page_list : Document → List Range × Option Bytes
parse_page_list d = (parse_page d.pairs, next_of d.next_marker)

-- How the listing ends; `unfinished` is the end of the fuel.
pub data Listing : Type 0 where
  listed : List Range → Listing
  raised unfinished : Listing

-- The answer to the n-th request, which has a marker or none.
abbrev pub Service : Type 0
Service = ℕ → Option Bytes → Reply

-- The loop `while True`, with the number of the request, the marker, and the ranges so far. The fuel is a bound
-- on the requests.
unfoldable pub gather : Service → ℕ → ℕ → Option Bytes → List Range → Listing
gather get zero n marker ranges = unfinished
gather get (suc fuel) n marker ranges = elim (get n marker) [
  | failed ↦ raised
  | document d ↦
      let (page, next) = parse_page_list d in
      elim next [
        | none ↦ listed (ranges ++ page)
        | some m ↦ gather get fuel (suc n) (some m) (ranges ++ page)
      ]
]

abbrev pub merged : ℕ → Listing → Listing
merged disk_bytes (listed ranges) = listed (merge_ranges ranges disk_bytes)
merged disk_bytes raised = raised
merged disk_bytes unfinished = unfinished

unfoldable pub list_page_ranges : Service → ℕ → ℕ → Listing
list_page_ranges get fuel disk_bytes = merged disk_bytes (gather get fuel 0 none [])

-- What the service has to say from a request on: each document names the marker of the next request, up to one
-- that names none, or to a request that fails.
pub data Serves (get : Service) : ℕ → Option Bytes → List Document → Bool → Type 0 where
  fails : {n : ℕ} {m : Option Bytes} → get n m ≡ failed → Serves get n m [] true
  last :
      {n : ℕ} {m : Option Bytes} {d : Document}
      → get n m ≡ document d
      → next_of d.next_marker ≡ none
      → Serves get n m (d ∷ []) false
  more :
      {n : ℕ} {m : Option Bytes} {d : Document} {k : Bytes} {docs : List Document} {broken : Bool}
      → get n m ≡ document d
      → next_of d.next_marker ≡ some k
      → Serves get (suc n) (some k) docs broken
      → Serves get n m (d ∷ docs) broken

-- A byte that one of the documents lists.
abbrev pub is_listed : ℕ → List Document → Bool
is_listed x [] = false
is_listed x (d ∷ docs) = any (within_pair x) d.pairs || is_listed x docs

-- The result is an error where there was one, and else covers exactly these bytes.
abbrev pub Lists : Bool → (ℕ → Bool) → Listing → Type 0
Lists broken wanted raised = broken ≡ true
Lists broken wanted (listed ranges) = (broken ≡ false) × ((x : ℕ) → covers x ranges ≡ wanted x)
Lists broken wanted unfinished = ⊥

covers-parse_page : (x : ℕ) (page : Page) → covers x (parse_page page) ≡ any (within_pair x) page
unfolding parse_page
covers-parse_page x [] = refl
covers-parse_page x ((start, end) ∷ pairs) = elim (Bool-cases (leb start end)) [
  | inl e ↦ rw e (ground (arith, e, covers-parse_page x pairs))
  | inr e ↦ rw e (ground (arith, e, covers-parse_page x pairs))
]

covers-join : (x : ℕ) (xs ys : List Range) → covers x (xs ++ ys) ≡ (covers x xs || covers x ys)
covers-join x [] ys = refl
covers-join x (r ∷ xs) ys = ground (arith, covers-join x xs ys)

-- A byte of the ranges so far, or one that is still to come.
abbrev covers_any : List Range → List Document → ℕ → Bool
covers_any ranges docs x = covers x ranges || is_listed x docs

module _ (get : Service) (fuel n : ℕ) (m : Option Bytes) (ranges : List Range) where
  gather_fails : get n m ≡ failed → gather get (suc fuel) n m ranges ≡ raised
  unfolding gather
  gather_fails e = rw (gather, e) refl

  gather_last :
      (d : Document)
      → get n m ≡ document d
      → next_of d.next_marker ≡ none
      → gather get (suc fuel) n m ranges ≡ listed (ranges ++ parse_page d.pairs)
  unfolding gather parse_page_list
  gather_last d e stop = rw (gather, e) (rw stop refl)

  gather_more :
      (d : Document) (k : Bytes)
      → get n m ≡ document d
      → next_of d.next_marker ≡ some k
      → gather get (suc fuel) n m ranges
        ≡ gather get fuel (suc n) (some k) (ranges ++ parse_page d.pairs)
  unfolding gather parse_page_list
  gather_more d k e next = rw (gather, e) (rw next refl)

gather_lem :
    (get : Service) (fuel n : ℕ) (m : Option Bytes) (ranges : List Range) (docs : List Document)
    (broken : Bool)
    → Serves get n m docs broken
    → length docs < fuel
    → Lists broken (λ x. covers x ranges || is_listed x docs) (gather get fuel n m ranges)
gather_lem get zero n m ranges docs broken s h = absurd (omega arith)
gather_lem get (suc fuel) n m ranges _ _ (fails e) h =
    subst (Lists true (covers_any ranges [])) (sym (gather_fails get fuel n m ranges e)) refl
gather_lem get (suc fuel) n m ranges _ _ (last {d} e stop) h =
    subst (Lists false (covers_any ranges (d ∷ [])))
      (sym (gather_last get fuel n m ranges d e stop))
      (
        refl,
        λ x.
            covers-join x ranges (parse_page d.pairs) ∙ ground (arith, covers-parse_page x d.pairs),
      )
gather_lem get (suc fuel) n m ranges _ broken (more {d} {k} {docs} e next s) h =
    subst (Lists broken (covers_any ranges (d ∷ docs)))
      (sym (gather_more get fuel n m ranges d k e next))
      (widen (gather get fuel (suc n) (some k) (ranges ++ parse_page d.pairs)) (
        gather_lem get fuel (suc n) (some k) (ranges ++ parse_page d.pairs) docs broken s
          (omega arith)))
  where
    widen :
        (l : Listing)
        → Lists broken (λ x. covers x (ranges ++ parse_page d.pairs) || is_listed x docs) l
        → Lists broken (λ x. covers x ranges || (any (within_pair x) d.pairs || is_listed x docs)) l
    widen raised h = h
    widen unfinished h = h
    widen (listed found) h = (
      h.0,
      λ x.
          h.1 x
          ∙ ground (arith, covers-join x ranges (parse_page d.pairs), covers-parse_page x d.pairs),
    )

-- When the documents of the service, each asked for with the marker of the one before it, come to an end, by a
-- document without a marker or by a request that fails, then `list_page_ranges` asks for all of them and ends:
-- it raises exactly if a request failed, and its ranges cover exactly the bytes below the size of the disk that a
-- document lists. The fuel is more than the number of documents.
pub list_page_ranges-Lists :
    (get : Service) (fuel disk_bytes : ℕ) (docs : List Document) (broken : Bool)
    → Serves get 0 none docs broken
    → length docs < fuel
    → Lists broken
        (λ x. is_listed x docs && ltb x disk_bytes)
        (list_page_ranges get fuel disk_bytes)
unfolding list_page_ranges
list_page_ranges-Lists get fuel disk_bytes docs broken s h =
    by_gathered (gather get fuel 0 none []) (gather_lem get fuel 0 none [] docs broken s h)
  where
    by_gathered :
        (l : Listing)
        → Lists broken (λ x. is_listed x docs) l
        → Lists broken (λ x. is_listed x docs && ltb x disk_bytes) (merged disk_bytes l)
    by_gathered raised h = h
    by_gathered unfinished h = h
    by_gathered (listed ranges) h = (
      h.0,
      λ x. covers-merge_ranges x ranges disk_bytes ∙ ap (λ b. b && ltb x disk_bytes) (h.1 x),
    )
