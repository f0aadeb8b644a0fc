-- ===== src/Coverage/Laws.antt =====
-- What a coverage report holds.
use financial_pdf_reader.Base.{suc, ◌+◌, ◌≤◌}
use financial_pdf_reader.Base.{String, ◌≡◌, refl, sym, ap, ◌∙◌, inl, inr}
use financial_pdf_reader.Base.{Bool, true, false, Option, none, some}
use financial_pdf_reader.Base.{List, [], ◌∷◌, map, arith, if◌then◌else◌}
use financial_pdf_reader.Base.{Option-cases, is_some, or_default, length}
use financial_pdf_reader.Base.{is_empty, all}
use financial_pdf_reader.Base.{All, ◌==◌, eq_iff, nat_eq, string_eq, text_eq}
use financial_pdf_reader.Models.{}
use financial_pdf_reader.Base.{count_if-cons}
use financial_pdf_reader.Text.{Text}
use financial_pdf_reader.Text.Blocks.{json_block}
use financial_pdf_reader.Base.Dict
use financial_pdf_reader.Base.Dict.{Dict}
use mathlib.Core.Path.{ap₂}
use financial_pdf_reader.Base.{◌⊎◌, ◌&&◌, contains, Bool-cases}
use financial_pdf_reader.Base.Result.{raised, ok, found_or, ◌>>=◌, >>=-eq-ok}
use financial_pdf_reader.Documents.{PdfDocument, PdfChunk, is_completed}
use financial_pdf_reader.Coverage.{
  disclosure_registry, RawItem, CoverageItem, CoverageReport, CoverageError, items_by_key, raw_of,
  coverage_item, count_status, coverage_report, first_chunks, check_disclosure_coverage, key_error,
  CoveragePrompt, coverage_prompt, read_items, status_choices, save_coverage, invalid_status,
}

map-coverage_item :
    (d : Dict String RawItem) (r : Dict String String)
    → map (λ i. i.key) (map (coverage_item d) r) ≡ Dict.keys r
unfolding coverage_item
map-coverage_item d [] = refl
map-coverage_item d ((k, l) ∷ r) = ap (λ ks. k ∷ ks) (map-coverage_item d r)

other_status : (s a b : String) → (a == b) ≡ false → (s == a) ≡ true → (s == b) ≡ false
other_status s a b h e = ground (arith, eq_iff s a, eq_iff s b, eq_iff a b)

-- At most one of four tests holds, if each excludes those after it.
one_of_four :
    (a b c d : Bool)
    → (a ≡ true → b ≡ false)
    → (a ≡ true → c ≡ false)
    → (a ≡ true → d ≡ false)
    → (b ≡ true → c ≡ false)
    → (b ≡ true → d ≡ false)
    → (c ≡ true → d ≡ false)
    → (if a then 1 else 0) + (if b then 1 else 0) + (if c then 1 else 0) + (if d then 1 else 0) ≤ 1
one_of_four a b c d ab ac ad bc bd cd = ground arith

status_once :
    (s : String)
    → (if s == "found" then 1 else 0)
        + (if s == "found_incomplete" then 1 else 0)
        + (if s == "not_found" then 1 else 0)
        + (if s == "not_applicable" then 1 else 0)
      ≤ 1
status_once s =
    one_of_four (s == "found") (s == "found_incomplete") (s == "not_found") (s == "not_applicable")
      (other_status s "found" "found_incomplete" refl) (other_status s "found" "not_found" refl)
      (other_status s "found" "not_applicable" refl)
      (other_status s "found_incomplete" "not_found" refl)
      (other_status s "found_incomplete" "not_applicable" refl)
      (other_status s "not_found" "not_applicable" refl)

-- The four counts never add up to more than the number of items.
counts-le :
    (items : List CoverageItem)
    → count_status "found" items
        + count_status "found_incomplete" items
        + count_status "not_found" items
        + count_status "not_applicable" items
      ≤ length items
counts-le [] = omega arith
counts-le (i ∷ items) = omega (
  arith,
  counts-le items,
  status_once i.status,
  count_if-cons (λ x. x.status == "found") i items,
  count_if-cons (λ x. x.status == "found_incomplete") i items,
  count_if-cons (λ x. x.status == "not_found") i items,
  count_if-cons (λ x. x.status == "not_applicable") i items,
)

-- The last item of an answer with a key.
abbrev pub last_of : String → List RawItem → Option RawItem → Option RawItem
last_of k [] o = o
last_of k (i ∷ items) o = last_of k items (if k == or_default i.key "" then some i else o)

found_or-ok :
    (o : Option String) (j : String) → found_or {E = CoverageError} o key_error ≡ ok j → o ≡ some j
found_or-ok none j h = absurd (cc)
found_or-ok (some a) j h = cc

items_by_key-last :
    (k : String) (items : List RawItem) (d e : Dict String RawItem)
    → items_by_key items d ≡ ok e
    → Dict.lookup k e ≡ last_of k items (Dict.lookup k d)
unfolding items_by_key
items_by_key-last k [] d e h = cc
items_by_key-last k (i ∷ items) d e h =
    let (j, found, rest) =
      >>=-eq-ok (found_or i.key key_error) (λ j. items_by_key items (Dict.insert j i d)) e h in
    items_by_key-last k items (Dict.insert j i d) e rest
    ∙ ap (last_of k items) (
        Dict.lookup-insert k j i d
        ∙ ap (λ n. if k == or_default n "" then some i else Dict.lookup k d)
            (sym (found_or-ok i.key j found)))

-- The status of the last item of an answer with a key.
abbrev pub status_of : List RawItem → String → String
status_of raw k = or_default (raw_of (last_of k raw none)).status "ambiguous"

-- Every disclosure gets one of the five statuses.
abbrev pub has_choices : List RawItem → Bool
has_choices raw = all (λ (k, l). contains status_choices (status_of raw k)) disclosure_registry

-- What a report over an answer holds: an entry for each of the 14 disclosures in the order of the
-- registry, made from the last item of the answer with its key.
pub record IsCoverage (id : String) (raw : List RawItem) (r : CoverageReport) : Type 0 where
  pub same_document : r.document_id ≡ id
  pub complete_keys : map (λ i. i.key) r.items ≡ Dict.keys disclosure_registry
  pub counted :
      r.found_count + r.found_incomplete_count + r.not_found_count + r.not_applicable_count
      ≤ r.total_count
  pub statuses : All (λ i. i.status ≡ status_of raw i.key) r.items

coverage_items-statuses :
    (raw : List RawItem) (d : Dict String RawItem) (reg : Dict String String)
    → items_by_key raw [] ≡ ok d
    → All
        (λ i. i.status ≡ or_default (raw_of (last_of i.key raw none)).status "ambiguous")
        (map (coverage_item d) reg)
unfolding coverage_item Dict.lookup
coverage_items-statuses raw d [] h = tt
coverage_items-statuses raw d ((k, l) ∷ reg) h = (
  ap (λ o. or_default (raw_of o).status "ambiguous") (items_by_key-last k raw [] d h),
  coverage_items-statuses raw d reg h,
)

length-map {ℓ κ} :
    {A : Type ℓ} {B : Type κ} (f : A → B) (xs : List A) → length (map f xs) ≡ length xs
length-map f [] = refl
length-map f (x ∷ xs) = ap suc (length-map f xs)

coverage_report-IsCoverage :
    (doc : PdfDocument) (id : String) (raw : List RawItem) (d : Dict String RawItem)
    → items_by_key raw [] ≡ ok d
    → IsCoverage id raw (coverage_report doc id (map (coverage_item d) disclosure_registry))
unfolding coverage_report
coverage_report-IsCoverage doc id raw d h = record {
  same_document = refl;
  complete_keys = map-coverage_item d disclosure_registry;
  counted = omega (
    arith,
    counts-le (map (coverage_item d) disclosure_registry),
    length-map (coverage_item d) disclosure_registry,
  );
  statuses = coverage_items-statuses raw d disclosure_registry h;
}

items_by_key-ok :
    (raw : List RawItem) (d : Dict String RawItem)
    → all (λ i. is_some i.key) raw ≡ true
    → (e : Dict String RawItem) × (items_by_key raw d ≡ ok e)
unfolding items_by_key
items_by_key-ok [] d h = (d, refl)
items_by_key-ok (i ∷ raw) d h = elim (Option-cases i.key) [
  | inl lost ↦ absurd (ground arith)
  | inr (k, found) ↦
      let (e, same) = items_by_key-ok raw (Dict.insert k i d) (ground arith) in
      (
        e,
        ap
              (λ o. found_or {E = CoverageError} o key_error >>= λ j.
                items_by_key raw (Dict.insert j i d))
              found
            ∙ same,
      )
]

read_items-eq :
    (loads : Text → Option (List RawItem)) (text block : Text) (raw : List RawItem)
    → json_block text ≡ some block
    → loads block ≡ some raw
    → read_items loads text ≡ ok raw
unfolding read_items
read_items-eq loads text block raw holds_json parses = rw (holds_json, read_items) (rw parses refl)

all-statuses :
    (raw : List RawItem) (d : Dict String RawItem) (reg : Dict String String)
    → items_by_key raw [] ≡ ok d
    → all (λ i. contains status_choices i.status) (map (coverage_item d) reg)
      ≡ all (λ (k, l). contains status_choices (status_of raw k)) reg
unfolding coverage_item Dict.lookup
all-statuses raw d [] h = refl
all-statuses raw d ((k, l) ∷ reg) h =
    ap₂ (λ s b. contains status_choices s && b)
      (ap (λ o. or_default (raw_of o).status "ambiguous") (items_by_key-last k raw [] d h))
      (all-statuses raw d reg h)

abbrev has_statuses : CoverageReport → Bool
has_statuses r = all (λ i. contains status_choices i.status) r.items

save_coverage-ok : (r : CoverageReport) → has_statuses r ≡ true → save_coverage r ≡ ok r
unfolding save_coverage
save_coverage-ok r h = rw h refl

save_coverage-raised :
    (r : CoverageReport) → has_statuses r ≡ false → save_coverage r ≡ raised invalid_status
unfolding save_coverage
save_coverage-raised r h = rw h refl

has_statuses-coverage_report :
    (doc : PdfDocument) (id : String) (raw : List RawItem) (d : Dict String RawItem)
    → items_by_key raw [] ≡ ok d
    → has_statuses (coverage_report doc id (map (coverage_item d) disclosure_registry))
      ≡ has_choices raw
unfolding coverage_report
has_statuses-coverage_report doc id raw d h = all-statuses raw d disclosure_registry h

-- For a completed document with chunks, and an answer with a readable JSON object whose items all have
-- a key: if the last item with its key gives every one of the 14 disclosures one of the five statuses,
-- where a missing item or status counts as "ambiguous", the check returns a report with an entry for
-- each of them, in their order and with that status, whose four counts add up to at most 14; and else
-- it raises.
pub check_disclosure_coverage-IsCoverage :
    (ask : CoveragePrompt → Text) (loads : Text → Option (List RawItem))
    (find_document : String → Option PdfDocument) (store : List PdfChunk) (id : String)
    (doc : PdfDocument) (block : Text) (raw : List RawItem)
    → find_document id ≡ some doc
    → is_completed doc.status ≡ true
    → is_empty (first_chunks id store) ≡ false
    → json_block (ask (coverage_prompt doc (first_chunks id store))) ≡ some block
    → loads block ≡ some raw
    → all (λ i. is_some i.key) raw ≡ true
    → (has_choices raw ≡ true)
        × ((r : CoverageReport) × (check_disclosure_coverage ask loads find_document store id
              ≡ ok r)
            × IsCoverage id raw r)
      ⊎ (has_choices raw ≡ false)
        × (check_disclosure_coverage ask loads find_document store id ≡ raised invalid_status)
unfolding check_disclosure_coverage
check_disclosure_coverage-IsCoverage ask loads find store id doc block raw found done chunks
      holds_json parses keyed =
    let (d, same) = items_by_key-ok raw [] keyed in
    let text = ask (coverage_prompt doc (first_chunks id store)) in
    let read = read_items-eq loads text block raw holds_json parses in
    let r = coverage_report doc id (map (coverage_item d) disclosure_registry) in
    let saved : check_disclosure_coverage ask loads find store id ≡ save_coverage r =
      rw (found, done, chunks, read, same) refl in
    let choices = has_statuses-coverage_report doc id raw d same in
    elim (Bool-cases (has_choices raw)) [
      | inl e ↦ inl (
        e,
        (r, saved ∙ save_coverage-ok r (choices ∙ e), coverage_report-IsCoverage doc id raw d same),
      )
      | inr e ↦ inr (e, saved ∙ save_coverage-raised r (choices ∙ e))
    ]
