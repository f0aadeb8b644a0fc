-- ===== src/Kpis/Laws.antt =====
-- Which table `extract_kpis` of services/kpi_normalization takes a KPI from.
use financial_pdf_reader.Base.{ℕ, ◌+◌, String, ◌≡◌, refl, sym, ap, subst, ◌∙◌, Bool, true, false}
use financial_pdf_reader.Base.{not, ◌&&◌, Option, none, some, List, [], ◌∷◌, map, any, All}
use financial_pdf_reader.Base.{select, is_some, is_empty, length, leb, ltb, arith, ◌==◌, string_eq}
use financial_pdf_reader.Base.{All-map, All-select, any-select, eq_iff, Option-cases, inl, inr}
use mathlib.Core.List.{Memᴰ}
use financial_pdf_reader.Base.Decimal.{Decimal, Float}
use financial_pdf_reader.Base.Dict.{Dict}
use financial_pdf_reader.Base.Sort.{any-sorted, All-sorted, IsSorted, sorted-IsSorted}
use financial_pdf_reader.Base.Result.{ok}
use financial_pdf_reader.Text.{Text}
use financial_pdf_reader.Documents.{PdfDocument, PdfTable}
use financial_pdf_reader.Ingestion.{find_document}
use financial_pdf_reader.Kpis.{
  kpi_keywords, extract_kpi_from_markdown, KpiHit, hit_of, find_hit, KpiReport, tables_by_page,
  kpis_of, kpi_report, extract_kpis,
}

abbrev by_page : PdfTable → PdfTable → Bool
by_page a b = leb a.page b.page

abbrev page_or : Option KpiHit → ℕ → ℕ
page_or none n = n
page_or (some h) n = h.page

hit_of-page : (t : PdfTable) (found : Float × Text) → (hit_of t found).page ≡ t.page
unfolding hit_of
hit_of-page t (value, raw) = refl

-- No later table of a sorted list is on an earlier page.
none_before :
    (q : PdfTable → Bool) (n : ℕ) (ts : List PdfTable)
    → All (λ u. leb n u.page ≡ true) ts
    → any (λ u. q u && ltb u.page n) ts ≡ false
none_before q n [] h = refl
none_before q n (u ∷ us) (h, hs) = ground (arith, none_before q n us hs)

abbrev of_document : String → PdfTable → Bool
of_document id t = t.document_id == id

any-tables_by_page :
    (p : PdfTable → Bool) (id : String) (store : List PdfTable)
    → any p (tables_by_page id store) ≡ any (λ t. of_document id t && p t) store
unfolding tables_by_page
any-tables_by_page p id store =
    any-sorted by_page p (select (of_document id) store) ∙ any-select p (of_document id) store

tables_by_page-All :
    (id : String) (store : List PdfTable)
    → All (λ t. Memᴰ t store × (t.document_id ≡ id)) (tables_by_page id store)
unfolding tables_by_page
tables_by_page-All id store =
    All-sorted by_page (λ t. Memᴰ t store × (t.document_id ≡ id)) (select (of_document id) store)
      (All-map (λ t (m, e). (m, (eq_iff t.document_id id).0 e)) (select (of_document id) store)
        (All-select (of_document id) store))

tables_by_page-IsSorted :
    (id : String) (store : List PdfTable) → IsSorted by_page (tables_by_page id store)
unfolding tables_by_page
tables_by_page-IsSorted id store =
    sorted-IsSorted by_page (λ x y h. ground arith) (λ x y z h k. ground arith)
      (select (of_document id) store)

found_lem :
    (kpis : Dict String (Option KpiHit))
    → length (select (λ (k, v). is_some v) kpis)
        + length (map (λ (k, v). k) (select (λ (k, v). not (is_some v)) kpis))
      ≡ length kpis
found_lem [] = refl
found_lem ((k, none) ∷ kpis) = omega (arith, found_lem kpis)
found_lem ((k, some h) ∷ kpis) = omega (arith, found_lem kpis)

any-is_empty : (p : PdfTable → Bool) (ts : List PdfTable) → any p ts ≡ true → is_empty ts ≡ false
any-is_empty p [] h = absurd (ground arith)
any-is_empty p (t ∷ ts) h = refl

any-same : (p : PdfTable → Bool) (ts : List PdfTable) → any (λ t. p t && p t) ts ≡ any p ts
any-same p [] = refl
any-same p (t ∷ ts) = ground (arith, any-same p ts)

module _ (float : Decimal → Float) where
  -- The table shows a number for the keywords.
  abbrev pub has_kpi : List Text → PdfTable → Bool
  has_kpi keywords t = is_some (extract_kpi_from_markdown float t.table_markdown keywords)

  -- The hit is what one of the tables shows.
  abbrev pub IsShown : (PdfTable → Type 0) → List Text → KpiHit → Type 0
  IsShown P keywords h =
      (t : PdfTable) × P t
      × ((found : Float × Text) × (extract_kpi_from_markdown float t.table_markdown keywords
            ≡ some found)
          × (h ≡ hit_of t found))

  module _ (keywords : List Text) (t : PdfTable) (ts : List PdfTable) where
    find_hit-next :
        extract_kpi_from_markdown float t.table_markdown keywords ≡ none
        → find_hit float keywords (t ∷ ts) ≡ find_hit float keywords ts
    unfolding find_hit
    find_hit-next e = rw (e, find_hit) refl

    find_hit-here :
        (found : Float × Text)
        → extract_kpi_from_markdown float t.table_markdown keywords ≡ some found
        → find_hit float keywords (t ∷ ts) ≡ some (hit_of t found)
    unfolding find_hit
    find_hit-here found e = rw (e, find_hit) refl

  find_hit-none :
      (keywords : List Text) (ts : List PdfTable)
      → find_hit float keywords ts ≡ none
      → any (has_kpi keywords) ts ≡ false
  find_hit-none keywords [] e = refl
  find_hit-none keywords (t ∷ ts) e =
      elim (Option-cases (extract_kpi_from_markdown float t.table_markdown keywords)) [
        | inl missing ↦
            rw missing (find_hit-none keywords ts (sym (find_hit-next keywords t ts missing) ∙ e))
        | inr (found, shown) ↦
            absurd (ground (arith, sym (find_hit-here keywords t ts found shown) ∙ e))
      ]

  find_hit-some :
      (P : PdfTable → Type 0) (keywords : List Text) (ts : List PdfTable) (h : KpiHit)
      → All P ts
      → find_hit float keywords ts ≡ some h
      → IsShown P keywords h
  unfolding find_hit
  find_hit-some P keywords [] h a e = absurd (cc)
  find_hit-some P keywords (t ∷ ts) h (p, a) e =
      elim (Option-cases (extract_kpi_from_markdown float t.table_markdown keywords)) [
        | inl missing ↦
            find_hit-some P keywords ts h a (sym (find_hit-next keywords t ts missing) ∙ e)
        | inr (found, shown) ↦
            let same : some h ≡ some (hit_of t found) =
              sym e ∙ find_hit-here keywords t ts found shown in
            (t, p, (found, shown, cc))
      ]

  find_hit-least :
      (keywords : List Text) (ts : List PdfTable) (h : KpiHit)
      → IsSorted by_page ts
      → find_hit float keywords ts ≡ some h
      → any (λ t. has_kpi keywords t && ltb t.page h.page) ts ≡ false
  find_hit-least keywords [] h s e = refl
  find_hit-least keywords (t ∷ ts) h (before, s) e =
      elim (Option-cases (extract_kpi_from_markdown float t.table_markdown keywords)) [
        | inl missing ↦
            rw missing
              (find_hit-least keywords ts h s (sym (find_hit-next keywords t ts missing) ∙ e))
        | inr (found, shown) ↦
            let same : some (hit_of t found) ≡ some h =
              sym (find_hit-here keywords t ts found shown) ∙ e in
            let page : h.page ≡ t.page =
              ap (λ o. page_or o t.page) (sym same) ∙ hit_of-page t found in
            subst (λ n. any (λ u. has_kpi keywords u && ltb u.page n) (t ∷ ts) ≡ false) (sym page)
              (ground (arith, none_before (has_kpi keywords) t.page ts before))
      ]

  -- What is found for a KPI: nothing if no table of the document shows a number for it, and else what a
  -- table of the document shows, with no such table on an earlier page.
  abbrev pub IsFirstHit : String → List PdfTable → List Text → Option KpiHit → Type 0
  IsFirstHit id store keywords none =
      any (λ t. of_document id t && has_kpi keywords t) store ≡ false
  IsFirstHit id store keywords (some h) =
      IsShown (λ t. Memᴰ t store × (t.document_id ≡ id)) keywords h
      × (any (λ t. of_document id t && (has_kpi keywords t && ltb t.page h.page)) store ≡ false)

  find_hit-IsFirstHit :
      (id : String) (store : List PdfTable) (keywords : List Text)
      → IsFirstHit id store keywords (find_hit float keywords (tables_by_page id store))
  find_hit-IsFirstHit id store keywords =
      let ts = tables_by_page id store in
      elim (Option-cases (find_hit float keywords ts)) [
        | inl e ↦
            subst (IsFirstHit id store keywords) (sym e)
              (sym (any-tables_by_page (has_kpi keywords) id store) ∙ find_hit-none keywords ts e)
        | inr (h, e) ↦ subst (IsFirstHit id store keywords) (sym e) (
          find_hit-some (λ t. Memᴰ t store × (t.document_id ≡ id)) keywords ts h
              (tables_by_page-All id store) e,
          sym (any-tables_by_page (λ t. has_kpi keywords t && ltb t.page h.page) id store)
              ∙ find_hit-least keywords ts h (tables_by_page-IsSorted id store) e,
        )
      ]

  -- Each entry of the report is the first hit of the KPI that the table of keywords has at its place.
  abbrev pub AreFirstHits :
      String → List PdfTable → Dict String (List Text) → Dict String (Option KpiHit) → Type 0
  AreFirstHits id store [] [] = Unit
  AreFirstHits id store ((k, keywords) ∷ ks) ((j, hit) ∷ hits) =
      (j ≡ k) × IsFirstHit id store keywords hit × AreFirstHits id store ks hits
  AreFirstHits id store [] (_ ∷ _) = ⊥
  AreFirstHits id store (_ ∷ _) [] = ⊥

  kpis_of-AreFirstHits :
      (id : String) (store : List PdfTable) (ks : Dict String (List Text))
      → AreFirstHits id store ks (kpis_of float (tables_by_page id store) ks)
  kpis_of-AreFirstHits id store [] = tt
  kpis_of-AreFirstHits id store ((k, keywords) ∷ ks) =
      (refl, find_hit-IsFirstHit id store keywords, kpis_of-AreFirstHits id store ks)

  -- A report on the document: one entry for each of the eight KPIs in the order of the keywords, each
  -- the first hit, and the number found and the list of those not found make up eight.
  pub record IsKpiReport (id : String) (store : List PdfTable) (r : KpiReport) : Type 0 where
    pub entries : AreFirstHits id store kpi_keywords r.kpis
    pub counted : r.found_count + length r.not_found ≡ 8

-- For a stored document with at least one table the extraction returns a report with an entry for
-- each of the eight KPIs, in the order of the keywords: nothing if no table of the document shows a
-- number for it, and else what a table of the document shows, with no such table on an earlier page.
-- The KPIs found and those listed as not found are eight together.
pub extract_kpis-IsKpiReport :
    (float : Decimal → Float) (docs : List PdfDocument) (store : List PdfTable) (id : String)
    (doc : PdfDocument)
    → find_document id docs ≡ some doc
    → any (of_document id) store ≡ true
    → (r : KpiReport) × (extract_kpis float docs store id ≡ ok r) × IsKpiReport float id store r
unfolding extract_kpis kpi_report
extract_kpis-IsKpiReport float docs store id doc found some_table =
    let ts = tables_by_page id store in
    let listed : is_empty ts ≡ false = any-is_empty (of_document id) ts (
      any-tables_by_page (of_document id) id store
      ∙ any-same (of_document id) store
      ∙ some_table) in
    (
      kpi_report id doc.period (kpis_of float ts kpi_keywords),
      rw found (rw listed refl),
      record {
        entries = kpis_of-AreFirstHits float id store kpi_keywords;
        counted = found_lem (kpis_of float ts kpi_keywords);
      },
    )
