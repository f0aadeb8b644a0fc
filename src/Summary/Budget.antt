-- ===== src/Summary/Budget.antt =====
-- `_allocate_section_budget` and `_retrieve_chunks_section_aware` of services/summarization.
--
-- `int(d * budget / total)` is the floor of a quotient of small integers, which the division of
-- doubles gives exactly.
pub mod Allocation
pub mod Shares
pub mod Exact
pub mod Retrieval
pub mod Sections
use financial_pdf_reader.Base.Dict
use financial_pdf_reader.Base.Dict.{Dict}
use financial_pdf_reader.Base.Sort.{sorted}
use financial_pdf_reader.Documents.{PdfChunk}
use financial_pdf_reader.Base.{ℕ, zero, suc, ◌+◌, ◌-◌, ◌*◌, ◌/◌, min}
use financial_pdf_reader.Base.{String}
use financial_pdf_reader.Base.{Bool}
use financial_pdf_reader.Base.{List, [], ◌∷◌, ◌++◌, ltb, leb, if◌then◌else◌}
use financial_pdf_reader.Base.{or_default, length, take}
use financial_pdf_reader.Base.{is_empty}
use financial_pdf_reader.Base.{◌==◌, nat_eq, string_eq, text_eq}

-- `_SECTION_QUOTA`
abbrev pub section_quota : Dict String ℕ
section_quota =
    ("營收", 12)
    ∷ ("毛利率", 10)
    ∷ ("營業利益", 10)
    ∷ ("淨利", 8)
    ∷ ("EPS", 8)
    ∷ ("管理層展望", 10)
    ∷ ("客戶需求", 8)
    ∷ ("產業展望", 6)
    ∷ ("風險因素", 8)
    ∷ ("現金流", 8)
    ∷ ("負債", 6)
    ∷ ("存貨", 5)
    ∷ ("應收帳款", 5)
    ∷ ("資本支出", 5)
    ∷ ("匯率影響", 4)
    ∷ ("產能", 5)
    ∷ ("稼動率", 4)
    ∷ ("重大會計估計", 4)
    ∷ ("會計政策變更", 3)
    ∷ ("董事會說明", 3)
    ∷ ("unknown", 8)
    ∷ []

-- `_SECTION_QUOTA.get(section, _SECTION_QUOTA["unknown"])`
unfoldable pub quota_of : String → ℕ
unfolding Dict.lookup
quota_of section = or_default (Dict.lookup section section_quota) 8

unfoldable pub desired_counts {ℓ} : {A : Type ℓ} → Dict String (List A) → Dict String ℕ
desired_counts [] = []
desired_counts ((s, chunks) ∷ d) = (s, min (length chunks) (quota_of s)) ∷ desired_counts d

-- The floors of the proportional shares.
unfoldable pub floor_shares : ℕ → ℕ → Dict String ℕ → Dict String ℕ
floor_shares budget total [] = []
floor_shares budget total ((s, d) ∷ rest) = (s, d * budget / total) ∷ floor_shares budget total rest

-- The loop over the sections in the order of their desired counts: one more for each section that
-- has room, until nothing remains.
unfoldable pub top_up : List String → ℕ → Dict String ℕ → Dict String ℕ → Dict String ℕ
top_up [] remaining desired allocation = allocation
top_up (s ∷ order) zero desired allocation = allocation
top_up (s ∷ order) (suc remaining) desired allocation =
    let share = Dict.count_of s allocation in
    let given = top_up order remaining desired (Dict.insert s (suc share) allocation) in
    let passed = top_up order (suc remaining) desired allocation in
    if ltb 0 (Dict.count_of s desired - share) then given else passed

-- `sorted(desired, key=..., reverse=True)`
abbrev pub by_desired : Dict String ℕ → String → String → Bool
by_desired desired s t = leb (Dict.count_of t desired) (Dict.count_of s desired)

-- The shares of a budget that is too small.
unfoldable pub scaled : ℕ → Dict String ℕ → Dict String ℕ
scaled budget desired =
    let shares = floor_shares budget (Dict.total desired) desired in
    top_up (sorted (by_desired desired) (Dict.keys desired)) (budget - Dict.total shares) desired
      shares

unfoldable pub allocate_section_budget {ℓ} : {A : Type ℓ} → Dict String (List A) → ℕ → Dict String ℕ
allocate_section_budget by_section budget =
    let desired = desired_counts by_section in
    if leb (Dict.total desired) budget then desired else scaled budget desired

-- `by_section[section].append(chunk)` on a `defaultdict(list)`.
unfoldable pub group_append :
    String → PdfChunk → Dict String (List PdfChunk) → Dict String (List PdfChunk)
group_append s c d = Dict.insert s (or_default (Dict.lookup s d) [] ++ (c ∷ [])) d

-- `chunk.section or "unknown"`
abbrev pub section_of : PdfChunk → String
section_of c = if c.section == "" then "unknown" else c.section

unfoldable pub group_chunks :
    Dict String (List PdfChunk) → List PdfChunk → Dict String (List PdfChunk)
group_chunks d [] = d
group_chunks d (c ∷ cs) = group_chunks (group_append (section_of c) c d) cs

unfoldable pub select_chunks : Dict String ℕ → Dict String (List PdfChunk) → List PdfChunk
select_chunks allocation [] = []
select_chunks allocation ((s, chunks) ∷ d) =
    take (Dict.count_of s allocation) chunks ++ select_chunks allocation d

abbrev pub page_order : PdfChunk → PdfChunk → Bool
page_order c d = leb c.page d.page

-- The chunks of the document, in the order of their pages, are an argument.
unfoldable pub retrieve_chunks_section_aware : List PdfChunk → ℕ → List PdfChunk
retrieve_chunks_section_aware all_chunks budget =
    let by_section = group_chunks [] all_chunks in
    if is_empty all_chunks
    then []
    else sorted page_order (select_chunks (allocate_section_budget by_section budget) by_section)
