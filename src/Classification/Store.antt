-- ===== src/Classification/Store.antt =====
-- Runs over a document and corrections by hand: the store keeps valid sections.
use financial_pdf_reader.Base.{ℕ, suc, ◌+◌}
use financial_pdf_reader.Base.{String, ◌≡◌, refl, ◌⊎◌, inl, inr}
use financial_pdf_reader.Base.{Bool, true, false, Option, none, some}
use financial_pdf_reader.Base.{List, [], ◌∷◌, arith, leb}
use financial_pdf_reader.Base.{Bool-cases, Option-cases, is_some, length}
use financial_pdf_reader.Base.{is_empty}
use financial_pdf_reader.Base.{All, ◌==◌, eq_iff, nat_eq, string_eq, text_eq}
use financial_pdf_reader.Text.{Text}
use financial_pdf_reader.Base.Dict.{Dict, insert, lookup, count_of, total}
use financial_pdf_reader.Base.Result.{ok, raised}
use financial_pdf_reader.Documents.{PdfChunk}
use financial_pdf_reader.Classification.{
  Method, rule, llm, fallback, classify_chunk, save_chunk, Stats, count_method, Progress,
  classify_step, classify_loop, Classification, chunks_of, start, report_of, classify_document,
  is_section, find_chunk, manual_override, no_chunks, invalid_section, chunk_not_found,
}
use financial_pdf_reader.Classification.Sections.{classify_chunk-is_section}
use financial_pdf_reader.Base.Sort.{IsSorted, sorted-IsSorted, sum_of-sorted}

abbrev pub HasSection : PdfChunk → Type 0
HasSection c = is_section c.section ≡ true

save_chunk-HasSection :
    (c : PdfChunk) (store : List PdfChunk)
    → HasSection c
    → All HasSection store
    → All HasSection (save_chunk c store)
unfolding save_chunk
save_chunk-HasSection c [] h k = tt
save_chunk-HasSection c (d ∷ store) h (first, rest) = elim (Bool-cases (c.chunk_id == d.chunk_id)) [
  | inl e ↦ rw e (h, save_chunk-HasSection c store h rest)
  | inr e ↦ rw e (first, save_chunk-HasSection c store h rest)
]

-- One more at any key is one more in the sum.
total-count :
    (k : String) (d : Dict String ℕ) → total (insert k (suc (count_of k d)) d) ≡ suc (total d)
unfolding lookup insert
total-count k [] = refl
total-count k ((j, n) ∷ d) = ground (arith, total-count k d)

abbrev pub stats_total : Stats → ℕ
stats_total st = st.by_rule + st.by_llm + st.by_fallback

count_method-total :
    (m : Method) (st : Stats) → stats_total (count_method m st) ≡ suc (stats_total st)
count_method-total rule st = omega arith
count_method-total llm st = omega arith
count_method-total fallback st = omega arith

-- What a run keeps, over a number of chunks.
abbrev IsRun : ℕ → Progress → Progress → Type 0
IsRun n p q =
    All HasSection q.store
    × (total q.section_counts ≡ n + total p.section_counts)
    × (stats_total q.stats ≡ n + stats_total p.stats)

classify_step-IsRun :
    (ask : Text → Option Text) (b : Bool) (c : PdfChunk) (p : Progress)
    → All HasSection p.store
    → IsRun 1 p (classify_step ask b c p)
unfolding classify_step
classify_step-IsRun ask b c p h = (
  save_chunk-HasSection _ p.store (classify_chunk-is_section ask c.text b) h,
  omega (arith, total-count (classify_chunk ask c.text b).0 p.section_counts),
  omega (arith, count_method-total (classify_chunk ask c.text b).1 p.stats),
)

classify_loop-IsRun :
    (ask : Text → Option Text) (b : Bool) (cs : List PdfChunk) (p : Progress)
    → All HasSection p.store
    → IsRun (length cs) p (classify_loop ask b cs p)
unfolding classify_loop
classify_loop-IsRun ask b [] p h = (h, omega arith, omega arith)
classify_loop-IsRun ask b (c ∷ cs) p h =
    let (stored, counted, by_method) = classify_step-IsRun ask b c p h in
    let (kept, all_counted, all_by_method) =
      classify_loop-IsRun ask b cs (classify_step ask b c p) stored in
    (kept, omega (arith, counted, all_counted), omega (arith, by_method, all_by_method))

by_count_total : (p q : String × ℕ) → leb (q.1) (p.1) ≡ false → leb (p.1) (q.1) ≡ true
by_count_total p q e = ground arith

by_count_trans :
    (p q r : String × ℕ) → leb (q.1) (p.1) ≡ true → leb (r.1) (q.1) ≡ true → leb (r.1) (p.1) ≡ true
by_count_trans p q r e f = ground arith

-- On a store of valid sections, a run over a document raises exactly if it has no chunk, and else
-- returns: the counts by section and the counts by method each add up to all its chunks, the most frequent
-- section comes first, and all sections are still valid.
pub classify_document-IsRun :
    (ask : Text → Option Text) (id : String) (b : Bool) (store : List PdfChunk)
    → All HasSection store
    → (is_empty (chunks_of id store) ≡ true)
        × (classify_document ask id b store ≡ raised (no_chunks id))
      ⊎ ((r : Classification) × (kept : List PdfChunk) × (classify_document ask id b store
            ≡ ok (r, kept))
          × (is_empty (chunks_of id store) ≡ false)
          × (r.total_chunks ≡ length (chunks_of id store))
          × (total r.section_distribution ≡ r.total_chunks)
          × (stats_total r.stats ≡ r.total_chunks)
          × IsSorted (λ (_, m) (_, n). leb n m) r.section_distribution
          × All HasSection kept)
unfolding classify_document
classify_document-IsRun ask id b store h =
    let p = classify_loop ask b (chunks_of id store) (start store) in
    let (kept, counted, by_method) =
      classify_loop-IsRun ask b (chunks_of id store) (start store) h in
    elim (Bool-cases (is_empty (chunks_of id store))) [
      | inl e ↦ inl (e, rw e refl)
      | inr e ↦ inr (
        report_of id (length (chunks_of id store)) p,
        p.store,
        rw e refl,
        e,
        refl,
        omega (
          arith,
          counted,
          sum_of-sorted (λ (_, m) (_, n). leb n m) (λ (_, n). n) p.section_counts,
        ),
        omega (arith, by_method),
        sorted-IsSorted (λ (_, m) (_, n). leb n m) by_count_total by_count_trans p.section_counts,
        kept,
      )
    ]

find_chunk-id :
    (id : String) (store : List PdfChunk) (c : PdfChunk)
    → find_chunk id store ≡ some c
    → c.chunk_id ≡ id
unfolding find_chunk
find_chunk-id id [] c e = cc
find_chunk-id id (d ∷ store) c e = elim (Bool-cases (d.chunk_id == id)) [
  | inl same ↦ ground (arith, eq_iff d.chunk_id id)
  | inr other ↦ find_chunk-id id store c (ground arith)
]

-- What is saved is found.
find_chunk-save_chunk :
    (id : String) (c : PdfChunk) (store : List PdfChunk)
    → c.chunk_id ≡ id
    → is_some (find_chunk id store) ≡ true
    → find_chunk id (save_chunk c store) ≡ some c
unfolding find_chunk save_chunk
find_chunk-save_chunk id c [] e h = cc
find_chunk-save_chunk id c (d ∷ store) e h = ground (
  arith,
  eq_iff c.chunk_id d.chunk_id,
  eq_iff d.chunk_id id,
  eq_iff c.chunk_id id,
  find_chunk-save_chunk id c store,
)

-- On a store of valid sections, a correction by hand refuses an invalid section, and a chunk that is
-- not there; else it gives the old section, the chunk is found with the new one afterwards, and all
-- sections are still valid.
pub manual_override-HasSection :
    (id section : String) (store : List PdfChunk)
    → All HasSection store
    → (is_section section ≡ false)
        × (manual_override id section store ≡ raised (invalid_section section))
      ⊎ (find_chunk id store ≡ none)
        × (manual_override id section store ≡ raised (chunk_not_found id))
      ⊎ ((c : PdfChunk) × (kept : List PdfChunk) × (find_chunk id store ≡ some c)
          × (manual_override id section store ≡ ok (c.section, kept))
          × (find_chunk id kept ≡ some (record c { section = section }))
          × All HasSection kept)
unfolding manual_override
manual_override-HasSection id section store h = elim (Bool-cases (is_section section)) [
  | inr bad ↦ inl (bad, rw bad refl)
  | inl good ↦ elim (Option-cases (find_chunk id store)) [
    | inl lost ↦ inr (inl (lost, rw (good, lost) refl))
    | inr (c, found) ↦ inr (
        inr (
          c,
          save_chunk (record c { section = section }) store,
          found,
          rw (good, found) refl,
          find_chunk-save_chunk id (record c { section = section }) store
              (find_chunk-id id store c found) (rw found refl),
          save_chunk-HasSection _ store good h,
        ))
  ]
]
