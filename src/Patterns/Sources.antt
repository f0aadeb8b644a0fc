-- ===== src/Patterns/Sources.antt =====
-- What `run_pattern_analysis` returns: its counts, and where the claims that it shows come from.
use financial_pdf_reader.Base.{◌+◌, String, ◌≡◌, refl, Bool, true, false, not, ◌&&◌, ◌||◌}
use financial_pdf_reader.Base.{List, [], ◌∷◌, arith, if◌then◌else◌, select, leb, length}
use financial_pdf_reader.Base.{contains, ◌==◌, eq_iff, string_eq, text_eq, map, any, All, some}
use financial_pdf_reader.Base.{
  Bool-cases, Option-cases, inl, inr, sym, subst, All-map, All-if, map-All, ap, ◌∙◌,
}
use financial_pdf_reader.Base.{count_if, is_some, is_empty, all}
use financial_pdf_reader.Base.Dict
use financial_pdf_reader.Base.Dict.{Dict}
use financial_pdf_reader.Base.Sort.{sorted}
use financial_pdf_reader.Base.Result.{ok}
use financial_pdf_reader.Models.{AiClaim}
use financial_pdf_reader.Documents.{PdfDocument, completed, is_completed}
use financial_pdf_reader.Audit.{ReportDocument, first}
use financial_pdf_reader.Patterns.{ClaimEntry, PatternDefinition, evaluate_pattern}
use financial_pdf_reader.Patterns.Registry.{pattern_registry}
use financial_pdf_reader.Patterns.Matching.{ids_of}
use financial_pdf_reader.Patterns.Laws.{
  expected_status, evaluate_pattern-status, evaluate_pattern-All,
}
use financial_pdf_reader.Patterns.Run.{
  materiality_name, section_key_name, PatternRunReport, SourceEntry, PatternEntry, PatternResponse,
  claim_to_dict, clean_claims, is_triggered_status, is_not_triggered_status, is_insufficient_status,
  run_result, run_results, run_report, claim_lookup, source_entry_of, result_entry, response_of,
  run_pattern_analysis,
}

-- What the response shows of a source is what the claim says, and the claim is not contaminated.
abbrev pub is_source : SourceEntry → AiClaim → Bool
is_source s c =
    not c.contaminated
    && (s.claim_id == c.claim_id)
    && (s.claim == c.claim)
    && (s.section_key == section_key_name c.section_key)
    && (s.materiality == materiality_name c.materiality)

abbrev shown : ClaimEntry → SourceEntry
unfolding source_entry_of
shown e = source_entry_of e.claim_id (some e)

-- The dict is that of a clean claim of the list.
abbrev IsFrom : List AiClaim → ClaimEntry → Type 0
IsFrom cs e = any (is_source (shown e)) cs ≡ true

is_source_self :
    (c : AiClaim) → c.contaminated ≡ false → is_source (shown (claim_to_dict c)) c ≡ true
unfolding claim_to_dict source_entry_of
is_source_self c h = ground (
  arith,
  eq_iff c.claim_id c.claim_id,
  eq_iff c.claim c.claim,
  eq_iff (section_key_name c.section_key) (section_key_name c.section_key),
  eq_iff (materiality_name c.materiality) (materiality_name c.materiality),
)

clean_claims-cons :
    (c : AiClaim) (cs : List AiClaim)
    → clean_claims (c ∷ cs)
      ≡ (if c.contaminated then clean_claims cs else claim_to_dict c ∷ clean_claims cs)
unfolding clean_claims
clean_claims-cons c cs = elim (Bool-cases c.contaminated) [ inl e ↦ rw e refl | inr e ↦ rw e refl ]

IsFrom-cons : (c : AiClaim) (cs : List AiClaim) (e : ClaimEntry) → IsFrom cs e → IsFrom (c ∷ cs) e
IsFrom-cons c cs e h = ground arith

clean_claims-IsFrom : (cs : List AiClaim) → All (IsFrom cs) (clean_claims cs)
unfolding clean_claims
clean_claims-IsFrom [] = tt
clean_claims-IsFrom (c ∷ cs) =
    let rest : All (IsFrom (c ∷ cs)) (clean_claims cs) =
      All-map (IsFrom-cons c cs) (clean_claims cs) (clean_claims-IsFrom cs) in
    subst (All (IsFrom (c ∷ cs))) (sym (clean_claims-cons c cs)) (
      All-if (IsFrom (c ∷ cs)) c.contaminated (clean_claims cs) (claim_to_dict c ∷ clean_claims cs)
        (λ e. rest) (λ e. (ground (arith, is_source_self c e), rest)))

module _ (P : ClaimEntry → Type 0) where
  -- Every entry stands under its identifier and satisfies `P`.
  abbrev IsFiled : Dict String ClaimEntry → Type 0
  IsFiled d = (k : String) (e : ClaimEntry) → Dict.lookup k d ≡ some e → (e.claim_id ≡ k) × P e

  empty-IsFiled : IsFiled []
  unfolding Dict.lookup
  empty-IsFiled k e g = absurd (cc)

  insert-IsFiled :
      (c : ClaimEntry) (d : Dict String ClaimEntry)
      → P c
      → IsFiled d
      → IsFiled (Dict.insert c.claim_id c d)
  insert-IsFiled c d p h k e g =
      let at : (if k == c.claim_id then some c else Dict.lookup k d) ≡ some e =
        sym (Dict.lookup-insert k c.claim_id c d) ∙ g in
      elim (Bool-cases (k == c.claim_id)) [
        | inl b ↦
            let same : c ≡ e = ground (arith, at) in
            subst (λ x. (x.claim_id ≡ k) × P x) same (sym ((eq_iff k c.claim_id).0 b), p)
        | inr b ↦ h k e (ground (arith, at))
      ]

  claim_lookup-IsFiled :
      (cs : List ClaimEntry) (d : Dict String ClaimEntry)
      → All P cs
      → IsFiled d
      → IsFiled (claim_lookup d cs)
  unfolding claim_lookup
  claim_lookup-IsFiled [] d a h = h
  claim_lookup-IsFiled (c ∷ cs) d (p, a) h =
      claim_lookup-IsFiled cs (Dict.insert c.claim_id c d) a (insert-IsFiled c d p h)

is_some-claim_lookup :
    (k : String) (cs : List ClaimEntry) (d : Dict String ClaimEntry)
    → is_some (Dict.lookup k (claim_lookup d cs))
      ≡ (is_some (Dict.lookup k d) || contains (ids_of cs) k)
unfolding claim_lookup
is_some-claim_lookup k [] d = ground arith
is_some-claim_lookup k (c ∷ cs) d = ground (
  arith,
  is_some-claim_lookup k cs (Dict.insert c.claim_id c d),
  Dict.lookup-insert k c.claim_id c d,
)

result_source :
    (cs : List AiClaim) (e : ClaimEntry)
    → contains (ids_of (clean_claims cs)) e.claim_id ≡ true
    → any
        (is_source
          (source_entry_of e.claim_id (Dict.lookup e.claim_id (claim_lookup [] (clean_claims cs)))))
        cs
      ≡ true
unfolding source_entry_of Dict.lookup
result_source cs e h =
    let d = claim_lookup [] (clean_claims cs) in
    elim (Option-cases (Dict.lookup e.claim_id d)) [
      | inl none_there ↦
          absurd (ground (arith, is_some-claim_lookup e.claim_id (clean_claims cs) [], none_there))
      | inr (x, there) ↦
          let filed : (x.claim_id ≡ e.claim_id) × IsFrom cs x =
            claim_lookup-IsFiled (IsFrom cs) (clean_claims cs) [] (clean_claims-IsFrom cs)
              (empty-IsFiled (IsFrom cs)) e.claim_id x there in
          rw there
            (subst (λ k. any (is_source (source_entry_of k (some x))) cs ≡ true) filed.0 filed.1)
    ]

ids_self : (cs : List ClaimEntry) → All (λ c. contains (ids_of cs) c.claim_id ≡ true) cs
ids_self [] = tt
ids_self (c ∷ cs) =
    (ground (arith, eq_iff c.claim_id c.claim_id), All-map (λ x h. ground arith) cs (ids_self cs))

-- Every source that the entry shows is what a clean claim of the list says.
abbrev AreSources : List AiClaim → PatternEntry → Type 0
AreSources cs r = All (λ s. any (is_source s) cs ≡ true) r.source_claims

entry-AreSources :
    (cs : List AiClaim) (p : PatternDefinition)
    → AreSources cs (
        result_entry
          (claim_lookup [] (clean_claims cs))
          (run_result p (evaluate_pattern p (clean_claims cs))))
unfolding result_entry run_result
entry-AreSources cs p =
    let claims = clean_claims cs in
    let sources = (evaluate_pattern p claims).source_claims in
    let show : String → SourceEntry =
      λ id. source_entry_of id (Dict.lookup id (claim_lookup [] claims)) in
    map-All (λ s. any (is_source s) cs ≡ true) show (map (λ c. c.claim_id) sources)
      (map-All (λ id. any (is_source (show id)) cs ≡ true) (λ c. c.claim_id) sources
        (All-map (λ e (h, _). result_source cs e h) sources
          (evaluate_pattern-All (λ e. contains (ids_of claims) e.claim_id ≡ true) p claims
            (ids_self claims))))

run_results-AreSources :
    (cs : List AiClaim) (ps : List PatternDefinition)
    → All
        (AreSources cs)
        (map (result_entry (claim_lookup [] (clean_claims cs))) (run_results ps (clean_claims cs)))
unfolding run_results
run_results-AreSources cs [] = tt
run_results-AreSources cs (p ∷ ps) = (entry-AreSources cs p, run_results-AreSources cs ps)

run_results-status :
    (ps : List PatternDefinition) (claims : List ClaimEntry)
    → map (λ r. r.status) (run_results ps claims)
      ≡ map (λ p. expected_status p.required_filters claims) ps
unfolding run_results run_result
run_results-status [] claims = refl
run_results-status (p ∷ ps) claims =
    rw ((evaluate_pattern-status p claims).0, run_results-status ps claims) refl

run_results-counts :
    (ps : List PatternDefinition) (claims : List ClaimEntry)
    → all (λ p. not (is_empty p.required_filters)) ps ≡ true
    → (count_if (λ r. is_triggered_status r.status) (run_results ps claims)
          + count_if (λ r. is_insufficient_status r.status) (run_results ps claims)
        ≡ length ps)
      × (count_if (λ r. is_not_triggered_status r.status) (run_results ps claims) ≡ 0)
unfolding run_results run_result
run_results-counts [] claims h = (refl, refl)
run_results-counts (p ∷ ps) claims h =
    let status = (evaluate_pattern-status p claims).0 in
    ground (arith, status, run_results-counts ps claims)

-- A run over the claims `cs`: each pattern has the status that its filters and the clean claims give
-- it, every pattern is triggered or lacks evidence, and every source shown is a clean claim.
pub record IsAnalysis (cs : List AiClaim) (run : PatternRunReport) (response : PatternResponse)
    : Type 0 where
  pub decided :
      map (λ r. r.status) run.results
      ≡ map (λ p. expected_status p.required_filters (clean_claims cs)) pattern_registry
  pub counted : run.triggered_count + run.insufficient_count ≡ 6
  pub never_silent : run.not_triggered_count ≡ 0
  pub quoted : All (AreSources cs) response.results

-- For a stored document that is completed and has a report, the analysis returns a result: each of
-- the six patterns has the status that its filters and the clean claims of the latest report give it,
-- every pattern is triggered or lacks evidence, and every source shown repeats the identifier, the
-- text, the section and the materiality of a claim of that report that is not contaminated.
pub run_pattern_analysis-IsAnalysis :
    (docs : List PdfDocument) (reports : List ReportDocument) (run_id id : String)
    (doc : PdfDocument) (report : ReportDocument)
    → first (select (λ d. d.document_id == id) docs) ≡ some doc
    → doc.status ≡ completed
    → first
        (sorted (λ a b. leb b.created_at a.created_at) (select (λ r. r.document_id == id) reports))
      ≡ some report
    → (out : PatternRunReport × PatternResponse) × (run_pattern_analysis docs reports run_id id
        ≡ ok out)
      × IsAnalysis report.claims out.0 out.1
unfolding run_pattern_analysis run_report response_of
run_pattern_analysis-IsAnalysis docs reports run_id id doc report found done latest =
    let claims = clean_claims report.claims in
    let run = run_report run_id id doc (run_results pattern_registry claims) in
    let counts = run_results-counts pattern_registry claims refl in
    (
      (run, response_of run claims),
      rw found (rw (ap is_completed done) (rw latest refl)),
      record {
        decided = run_results-status pattern_registry claims;
        counted = counts.0;
        never_silent = counts.1;
        quoted = run_results-AreSources report.claims pattern_registry;
      },
    )
