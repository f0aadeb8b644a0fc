-- ===== src/Lib.antt =====
-- financial-pdf-reader: the services that turn a financial report (PDF) into governed claims.
--
-- A PDF is ingested: its pages are cut into chunks and each chunk is filed under a section; its tables
-- are stored as markdown, from which KPIs are read back. A summary retrieves chunks within a budget,
-- asks a language model for claims, sets governance guards on every claim, and builds a dashboard that
-- must satisfy a contract. Two documents of a company are compared section by section. Stored reports
-- are audited by the rules R1 to R7, reasoning patterns are evaluated on the claims, and dashboards of
-- several periods are joined into trends. The services meet in the stored records: ingestion and table
-- extraction call the classification, the KPIs come from the stored tables, the audit and the patterns
-- read the claims that the summary parsed, the audit reads the diff reports, and the trend reads the
-- dashboard that the summary built.
--
-- Which file models what (paths from the repository's root):
--   Documents, Models (and Models/Parse, Models/Diffs): models/documents, models/reports, and the sets
--     of valid values in services/summarization/__init__.py.
--   Governance: core/governance.py; check_r1 to check_r7_claim, audit_claims, audit_diff_items.
--   Audit: services/audit/__init__.py; run_audit, run_diff_audit, build_summary.
--   Prompts: the phrase lists of prompts/__init__.py.
--   Contract: services/dashboard_contract/constants.py and validator.py.
--   Classification: services/classification/__init__.py; classify_by_rule, classify_by_llm,
--     classify_chunk, classify_document, manual_override.
--   Coverage: services/disclosure_coverage/__init__.py and models/disclosures;
--     check_disclosure_coverage.
--   Ingestion: services/pdf_ingestion/__init__.py; chunk_page, ingest_pdf.
--   Summary: services/summarization/__init__.py, with Claims for _parse_claims, Budget for
--     _allocate_section_budget and _retrieve_chunks_section_aware, Metrics for _match_metric,
--     _extract_delta, _direction_from_text and _calc_impact, Entries, Risks and Dashboard for
--     _build_dashboard_payload,
--     Report for _check_investment_advice, _check_completeness and the part of generate_summary from
--     the parsed answer on, and Generate for generate_summary as a whole; Summary/Response:
--     services/dashboard_contract/serializer.py.
--   Trend: services/trend/__init__.py; _extract_kpi_points, generate_trend.
--   Tables: services/text_extraction/__init__.py; _rows_to_markdown, _assess_quality, extract_tables,
--     find_numeric_evidence.
--   Kpis: services/kpi_normalization/__init__.py; parse_number, detect_unit, parse_markdown_rows,
--     extract_kpi_from_markdown, extract_kpis.
--   Diff: services/diff/__init__.py, with Grouping for _get_section_chunks and _chunks_to_text, Answers
--     for _diff_section and Response for _serialize_report; generate_diff.
--   Patterns: reasoning_patterns/schemas.py and services/reasoning_patterns, with Registry for the six
--     patterns and Run for run_pattern_analysis and models/patterns.
--   Documents/Shown and Text/Blocks: _build_chunks_text and the search for the JSON block of a reply.
--   Base and Text: what else the code uses of Python's lists, dicts, sorted and str. Tests: the
--     properties at concrete inputs.
--
-- A text is a list of code points where the code looks into it, and a native string where it is only
-- compared. A dict is an association list in insertion order. An exception is a value of a Result. A
-- field that may be missing is an Option; JSON null and values of another JSON type are left out but for
-- the pages, identifiers and descriptions of a diff. A
-- change in percent that is read from a text is an exact decimal; the double of a KPI and the rounding of
-- quotients are parameters. Of the validation on saving only two tests are modelled: of the statuses of a
-- coverage report, and of the identifiers and descriptions in a diff report. Fresh
-- identifiers are a supply, and the file system, pdfplumber and the language model are arguments.
--
-- Fuel: chunk_loop and the printing of a number have it. chunk_page gives one more than the length of
-- the text. That is enough for a positive limit, since each round cuts off at least one character; the
-- code calls it with 1500. A number n is printed with n + 1 digits of fuel, more than it has.
--
-- Not modelled: the HTTP routes (apis), authentication, settings and database clients, which are
-- input and output; the prompts' texts; services/data_source, which calls an external service;
-- services/dashboard_contract.py, which the package of the same name hides;
-- and the governance tooling (governance_tools, runtime_hooks), which is another project's.
pub mod Base
pub mod Text
pub mod Models
pub mod Documents
pub mod Governance
pub mod Prompts
pub mod Contract
pub mod Classification
pub mod Ingestion
pub mod Summary
pub mod Coverage
pub mod Audit
pub mod Trend
pub mod Patterns
pub mod Tables
pub mod Kpis
pub mod Diff
pub mod Tests
