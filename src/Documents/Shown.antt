-- ===== src/Documents/Shown.antt =====
-- The chunks as the prompts of services/summarization and services/disclosure_coverage show them.
use financial_pdf_reader.Base.{List, map, ◌++◌}
use financial_pdf_reader.Text.{Text, codes}
use financial_pdf_reader.Text.Lines.{join}
use financial_pdf_reader.Text.Digits.{decimal}
use financial_pdf_reader.Documents.{PdfChunk}

-- `_build_chunks_text`; the other service has the same expression in place.
unfoldable pub build_chunks_text : List PdfChunk → Text
unfolding join decimal
build_chunks_text chunks =
    join (codes "\n\n---\n\n")
      (map (λ c. codes "[p." ++ (decimal c.page ++ (codes "]\n" ++ c.text))) chunks)
