-- ===== src/Classification/Sections.antt =====
-- The sections that the store may hold, and the counts of a run over a document.
use financial_pdf_reader.Base.{String, ◌≡◌, refl, ap, ◌∙◌}
use financial_pdf_reader.Base.{Bool, true, false, ◌&&◌, ◌||◌, Option, none, some}
use financial_pdf_reader.Base.{List, [], ◌∷◌, arith}
use financial_pdf_reader.Base.{take}
use financial_pdf_reader.Base.{all}
use financial_pdf_reader.Base.{◌==◌, eq_iff, nat_eq, string_eq, text_eq, contains}
use financial_pdf_reader.Text.{Text}
use financial_pdf_reader.Text.{is_space}
use financial_pdf_reader.Text.Strip.{strip_by}
use financial_pdf_reader.Base.Dict.{Dict, keys}
use financial_pdf_reader.Classification.{
  sections, section_keywords, classify_by_rule, known_section, classify_by_llm, classify_chunk,
  is_section,
}
use mathlib.Core.List.{Memᴰ}
use financial_pdf_reader.Classification.{after_rule, section_from}
use financial_pdf_reader.Classification.Rules.{IsBest, classify_by_rule-IsBest}

known_section-is_section :
    (names : List String) (t : Text)
    → (contains names (known_section names t) || known_section names t == "unknown") ≡ true
unfolding known_section
known_section-is_section [] t = refl
known_section-is_section (s ∷ names) t =
    ground (arith, known_section-is_section names t, eq_iff s s, eq_iff (known_section names t) s)

section_from-is_section : (o : Option Text) → is_section (section_from o) ≡ true
section_from-is_section none = refl
section_from-is_section (some a) = known_section-is_section sections (strip_by is_space a)

and_left : (a b : Bool) → (a && b) ≡ true → a ≡ true
and_left a b h = ground arith

and_right : (a b : Bool) → (a && b) ≡ true → b ≡ true
and_right a b h = ground arith

-- What holds of all keys of a table holds of the key of an entry.
all-Mem :
    (q : String → Bool) {s : String} {ks : List Text} (d : Dict String (List Text))
    → Memᴰ (s, ks) d
    → all q (keys d) ≡ true
    → q s ≡ true
all-Mem q [] k h = elim k [ ]
all-Mem q {s} {ks} ((t, js) ∷ d) (Memᴰ.head e) h =
    ap (λ p. q (p.0)) e ∙ and_left (q t) (all q (keys d)) h
all-Mem q ((t, js) ∷ d) (Memᴰ.tail k) h = all-Mem q d k (and_right (q t) (all q (keys d)) h)

keywords-are_sections : all is_section (keys section_keywords) ≡ true
keywords-are_sections = refl

after_rule-is_section :
    (ask : Text → Option Text) (t : Text) (b : Bool) (o : Option String)
    → IsBest t section_keywords o
    → is_section (after_rule ask t b o).0 ≡ true
unfolding classify_by_llm
after_rule-is_section ask t b (some s) (ks, listed, _, _) =
    all-Mem is_section section_keywords listed keywords-are_sections
after_rule-is_section ask t true none h = section_from-is_section (ask (take 800 t))
after_rule-is_section ask t false none h = refl

-- The section of a chunk is always one of `SECTIONS` or "unknown", whatever the LLM answers.
pub classify_chunk-is_section :
    (ask : Text → Option Text) (t : Text) (b : Bool) → is_section (classify_chunk ask t b).0 ≡ true
unfolding classify_chunk
classify_chunk-is_section ask t b =
    after_rule-is_section ask t b (classify_by_rule t) (classify_by_rule-IsBest t)
