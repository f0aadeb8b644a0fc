-- ===== src/Diff/Storable.antt =====
-- services/diff: which items of a diff report the database refuses.
use financial_pdf_reader.Base.{
  ap, ◌∙◌, if◌then◌else◌, ℕ, suc, String, ◌≡◌, refl, Bool, true, false, not, ◌&&◌, ◌⊎◌, inl, inr,
}
use financial_pdf_reader.Base.{
  List, [], ◌∷◌, any, all, or_default, All, All-if, All-map, Bool-cases, arith,
}
use financial_pdf_reader.Documents.{PdfDocument}
use financial_pdf_reader.Models.Diffs.{text_value, is_text, DiffItem, is_storable}
use financial_pdf_reader.Diff.Answers.{
  DiffPrompt, RawDiffItem, DiffAnswer, failed_call, unreadable, answered, diff_item, has_page,
  diff_items, answer_items,
}
use financial_pdf_reader.Diff.{DiffContext, new_section_item, removed_section_item, all_items}
use financial_pdf_reader.Diff.Loops.{all_items-All}

-- The identifier and the description of an item are texts or missing.
abbrev pub has_texts : RawDiffItem → Bool
has_texts raw =
    is_text (or_default raw.diff_id (text_value ""))
    && is_text (or_default raw.description (text_value []))

-- The answer has an item with a page whose identifier or description is not a text.
abbrev pub is_refused : DiffAnswer → Bool
is_refused (answered raws) = any (λ raw. has_page raw && not (has_texts raw)) raws
is_refused _ = false

abbrev IsStorable : DiffItem → Type 0
IsStorable i = is_storable i ≡ true

module _ (section : String) (current previous : PdfDocument) (ids : ℕ → String) where
  diff_item-IsStorable :
      (fresh : String) (raw : RawDiffItem)
      → has_texts raw ≡ true
      → IsStorable (diff_item section current previous fresh raw)
  unfolding diff_item
  diff_item-IsStorable fresh raw h = ground arith

  diff_items-IsStorable :
      (n : ℕ) (raws : List RawDiffItem)
      → any (λ raw. has_page raw && not (has_texts raw)) raws ≡ false
      → All IsStorable (diff_items section current previous ids n raws)
  unfolding diff_items
  diff_items-IsStorable n [] h = tt
  diff_items-IsStorable n (raw ∷ raws) h =
      let rest = diff_items-IsStorable (if has_page raw then suc n else n) raws (ground arith) in
      All-if IsStorable (has_page raw) _ _
        (λ paged. (diff_item-IsStorable (ids n) raw (ground arith), rest)) (λ _. rest)

  answer_items-IsStorable :
      (n : ℕ) (a : DiffAnswer)
      → is_refused a ≡ false
      → All IsStorable (or_default (answer_items section current previous ids n a) [])
  unfolding answer_items
  answer_items-IsStorable n failed_call h = tt
  answer_items-IsStorable n unreadable h = tt
  answer_items-IsStorable n (answered raws) h = diff_items-IsStorable n raws h

-- Some prompt gets an answer that the database refuses.
abbrev pub GetsRefused : (DiffPrompt → DiffAnswer) → Type 0
GetsRefused ask = (p : DiffPrompt) × (is_refused (ask p) ≡ true)

abbrev IsExplained : (DiffPrompt → DiffAnswer) → DiffItem → Type 0
IsExplained ask i = IsStorable i ⊎ GetsRefused ask

All-const : (X : Type 0) (items : List DiffItem) → X → All (λ _. X) items
All-const X [] x = tt
All-const X (i ∷ is) x = (x, All-const X is x)

all_items-IsExplained :
    (x : DiffContext) (order : List String → List String)
    → All (IsExplained x.ask) (all_items order x)
unfolding new_section_item removed_section_item
all_items-IsExplained x order =
    all_items-All x (IsExplained x.ask)
      (λ s n a p e.
        let items = or_default (answer_items s x.current x.previous x.ids n a) [] in
        elim (Bool-cases (is_refused a)) [
          | inl refused ↦
              All-map (λ i h. inr h) items
                (All-const (GetsRefused x.ask) items (p, ap is_refused e ∙ refused))
          | inr fine ↦
              All-map (λ i h. inl h) items
                (answer_items-IsStorable s x.current x.previous x.ids n a fine)
        ])
      (λ fresh s c. inl refl) (λ fresh s c. inl refl) order

explained :
    (ask : DiffPrompt → DiffAnswer) (items : List DiffItem)
    → All (IsExplained ask) items
    → (all is_storable items ≡ true) ⊎ ((all is_storable items ≡ false) × GetsRefused ask)
explained ask [] h = inl refl
explained ask (i ∷ is) (inr refused, hs) = elim (Bool-cases (all is_storable (i ∷ is))) [
  | inl e ↦ inl e
  | inr e ↦ inr (e, refused)
]
explained ask (i ∷ is) (inl storable, hs) = elim (explained ask is hs) [
  | inl e ↦ inl (ground arith)
  | inr (e, refused) ↦ inr (ground arith, refused)
]

-- All items can be stored, or some answer is to blame.
pub all_items-storable :
    (x : DiffContext) (order : List String → List String)
    → (all is_storable (all_items order x) ≡ true)
      ⊎ ((all is_storable (all_items order x) ≡ false) × GetsRefused x.ask)
all_items-storable x order = explained x.ask (all_items order x) (all_items-IsExplained x order)
