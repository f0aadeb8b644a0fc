-- ===== src/Ingestion/Chunks.antt =====
-- Cutting a page: it ends, the chunks fit, and no visible character is lost.
use financial_pdf_reader.Base.{ℕ, zero, suc, ◌≤◌, ◌<◌}
use financial_pdf_reader.Base.{◌≡◌, refl, sym, ap, ◌∙◌, inl, inr}
use financial_pdf_reader.Base.{false, Option, some}
use financial_pdf_reader.Base.{List, [], ◌∷◌, ◌++◌, arith, ltb}
use financial_pdf_reader.Base.{Bool-cases, Option-cases, length, take, drop}
use financial_pdf_reader.Base.{is_empty}
use financial_pdf_reader.Base.{take-append-drop, length-take-le}
use financial_pdf_reader.Base.{All, nat_eq, string_eq, text_eq}
use financial_pdf_reader.Text.{Text}
use financial_pdf_reader.Text.{is_space}
use financial_pdf_reader.Text.Strip.{strip_by}
use financial_pdf_reader.Ingestion.{
  ChunkData, rfind_newline, break_at, push_segment, push_some, chunk_loop, chunk_page,
}
use mathlib.Core.List.{append-nil}
use financial_pdf_reader.Base.{concat_map}
use financial_pdf_reader.Text.Strip.{visible, visible-append, visible-strip_by, length-strip_by-le}

-- A chunk of a page: it is not empty, it fits and it has the page's number.
abbrev pub IsChunk : ℕ → ℕ → ChunkData → Type 0
IsChunk page max_chars c = (is_empty c.text ≡ false) × (length c.text ≤ max_chars) × (c.page ≡ page)

rfind_newline-lt : (s : Text) {i : ℕ} → rfind_newline s ≡ some i → i < length s
unfolding rfind_newline
rfind_newline-lt [] e = ground arith
rfind_newline-lt (c ∷ s) e = elim (Option-cases (rfind_newline s)) [
  | inl h ↦ ground arith
  | inr (k, h) ↦ ground (arith, rfind_newline-lt s h)
]

-- The cut lies between 1 and the limit.
break_at_bounds :
    (max_chars : ℕ) (s : Text)
    → 0 < max_chars
    → length s ≤ max_chars
    → (0 < break_at max_chars s) × (break_at max_chars s ≤ max_chars)
unfolding break_at
break_at_bounds max_chars s h k = elim (Option-cases (rfind_newline s)) [
  | inl e ↦ ground arith
  | inr (i, e) ↦ ground (arith, rfind_newline-lt s e)
]

-- What a run of the loop must give.
abbrev Cuts : ℕ → ℕ → Text → Option (List ChunkData) → Type 0
Cuts page max_chars text o =
    (cs : List ChunkData) × (o ≡ some cs)
    × All (IsChunk page max_chars) cs
    × (visible is_space (concat_map (λ c. c.text) cs) ≡ visible is_space text)

-- What a run gives for the rest of a text, it gives with a segment put in front.
push_some-Cuts :
    (page max_chars : ℕ) (segment rest text : Text) (o : Option (List ChunkData))
    → length segment ≤ max_chars
    → visible is_space segment ++ visible is_space rest ≡ visible is_space text
    → Cuts page max_chars rest o
    → Cuts page max_chars text (push_some page segment o)
push_some-Cuts page max_chars [] rest text o h v (cs, e, a, w) =
    (cs, ap (push_some page []) e, a, w ∙ v)
push_some-Cuts page max_chars (c ∷ s) rest text o h v (cs, e, a, w) = (
  record { page = page; text = c ∷ s } ∷ cs,
  ap (push_some page (c ∷ s)) e,
  ((refl, h, refl), a),
  visible-append is_space (c ∷ s) (concat_map (λ c. c.text) cs)
      ∙ ap (λ r. visible is_space (c ∷ s) ++ r) w
      ∙ v,
)

length-drop-le : (n : ℕ) (s : Text) → length (drop n s) ≤ length s
length-drop-le zero s = omega arith
length-drop-le (suc n) [] = omega arith
length-drop-le (suc n) (c ∷ s) = omega (arith, length-drop-le n s)

length-drop-lt : (n : ℕ) (s : Text) → 0 < n → 0 < length s → length (drop n s) < length s
length-drop-lt zero s h k = ground arith
length-drop-lt (suc n) [] h k = ground arith
length-drop-lt (suc n) (c ∷ s) h k = omega (arith, length-drop-le n s)

-- A cut loses no visible character.
visible-cut :
    (n : ℕ) (s : Text)
    → visible is_space (strip_by is_space (take n s))
        ++ visible is_space (strip_by is_space (drop n s))
      ≡ visible is_space s
visible-cut n s =
    ap (λ r. r ++ visible is_space (strip_by is_space (drop n s)))
      (visible-strip_by is_space (take n s))
    ∙ ap (λ r. visible is_space (take n s) ++ r) (visible-strip_by is_space (drop n s))
    ∙ sym (visible-append is_space (take n s) (drop n s))
    ∙ ap (visible is_space) (take-append-drop n s)

take-all : (n : ℕ) (s : Text) → length s ≤ n → take n s ≡ s
take-all zero [] h = refl
take-all zero (c ∷ s) h = absurd (omega arith)
take-all (suc n) [] h = refl
take-all (suc n) (c ∷ s) h = ap (λ r. c ∷ r) (take-all n s (omega arith))

-- A text that fits is one chunk.
last-Cuts :
    (page max_chars c : ℕ) (s : Text)
    → length (c ∷ s) ≤ max_chars
    → Cuts page max_chars (c ∷ s) (some (push_segment page (c ∷ s) []))
last-Cuts page max_chars c s h = (
  record { page = page; text = c ∷ s } ∷ [],
  refl,
  ((refl, h, refl), tt),
  ap (visible is_space) (append-nil (c ∷ s)),
)

-- A cut inside the bounds leaves what the rest of the loop gives.
cut-Cuts :
    (page max_chars cut : ℕ) (s : Text) (o : Option (List ChunkData))
    → cut ≤ max_chars
    → Cuts page max_chars (strip_by is_space (drop cut s)) o
    → Cuts page max_chars s (push_some page (strip_by is_space (take cut s)) o)
cut-Cuts page max_chars cut s o h w =
    push_some-Cuts page max_chars (strip_by is_space (take cut s)) (strip_by is_space (drop cut s))
      s o (omega (arith, h, length-strip_by-le is_space (take cut s), length-take-le cut s))
      (visible-cut cut s) w

strip-drop-lt :
    (n c : ℕ) (s : Text) → 0 < n → length (strip_by is_space (drop n (c ∷ s))) < length (c ∷ s)
strip-drop-lt n c s h =
    omega (
      arith,
      length-strip_by-le is_space (drop n (c ∷ s)),
      length-drop-lt n (c ∷ s) h (omega arith),
    )

-- With more fuel than the text is long, the loop ends.
chunk_loop-Cuts :
    (fuel page max_chars : ℕ) (text : Text)
    → 0 < max_chars
    → length text < fuel
    → Cuts page max_chars text (chunk_loop fuel page max_chars text)
unfolding chunk_loop
chunk_loop-Cuts zero page max_chars text h k = absurd (omega arith)
chunk_loop-Cuts (suc fuel) page max_chars [] h k = ([], refl, tt, refl)
chunk_loop-Cuts (suc fuel) page max_chars (c ∷ s) h k =
    elim (Bool-cases (ltb max_chars (length (c ∷ s)))) [
      | inl e ↦ rw e (
          cut-Cuts page max_chars (break_at max_chars (take max_chars (c ∷ s))) (c ∷ s) _ b.1
            (chunk_loop-Cuts fuel page max_chars _ h (omega (arith, k, strip-drop-lt _ c s b.0))))
      | inr e ↦
          rw (e, take-all max_chars (c ∷ s) (ground arith))
            (last-Cuts page max_chars c s (ground arith))
    ]
  where
    b :
        (0 < break_at max_chars (take max_chars (c ∷ s)))
        × (break_at max_chars (take max_chars (c ∷ s)) ≤ max_chars)
    b = break_at_bounds max_chars (take max_chars (c ∷ s)) h (length-take-le max_chars (c ∷ s))

-- For a positive limit the cutting of a page ends; no chunk is empty, longer than the limit or
-- under another page number; and the chunks in order hold the page's text up to white space.
pub chunk_page-Cuts :
    (page max_chars : ℕ) (text : Text)
    → 0 < max_chars
    → (cs : List ChunkData) × (chunk_page page text max_chars ≡ some cs)
      × All (IsChunk page max_chars) cs
      × (visible is_space (concat_map (λ c. c.text) cs) ≡ visible is_space text)
unfolding chunk_page
chunk_page-Cuts page max_chars text h =
    chunk_loop-Cuts (suc (length text)) page max_chars text h (omega arith)
