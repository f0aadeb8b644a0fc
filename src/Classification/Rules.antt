-- ===== src/Classification/Rules.antt =====
-- The choice of the rules: a section of the table with the most keywords in the text.
use financial_pdf_reader.Base.{ℕ, ◌≤◌, ◌<◌}
use financial_pdf_reader.Base.{String, ◌≡◌, refl, sym, inl, inr}
use financial_pdf_reader.Base.{Bool, true, false, Option, none, some}
use financial_pdf_reader.Base.{List, [], ◌∷◌, arith, ltb, if◌then◌else◌}
use financial_pdf_reader.Base.{Bool-cases}
use financial_pdf_reader.Base.{All, nat_eq, string_eq, text_eq}
use financial_pdf_reader.Text.{Text}
use financial_pdf_reader.Base.Dict.{Dict}
use financial_pdf_reader.Classification.{
  section_keywords, score, scores, best_from, best_of, classify_by_rule,
}
use mathlib.Core.List.{Memᴰ}
use financial_pdf_reader.Base.{subst}

best_from-max :
    (s : String) (n : ℕ) (d : Dict String ℕ)
    → (m : ℕ) × Memᴰ (best_from s n d, m) ((s, n) ∷ d) × All (λ (_, k). k ≤ m) ((s, n) ∷ d)
unfolding best_from
best_from-max s n [] = (n, Memᴰ.head refl, (omega arith, tt))
best_from-max s n ((t, k) ∷ d) =
    let (i, mem_i, (le_k, all_i)) = best_from-max t k d in
    let (j, mem_j, (le_n, all_j)) = best_from-max s n d in
    elim (Bool-cases (ltb n k)) [
      | inl e ↦ rw e (i, Memᴰ.tail mem_i, (ground arith, (le_k, all_i)))
      | inr e ↦ rw e (j, skip mem_j, (le_n, (ground arith, all_j)))
    ]
  where
    skip :
        {j : ℕ}
        → Memᴰ (best_from s n d, j) ((s, n) ∷ d)
        → Memᴰ (best_from s n d, j) ((s, n) ∷ (t, k) ∷ d)
    skip (Memᴰ.head e) = Memᴰ.head e
    skip (Memᴰ.tail h) = Memᴰ.tail (Memᴰ.tail h)

-- An entry of the scores is a section of the table with its positive score.
abbrev IsScore : Text → Dict String (List Text) → String × ℕ → Type 0
IsScore text table (s, m) = (ks : List Text) × Memᴰ (s, ks) table × (m ≡ score text ks) × (0 < m)

IsScore-cons :
    (text : Text) (t : String) (js : List Text) (table : Dict String (List Text)) (p : String × ℕ)
    → IsScore text table p
    → IsScore text ((t, js) ∷ table) p
IsScore-cons text t js table (s, m) (ks, listed, same, pos) = (ks, Memᴰ.tail listed, same, pos)

scores-step :
    (text : Text) (t : String) (js : List Text) (table : Dict String (List Text)) (b : Bool)
    (p : String × ℕ)
    → (b ≡ true → 0 < score text js)
    → (Memᴰ p (scores text table) → IsScore text table p)
    → Memᴰ p (if b then (t, score text js) ∷ scores text table else scores text table)
    → IsScore text ((t, js) ∷ table) p
scores-step text t js table false p pos old h = IsScore-cons text t js table p (old h)
scores-step text t js table true p pos old (Memᴰ.head e) =
    subst (IsScore text ((t, js) ∷ table)) (sym e) (js, Memᴰ.head refl, refl, pos refl)
scores-step text t js table true p pos old (Memᴰ.tail h) = IsScore-cons text t js table p (old h)

scores_sound :
    (text : Text) (table : Dict String (List Text)) (p : String × ℕ)
    → Memᴰ p (scores text table)
    → IsScore text table p
unfolding scores
scores_sound text [] p h = elim h [ ]
scores_sound text ((t, js) ∷ table) p h =
    scores-step text t js table (ltb 0 (score text js)) p (λ e. ground arith)
      (scores_sound text table p) h

bound-step :
    (text : Text) (table : Dict String (List Text)) (n m : ℕ) (t : String) (b : Bool)
    → (b ≡ false → n ≡ 0)
    → All (λ (_, k). k ≤ m) (if b then (t, n) ∷ scores text table else scores text table)
    → (n ≤ m) × All (λ (_, k). k ≤ m) (scores text table)
bound-step text table n m t false none_at h = (omega (arith, none_at refl), h)
bound-step text table n m t true none_at h = h

scores_bound :
    (text : Text) (table : Dict String (List Text)) (m : ℕ)
    → All (λ (_, k). k ≤ m) (scores text table)
    → All (λ (_, ks). score text ks ≤ m) table
unfolding scores
scores_bound text [] m h = tt
scores_bound text ((t, ks) ∷ table) m h =
    let (first, rest) =
      bound-step text table (score text ks) m t (ltb 0 (score text ks)) (λ e. ground arith) h in
    (first, scores_bound text table m rest)

-- What the rules give for a table: nothing if no keyword is in the text, and else a section of the
-- table with a positive score that no other exceeds.
abbrev pub IsBest : Text → Dict String (List Text) → Option String → Type 0
IsBest text table none = All (λ (_, ks). score text ks ≤ 0) table
IsBest text table (some s) =
    (ks : List Text) × Memᴰ (s, ks) table
    × (0 < score text ks)
    × All (λ (_, js). score text js ≤ score text ks) table

best_of-IsBest :
    (text : Text) (table : Dict String (List Text)) (d : Dict String ℕ)
    → ((p : String × ℕ) → Memᴰ p d → IsScore text table p)
    → ((m : ℕ) → All (λ (_, k). k ≤ m) d → All (λ (_, ks). score text ks ≤ m) table)
    → IsBest text table (best_of d)
best_of-IsBest text table [] sound bound = bound 0 tt
best_of-IsBest text table ((s, n) ∷ d) sound bound =
    let (m, mem, top) = best_from-max s n d in
    let (ks, listed, same, pos) = sound (best_from s n d, m) mem in
    (
      ks,
      listed,
      omega (arith, same, pos),
      subst (λ k. All (λ (_, js). score text js ≤ k) table) same (bound m top),
    )

-- The rules choose a section with the most keywords in the text, for the table of the program;
-- they choose none only if no keyword of any section is in the text.
pub classify_by_rule-IsBest : (text : Text) → IsBest text section_keywords (classify_by_rule text)
unfolding classify_by_rule
classify_by_rule-IsBest text =
    best_of-IsBest text section_keywords (scores text section_keywords)
      (scores_sound text section_keywords) (scores_bound text section_keywords)
