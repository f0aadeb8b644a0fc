-- ===== src/Tables/Columns.antt =====
-- `_assess_quality` of services/text_extraction against a description that compares the rows pairwise.
use financial_pdf_reader.Base.{ℕ, ◌*◌, ◌≡◌, refl, ap, ◌∙◌, Bool, ◌||◌, min, max}
use financial_pdf_reader.Base.{List, [], ◌∷◌, any, length, ltb, arith, if◌then◌else◌}
use mathlib.Core.Path.{fun_ext}
use financial_pdf_reader.Documents.{Quality, high_quality, medium_quality, low_quality}
use financial_pdf_reader.Tables.{Row, max_cols, min_cols, quality_of, assess_quality}

-- Some row has fewer than half, or fewer than four fifths, of the cells of another.
abbrev pub has_half_row : List Row → Bool
has_half_row rows = any (λ r. any (λ s. ltb (2 * length r) (length s)) rows) rows

abbrev pub has_short_row : List Row → Bool
has_short_row rows = any (λ r. any (λ s. ltb (5 * length r) (4 * length s)) rows) rows

abbrev pub expected_quality : List Row → Quality
expected_quality rows =
    if ltb (length rows) 2 || has_half_row rows
    then low_quality
    else if has_short_row rows
    then medium_quality
    else high_quality

module _ (p : ℕ → Bool) where
  any-max_cols :
      ((m n : ℕ) → p (max m n) ≡ (p m || p n))
      → (n : ℕ) (rows : List Row) → p (max_cols n rows) ≡ (p n || any (λ r. p (length r)) rows)
  any-max_cols h n [] = ground arith
  any-max_cols h n (r ∷ rs) = ground (arith, any-max_cols h (max n (length r)) rs, h n (length r))

  any-min_cols :
      ((m n : ℕ) → p (min m n) ≡ (p m || p n))
      → (n : ℕ) (rows : List Row) → p (min_cols n rows) ≡ (p n || any (λ r. p (length r)) rows)
  any-min_cols h n [] = ground arith
  any-min_cols h n (r ∷ rs) = ground (arith, any-min_cols h (min n (length r)) rs, h n (length r))

-- The least and the greatest count compare as some pair of rows does.
half_lem :
    (r : Row) (rs : List Row)
    → ltb (2 * min_cols (length r) rs) (max_cols (length r) rs) ≡ has_half_row (r ∷ rs)
half_lem r rs =
    any-min_cols (λ m. ltb (2 * m) (max_cols (length r) rs)) (λ m n. ground arith) (length r) rs
    ∙ ap (λ f. any f (r ∷ rs))
        (fun_ext λ s. any-max_cols (λ m. ltb (2 * length s) m) (λ m n. ground arith) (length r) rs)

short_lem :
    (r : Row) (rs : List Row)
    → ltb (5 * min_cols (length r) rs) (4 * max_cols (length r) rs) ≡ has_short_row (r ∷ rs)
short_lem r rs =
    any-min_cols (λ m. ltb (5 * m) (4 * max_cols (length r) rs)) (λ m n. ground arith) (length r) rs
    ∙ ap (λ f. any f (r ∷ rs))
        (fun_ext
          λ s. any-max_cols (λ m. ltb (5 * length s) (4 * m)) (λ m n. ground arith) (length r) rs)

-- The quality of a table is low exactly if it has fewer than two rows or some row has fewer than half
-- the cells of another, and else medium exactly if some row has fewer than four fifths of the cells of
-- another, and high otherwise.
pub assess_quality-eq-expected_quality :
    (rows : List Row) → assess_quality rows ≡ expected_quality rows
unfolding assess_quality quality_of
assess_quality-eq-expected_quality [] = refl
assess_quality-eq-expected_quality (r ∷ []) = refl
assess_quality-eq-expected_quality (r ∷ s ∷ rs) =
    ground (arith, half_lem r (s ∷ rs), short_lem r (s ∷ rs))
