-- ===== src/Base/Strings.antt =====
-- The order of native strings, which is the one of Python's `sorted`: by code points, from the first on.
use financial_pdf_reader.Base.{ℕ, zero, suc, ◌<◌, String, ◌≡◌, refl, ap, ◌∙◌, ◌⊎◌, inl, inr}
use financial_pdf_reader.Base.{Bool, true, false, ◌&&◌, ◌||◌, ltb, eqb, arith}
use Prim.Native.Nat.compare as compare_ℕ
use Prim.Native.Nat.{Ordering, compare as compare_ℕ}
use Prim.Native.Char.{Char, code}
use Prim.Native.String.compare as compare_strings
use Prim.Native.String.{[], ◌∷◌, compare as compare_strings, then}
use text.Mathlib.Text.{is_le}

abbrev pub string_le : String → String → Bool
string_le s t = is_le (compare_strings s t)

-- The three answers of a comparison.
compare-cases :
    (m n : ℕ)
    → (m < n) × (compare_ℕ m n ≡ Ordering.lt)
      ⊎ (m ≡ n) × (compare_ℕ m n ≡ Ordering.eq)
      ⊎ (n < m) × (compare_ℕ m n ≡ Ordering.gt)
compare-cases zero zero = inr (inl (refl, compare_ℕ.zero-zero))
compare-cases zero (suc n) = inl (omega arith, compare_ℕ.zero-suc n)
compare-cases (suc m) zero = inr (inr (omega arith, compare_ℕ.suc-zero m))
compare-cases (suc m) (suc n) = elim (compare-cases m n) [
  | inl (h, e) ↦ inl (omega (arith, h), compare_ℕ.suc-suc m n ∙ e)
  | inr (inl (h, e)) ↦ inr (inl (ap suc h, compare_ℕ.suc-suc m n ∙ e))
  | inr (inr (h, e)) ↦ inr (inr (omega (arith, h), compare_ℕ.suc-suc m n ∙ e))
]

string_le-cons :
    (c d : Char) (s t : String)
    → string_le (c ∷ s) (d ∷ t)
      ≡ (ltb (code c) (code d) || (eqb (code c) (code d) && string_le s t))
string_le-cons c d s t =
    ap is_le (compare_strings.cons-cons c d s t) ∙ (elim (compare-cases (code c) (code d)) [
      | inl (h, e) ↦ ap (λ o. is_le (then o (compare_strings s t))) e ∙ ground (arith, h)
      | inr (inl (h, e)) ↦ ap (λ o. is_le (then o (compare_strings s t))) e ∙ ground (arith, h)
      | inr (inr (h, e)) ↦ ap (λ o. is_le (then o (compare_strings s t))) e ∙ ground (arith, h)
    ])

string_le-nil : (t : String) → string_le [] t ≡ true
string_le-nil [] = ap is_le compare_strings.nil-nil
string_le-nil (d ∷ t) = ap is_le (compare_strings.nil-cons d t)

cons-string_le-nil : (c : Char) (s : String) → string_le (c ∷ s) [] ≡ false
cons-string_le-nil c s = ap is_le (compare_strings.cons-nil c s)

pub string_le_total : (s t : String) → string_le s t ≡ false → string_le t s ≡ true
string_le_total [] t h = absurd (ground (arith, string_le-nil t))
string_le_total (c ∷ s) [] h = string_le-nil (c ∷ s)
string_le_total (c ∷ s) (d ∷ t) h =
    ground (arith, string_le-cons c d s t, string_le-cons d c t s, string_le_total s t)

pub string_le_trans :
    (r s t : String) → string_le r s ≡ true → string_le s t ≡ true → string_le r t ≡ true
string_le_trans [] s t h k = string_le-nil t
string_le_trans (c ∷ r) [] t h k = absurd (ground (arith, cons-string_le-nil c r))
string_le_trans (c ∷ r) (d ∷ s) [] h k = absurd (ground (arith, cons-string_le-nil d s))
string_le_trans (c ∷ r) (d ∷ s) (e ∷ t) h k = ground (
  arith,
  string_le-cons c d r s,
  string_le-cons d e s t,
  string_le-cons c e r t,
  string_le_trans r s t,
)
