-- ===== src/Text/Digits.antt =====
-- `str(n)` of a number.
use financial_pdf_reader.Base.{
  ℕ, zero, suc, ◌+◌, ◌/◌, ◌%◌, ◌≡◌, refl, true, false, [], ◌∷◌, ltb, is_empty, arith,
}
use financial_pdf_reader.Text.{Text, codes}

-- The digits of a number in front of those that follow, for as many digits as there is fuel.
unfoldable pub digits_before : ℕ → ℕ → Text → Text
digits_before zero n rest = rest
digits_before (suc fuel) n rest = elim (ltb n 10) [
  | true ↦ (48 + n) ∷ rest
  | false ↦ digits_before fuel (n / 10) ((48 + n % 10) ∷ rest)
]

-- A number has fewer digits than one more than itself.
unfoldable pub decimal : ℕ → Text
unfolding digits_before
decimal n = digits_before (suc n) n []

digits_before-is_empty : (k n c : ℕ) (s : Text) → is_empty (digits_before k n (c ∷ s)) ≡ false
unfolding digits_before
digits_before-is_empty zero n c s = refl
digits_before-is_empty (suc k) n c s =
    ground (arith, digits_before-is_empty k (n / 10) (48 + n % 10) (c ∷ s))

-- A number is not printed as nothing.
pub is_empty-decimal : (n : ℕ) → is_empty (decimal n) ≡ false
unfolding decimal digits_before
is_empty-decimal n = ground (arith, digits_before-is_empty n (n / 10) (48 + n % 10) [])

decimal_test : decimal 1203 ≡ codes "1203"
unfolding decimal
decimal_test = refl
