-- ===== src/Kpis/Printed.antt =====
-- `parse_number` of services/kpi_normalization on numbers that are printed in decimal.
use financial_pdf_reader.Base.{
  ℕ, zero, suc, ◌+◌, ◌*◌, ◌/◌, ◌%◌, ◌<◌, ◌≡◌, refl, ap, ◌∙◌, sym, true, false,
}
use financial_pdf_reader.Base.{some, [], ◌∷◌, ◌++◌, all, ltb, arith, Bool-cases, inl, inr}
use financial_pdf_reader.Base.{length}
use financial_pdf_reader.Base.Decimal.{Decimal, Float, opposite}
use financial_pdf_reader.Text.{Text}
use financial_pdf_reader.Text.Digits.{digits_before, decimal}
use financial_pdf_reader.Text.Numerals.{digit_of}
use financial_pdf_reader.Kpis.{is_comma, parse_number}
use financial_pdf_reader.Kpis.Digits.{
  is_digit, is_mark, with_digit, value_of, numeral, point, without_commas, comma-cases,
}
use financial_pdf_reader.Kpis.Numbers.{parse_number-marks}

digit_of-code : (n : ℕ) → n < 10 → digit_of (48 + n) ≡ some n
unfolding digit_of
digit_of-code n h = ground arith

value_of-code : (v n : ℕ) (s : Text) → n < 10 → value_of v ((48 + n) ∷ s) ≡ value_of (v * 10 + n) s
value_of-code v n s h = rw (digit_of-code n h) refl

digits_before-none : (n : ℕ) (s : Text) → digits_before zero n s ≡ s
unfolding digits_before
digits_before-none n s = refl

digits_before-last :
    (k n : ℕ) (s : Text) → ltb n 10 ≡ true → digits_before (suc k) n s ≡ (48 + n) ∷ s
unfolding digits_before
digits_before-last k n s h = rw (h, digits_before) refl

digits_before-more :
    (k n : ℕ) (s : Text)
    → ltb n 10 ≡ false
    → digits_before (suc k) n s ≡ digits_before k (n / 10) ((48 + n % 10) ∷ s)
unfolding digits_before
digits_before-more k n s h = rw (h, digits_before) refl

value_of-digits_before :
    (k n : ℕ) (s : Text) → n < k → value_of 0 (digits_before k n s) ≡ value_of n s
value_of-digits_before zero n s h = absurd (omega arith)
value_of-digits_before (suc k) n s h = elim (Bool-cases (ltb n 10)) [
  | inl last ↦
      rw (digits_before-last k n s last)
        (value_of-code 0 n s (ground arith) ∙ ap (λ i. value_of i s) (omega arith))
  | inr more ↦ rw (digits_before-more k n s more) (
      value_of-digits_before k (n / 10) ((48 + n % 10) ∷ s) (ground arith)
      ∙ value_of-code (n / 10) (n % 10) s (omega arith)
      ∙ ap (λ i. value_of i s) (omega arith))
]

all-digits_before :
    (k n : ℕ) (s : Text) → all is_digit s ≡ true → all is_digit (digits_before k n s) ≡ true
all-digits_before zero n s h = rw (digits_before-none n s) h
all-digits_before (suc k) n s h = elim (Bool-cases (ltb n 10)) [
  | inl last ↦ rw (digits_before-last k n s last) (rw (digit_of-code n (ground arith)) h)
  | inr more ↦ rw (digits_before-more k n s more) (
      all-digits_before k (n / 10) ((48 + n % 10) ∷ s)
        (rw (digit_of-code (n % 10) (omega arith)) h))
]

-- A text of which only digits stay when the commas are gone is one of digits and commas, with the
-- value of those digits.
all-without_commas : (s : Text) → all is_digit (without_commas s) ≡ true → all is_mark s ≡ true
all-without_commas [] h = refl
all-without_commas (c ∷ s) h = ground (arith, all-without_commas s)

value_of-without_commas : (v : ℕ) (s : Text) → value_of v (without_commas s) ≡ value_of v s
value_of-without_commas v [] = refl
value_of-without_commas v (c ∷ s) = elim (Bool-cases (is_comma c)) [
  | inl comma ↦ rw comma (rw (comma-cases c comma) (value_of-without_commas v s))
  | inr other ↦ rw other (value_of-without_commas (with_digit v (digit_of c)) s)
]

all-decimal : (n : ℕ) → all is_digit (decimal n) ≡ true
unfolding decimal
all-decimal n = all-digits_before (suc n) n [] refl

value_of-decimal : (n : ℕ) → value_of 0 (decimal n) ≡ n
unfolding decimal
value_of-decimal n = value_of-digits_before (suc n) n [] (omega arith)

value_of-printed : (n : ℕ) (s : Text) → without_commas s ≡ decimal n → value_of 0 s ≡ n
value_of-printed n s h = sym (value_of-without_commas 0 s) ∙ ap (value_of 0) h ∙ value_of-decimal n

all-printed : (n : ℕ) (s : Text) → without_commas s ≡ decimal n → all is_mark s ≡ true
all-printed n s h = all-without_commas s (rw h (all-decimal n))

-- A number that is printed in decimal, with commas at any places behind its first digit and maybe a
-- point and more digits, is read as the double of the numeral: its digits, and how many of them are
-- behind the point. In parentheses, of either width, it is the opposite of that; and a percent sign
-- changes nothing.
pub parse_number-decimal :
    (float : Decimal → Float) (n c : ℕ) (s t : Text)
    → is_digit c ≡ true
    → without_commas (c ∷ s) ≡ decimal n
    → all is_digit t ≡ true
    → let value = float (numeral (value_of n t) (length t)) in
      (parse_number float (c ∷ (s ++ point t)) ≡ some value)
      × (parse_number float (b'(' ∷ ((c ∷ (s ++ point t)) ++ b')' ∷ [])) ≡ some (opposite value))
      × (parse_number float (0xff08 ∷ ((c ∷ (s ++ point t)) ++ 0xff09 ∷ []))
          ≡ some (opposite value))
      × (parse_number float ((c ∷ (s ++ point t)) ++ b'%' ∷ []) ≡ some value)
parse_number-decimal float n c s t leads printed digits =
    let marks = all-printed n (c ∷ s) printed in
    let (plain, narrow, wide, percent) =
      parse_number-marks float c s t leads (ground (arith, marks)) digits in
    let same : float (numeral (value_of (value_of 0 (c ∷ s)) t) (length t))
        ≡ float (numeral (value_of n t) (length t)) =
      ap (λ i. float (numeral (value_of i t) (length t))) (value_of-printed n (c ∷ s) printed) in
    (
      plain ∙ ap some same,
      narrow ∙ ap (λ x. some (opposite x)) same,
      wide ∙ ap (λ x. some (opposite x)) same,
      percent ∙ ap some same,
    )
