-- ===== src/Kpis/Digits.antt =====
-- Digits, separators and a decimal point, as `parse_number` of services/kpi_normalization scans them.
use financial_pdf_reader.Base.{ℕ, suc, ◌+◌, ◌*◌, ◌≡◌, refl, ap, ◌∙◌, Bool, true, false}
use financial_pdf_reader.Base.{not, ◌||◌, Option, none, some, [], ◌∷◌, ◌++◌, all}
use financial_pdf_reader.Base.{any, select, is_some, text_eq}
use financial_pdf_reader.Base.{arith, eqb, Bool-cases, Option-cases, inl, inr, count_if}
use financial_pdf_reader.Base.Decimal.{Decimal}
use financial_pdf_reader.Text.{Text, is_space}
use financial_pdf_reader.Text.Stripped.{}
use financial_pdf_reader.Text.Numerals.{digit_of, scan_digits, scan_fraction, scan_number}
use financial_pdf_reader.Base.{length}
use financial_pdf_reader.Kpis.{is_percent, is_comma, number_of, signed_number}

abbrev pub is_digit : ℕ → Bool
is_digit c = is_some (digit_of c)

-- Digits and separators.
abbrev pub is_mark : ℕ → Bool
is_mark c = is_digit c || is_comma c

abbrev pub with_digit : ℕ → Option ℕ → ℕ
with_digit v none = v
with_digit v (some d) = v * 10 + d

-- The number that the digits of a text are, from the first on.
abbrev pub value_of : ℕ → Text → ℕ
value_of v [] = v
value_of v (c ∷ s) = value_of (with_digit v (digit_of c)) s

-- The number of the digits, of which so many stand behind the point.
abbrev pub numeral : ℕ → ℕ → Decimal
numeral digits places = record { negative = false; digits = digits; places = places }

abbrev pub without_commas : Text → Text
without_commas = select (λ c. not (is_comma c))

-- A digit is none of the characters that the parser looks for.
pub digit-cases :
    (c : ℕ)
    → is_digit c ≡ true
    → (is_comma c ≡ false)
      × (is_space c ≡ false)
      × (is_percent c ≡ false)
      × (eqb c b'-' ≡ false)
      × (eqb c b'(' ≡ false)
      × (eqb c 0xff08 ≡ false)
unfolding digit_of is_comma is_space is_percent
digit-cases c h = ground arith

mark-cases : (c : ℕ) → is_mark c ≡ true → (is_space c ≡ false) × (is_percent c ≡ false)
unfolding digit_of is_comma is_space is_percent
mark-cases c h = ground arith

pub comma-cases : (c : ℕ) → is_comma c ≡ true → digit_of c ≡ none
unfolding digit_of is_comma
comma-cases c h = ground arith

scan_digits-cons :
    (v n c d : ℕ) (s : Text)
    → digit_of c ≡ some d
    → scan_digits v n (c ∷ s) ≡ scan_digits (v * 10 + d) (suc n) s
unfolding scan_digits
scan_digits-cons v n c d s e = rw (e, scan_digits) refl

-- Digits with nothing behind them.
scan_digits-digits :
    (v n : ℕ) (t : Text)
    → all is_digit t ≡ true
    → scan_digits v n t ≡ (value_of v t, n + length t, [])
unfolding scan_digits
scan_digits-digits v n [] h = ap (λ k. (v, k, [])) (omega arith)
scan_digits-digits v n (c ∷ t) h = elim (Option-cases (digit_of c)) [
  | inl none_read ↦ absurd (ground arith)
  | inr (d, e) ↦
      scan_digits-cons v n c d t e
      ∙ scan_digits-digits (v * 10 + d) (suc n) t (ground arith)
      ∙ rw e (ap (λ i. (value_of (v * 10 + d) t, i, [])) (omega arith))
]

-- A decimal point and the digits behind it, if there are any.
abbrev pub point : Text → Text
point [] = []
point (c ∷ t) = b'.' ∷ c ∷ t

without_commas-digits : (t : Text) → all is_digit t ≡ true → without_commas t ≡ t
without_commas-digits [] h = refl
without_commas-digits (c ∷ t) h = ground (arith, digit-cases c, without_commas-digits t)

without_commas-point : (t : Text) → all is_digit t ≡ true → without_commas (point t) ≡ point t
unfolding is_comma
without_commas-point [] h = refl
without_commas-point (c ∷ t) h = ap (λ u. b'.' ∷ u) (without_commas-digits (c ∷ t) h)

-- The digits in front of the point end there.
scan_digits-point : (v n : ℕ) (t : Text) → scan_digits v n (point t) ≡ (v, n, point t)
unfolding scan_digits digit_of
scan_digits-point v n [] = refl
scan_digits-point v n (c ∷ t) = refl

-- What is left to read once the commas are gone, from the number read so far.
scan_digits-marks :
    (v n : ℕ) (s t : Text)
    → all is_mark s ≡ true
    → all is_digit t ≡ true
    → scan_digits v n (without_commas (s ++ point t))
      ≡ (value_of v s, n + count_if is_digit s, point t)
scan_digits-marks v n [] t h k =
    ap (scan_digits v n) (without_commas-point t k)
    ∙ scan_digits-point v n t
    ∙ ap (λ i. (v, i, point t)) (omega arith)
scan_digits-marks v n (c ∷ s) t h k = elim (Bool-cases (is_comma c)) [
  | inl comma ↦ rw comma (rw (comma-cases c comma) (scan_digits-marks v n s t (ground arith) k))
  | inr other ↦ elim (Option-cases (digit_of c)) [
    | inl none_read ↦ absurd (ground arith)
    | inr (d, e) ↦ rw other (
        scan_digits-cons v n c d (without_commas (s ++ point t)) e
        ∙ scan_digits-marks (v * 10 + d) (suc n) s t (ground arith) k
        ∙ rw e (ap (λ i. (value_of (v * 10 + d) s, i, point t)) (omega arith)))
  ]
]

scan_fraction-point :
    (v : ℕ) (t : Text)
    → all is_digit t ≡ true
    → scan_fraction v (point t) ≡ (value_of v t, length t, [])
scan_fraction-point v [] h = refl
scan_fraction-point v (c ∷ t) h = rw (scan_digits-digits v 0 (c ∷ t) h) (ground arith)

counted : (n : ℕ) → eqb (1 + n) 0 ≡ false
counted n = ground arith

scan_number-marks :
    (c : ℕ) (s t : Text)
    → is_digit c ≡ true
    → all is_mark s ≡ true
    → all is_digit t ≡ true
    → scan_number (c ∷ without_commas (s ++ point t))
      ≡ some (value_of (value_of 0 (c ∷ s)) t, length t, [])
unfolding scan_number
scan_number-marks c s t h k l = elim (Option-cases (digit_of c)) [
  | inl none_read ↦ absurd (ground arith)
  | inr (d, e) ↦ rw (scan_digits-cons 0 0 c d (without_commas (s ++ point t)) e) (
      rw (scan_digits-marks (0 * 10 + d) 1 s t k l) (
        rw (counted (count_if is_digit s))
          (rw e (ap some (scan_fraction-point (value_of (0 * 10 + d) s) t l)))))
]

-- A numeral whose commas are gone.
pub signed_number-marks :
    (c : ℕ) (s t : Text)
    → is_digit c ≡ true
    → all is_mark s ≡ true
    → all is_digit t ≡ true
    → signed_number (without_commas (c ∷ (s ++ point t)))
      ≡ some (numeral (value_of (value_of 0 (c ∷ s)) t) (length t))
unfolding signed_number
signed_number-marks c s t h k l =
    let (no_comma, _, _, no_minus, _, _) = digit-cases c h in
    rw no_comma (rw no_minus (ap (number_of false) (scan_number-marks c s t h k l)))

pub all-digits :
    (t : Text)
    → all is_digit t ≡ true
    → (any is_space (point t) ≡ false) × (any is_percent (point t) ≡ false)
unfolding is_space is_percent
all-digits [] h = (refl, refl)
all-digits (c ∷ t) h = ground (arith, plain_digits (c ∷ t) h)
  where
    plain_digits :
        (u : Text) → all is_digit u ≡ true → (any is_space u ≡ false) × (any is_percent u ≡ false)
    plain_digits [] h = (refl, refl)
    plain_digits (d ∷ u) h = ground (arith, digit-cases d, plain_digits u)

pub all-marks :
    (s : Text) → all is_mark s ≡ true → (any is_space s ≡ false) × (any is_percent s ≡ false)
all-marks [] h = (refl, refl)
all-marks (c ∷ s) h = ground (arith, mark-cases c, all-marks s)
