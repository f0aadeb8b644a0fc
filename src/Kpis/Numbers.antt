-- ===== src/Kpis/Numbers.antt =====
-- What `parse_number` of services/kpi_normalization reads from the numbers of a financial statement:
-- digits with separators, in parentheses, or with a percent sign.
use financial_pdf_reader.Base.{ℕ, ◌≡◌, refl, ap, ◌∙◌, Bool, true, false}
use financial_pdf_reader.Base.{Option, none, some, [], ◌∷◌, ◌++◌, all}
use financial_pdf_reader.Base.{any, contains, text_eq}
use financial_pdf_reader.Base.{arith, eqb, eqb_iff}
use financial_pdf_reader.Base.Decimal.{Decimal, Float, opposite}
use mathlib.Core.Option
use financial_pdf_reader.Text.{Text, is_space}
use financial_pdf_reader.Text.Stripped.{
  IsStripped, enclosed-IsStripped, strip_by-IsStripped_lem, rstrip_by-snoc, rstrip_by-snoc_out,
  rstrip_by-out,
}
use financial_pdf_reader.Text.Numerals.{digit_of}
use financial_pdf_reader.Text.Joined.{any-append}
use financial_pdf_reader.Base.{length}
use financial_pdf_reader.Kpis.{
  blank_tokens, before_mark, between_marks, unwrapped, is_percent, negated, read_number,
  parse_number,
}
use financial_pdf_reader.Kpis.Digits.{
  is_digit, is_mark, value_of, numeral, digit-cases, point, signed_number-marks, all-digits,
  all-marks,
}

-- One character at the end of a text.
before_mark-snoc : (m : ℕ) (s : Text) → before_mark m (s ++ m ∷ []) ≡ some s
unfolding before_mark
before_mark-snoc m [] = ground arith
before_mark-snoc m (c ∷ []) = ground arith
before_mark-snoc m (c ∷ d ∷ s) = ap (Option.map (λ r. c ∷ r)) (before_mark-snoc m (d ∷ s))

between_marks-out : (o m c : ℕ) (t : Text) → eqb c o ≡ false → between_marks o m (c ∷ t) ≡ none
unfolding between_marks
between_marks-out o m c t h = rw h refl

between_marks-in : (o m : ℕ) (t : Text) → between_marks o m (o ∷ (t ++ m ∷ [])) ≡ some t
unfolding between_marks
between_marks-in o m t = rw ((eqb_iff o o).1 refl) (before_mark-snoc m t)

unwrapped-first :
    (t inner : Text) → between_marks b'(' b')' t ≡ some inner → unwrapped t ≡ (true, inner)
unfolding unwrapped
unwrapped-first t inner h = rw (h, unwrapped) refl

unwrapped-second :
    (t : Text) (m : Option Text)
    → between_marks b'(' b')' t ≡ none
    → between_marks 0xff08 0xff09 t ≡ m
    → unwrapped t ≡ elim m [ some inner ↦ (true, inner) | none ↦ (false, t) ]
unfolding unwrapped
unwrapped-second t m h k = rw (h, k, unwrapped) refl

-- A numeral: a digit, digits and commas, and maybe a point with digits behind it.
module _ (float : Decimal → Float) (c : ℕ) (s t : Text) (leads : is_digit c ≡ true)
    (marks : all is_mark s ≡ true) (digits : all is_digit t ≡ true) where
  abbrev rest : Text
  rest = s ++ point t

  abbrev value : Float
  value = float (numeral (value_of (value_of 0 (c ∷ s)) t) (length t))

  numeral-plain : (any is_space (c ∷ rest) ≡ false) × (any is_percent (c ∷ rest) ≡ false)
  numeral-plain = ground (
    arith,
    digit-cases c leads,
    all-marks s marks,
    all-digits t digits,
    any-append is_space s (point t),
    any-append is_percent s (point t),
  )

  numeral-IsStripped : IsStripped is_space (c ∷ rest)
  numeral-IsStripped = record {
    left = (digit-cases c leads).1;
    right = rstrip_by-out is_space (c ∷ rest) numeral-plain.0;
  }

  read_number-marks :
      (negative : Bool) → read_number float negative (c ∷ rest) ≡ some (negated negative value)
  unfolding read_number
  read_number-marks negative = rw (rstrip_by-out is_percent (c ∷ rest) numeral-plain.1) (
      rw (strip_by-IsStripped_lem is_space (c ∷ rest) numeral-IsStripped)
        (rw (signed_number-marks c s t leads marks digits) refl))

  no_token : (u : Text) → contains blank_tokens (c ∷ u) ≡ false
  unfolding digit_of
  no_token u = ground arith

  unwrapped-numeral : (u : Text) → unwrapped (c ∷ u) ≡ (false, c ∷ u)
  unwrapped-numeral u =
      unwrapped-second (c ∷ u) none (between_marks-out b'(' b')' c u (digit-cases c leads).4)
        (between_marks-out 0xff08 0xff09 c u (digit-cases c leads).5)

  parse_number-numeral : parse_number float (c ∷ rest) ≡ some value
  unfolding parse_number
  parse_number-numeral =
      rw (strip_by-IsStripped_lem is_space (c ∷ rest) numeral-IsStripped)
        (rw (no_token rest) (rw (unwrapped-numeral rest) (read_number-marks false)))

  parse_number-parentheses :
      parse_number float (b'(' ∷ ((c ∷ rest) ++ b')' ∷ [])) ≡ some (opposite value)
  unfolding parse_number is_space
  parse_number-parentheses =
      rw
        (strip_by-IsStripped_lem is_space (b'(' ∷ ((c ∷ rest) ++ b')' ∷ []))
          (enclosed-IsStripped is_space b'(' (c ∷ rest) b')' refl refl))
        (rw
          (unwrapped-first (b'(' ∷ ((c ∷ rest) ++ b')' ∷ [])) (c ∷ rest)
            (between_marks-in b'(' b')' (c ∷ rest)))
          (read_number-marks true))

  parse_number-wide_parentheses :
      parse_number float (0xff08 ∷ ((c ∷ rest) ++ 0xff09 ∷ [])) ≡ some (opposite value)
  unfolding parse_number is_space
  parse_number-wide_parentheses =
      rw
        (strip_by-IsStripped_lem is_space (0xff08 ∷ ((c ∷ rest) ++ 0xff09 ∷ []))
          (enclosed-IsStripped is_space 0xff08 (c ∷ rest) 0xff09 refl refl))
        (rw
          (unwrapped-second (0xff08 ∷ ((c ∷ rest) ++ 0xff09 ∷ [])) (some (c ∷ rest))
            (between_marks-out b'(' b')' 0xff08 ((c ∷ rest) ++ 0xff09 ∷ []) refl)
            (between_marks-in 0xff08 0xff09 (c ∷ rest)))
          (read_number-marks true))

  percent-IsStripped : IsStripped is_space ((c ∷ rest) ++ b'%' ∷ [])
  unfolding is_space
  percent-IsStripped = record {
    left = (digit-cases c leads).1;
    right = rstrip_by-snoc_out is_space (c ∷ rest) b'%' refl;
  }

  read_number-percent :
      read_number float false ((c ∷ rest) ++ b'%' ∷ []) ≡ read_number float false (c ∷ rest)
  unfolding read_number is_percent
  read_number-percent = rw (rstrip_by-snoc is_percent (c ∷ rest) b'%' refl) refl

  parse_number-percent : parse_number float ((c ∷ rest) ++ b'%' ∷ []) ≡ some value
  unfolding parse_number
  parse_number-percent =
      rw (strip_by-IsStripped_lem is_space ((c ∷ rest) ++ b'%' ∷ []) percent-IsStripped) (
        rw (no_token (rest ++ b'%' ∷ [])) (
          rw (unwrapped-numeral (rest ++ b'%' ∷ []))
            (read_number-percent ∙ read_number-marks false)))

  -- A numeral is read as the double of its digits; in parentheses, of either width, as the opposite;
  -- and with a percent sign behind it as the numeral alone.
  pub parse_number-marks :
      (parse_number float (c ∷ rest) ≡ some value)
      × (parse_number float (b'(' ∷ ((c ∷ rest) ++ b')' ∷ [])) ≡ some (opposite value))
      × (parse_number float (0xff08 ∷ ((c ∷ rest) ++ 0xff09 ∷ [])) ≡ some (opposite value))
      × (parse_number float ((c ∷ rest) ++ b'%' ∷ []) ≡ some value)
  parse_number-marks = (
    parse_number-numeral, parse_number-parentheses, parse_number-wide_parentheses,
    parse_number-percent,
  )
