-- ===== src/Text/Numerals.antt =====
-- Decimal numerals at the start of a text, as `re` matches them.
--
-- The digits of `\d` are the ASCII and the full-width ones.
use financial_pdf_reader.Base.{ℕ, suc, ◌+◌, ◌-◌, ◌*◌, ◌&&◌, Option, none, some}
use financial_pdf_reader.Base.{[], ◌∷◌, ltb, leb, eqb, if◌then◌else◌}
use financial_pdf_reader.Text.{Text}

-- The value of a digit.
unfoldable pub digit_of : ℕ → Option ℕ
digit_of c =
    if leb b'0' c && leb c b'9'
    then some (c - b'0')
    else if leb 0xff10 c && leb c 0xff19
    then some (c - 0xff10)
    else none

-- `\d*`, greedy: the number read so far, how many digits it has, and the rest.
unfoldable pub scan_digits : ℕ → ℕ → Text → ℕ × ℕ × Text
unfolding digit_of
scan_digits value count [] = (value, count, [])
scan_digits value count (c ∷ s) = elim (digit_of c) [
  | none ↦ (value, count, c ∷ s)
  | some n ↦ scan_digits (value * 10 + n) (suc count) s
]

-- `\d+(?:\.\d+)?` at the start of a text: the digits, the decimal places and the rest.
abbrev pub scan_fraction : ℕ → Text → ℕ × ℕ × Text
scan_fraction value [] = (value, 0, [])
scan_fraction value (c ∷ s) =
    let (value', places, rest) = scan_digits value 0 s in
    if eqb c b'.' && ltb 0 places then (value', places, rest) else (value, 0, c ∷ s)

unfoldable pub scan_number : Text → Option (ℕ × ℕ × Text)
unfolding scan_digits
scan_number s =
    let (value, count, rest) = scan_digits 0 0 s in
    if eqb count 0 then none else some (scan_fraction value rest)
