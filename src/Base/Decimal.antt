-- ===== src/Base/Decimal.antt =====
-- Signed decimal numbers, exact: what `float` reads from a numeral.
--
-- The program compares them with small integers and negates them. Up to 15 significant digits a
-- double compares with an integer as the decimal does.
use financial_pdf_reader.Base.{
  ℕ, ◌*◌, ◌^◌, ◌≤◌, ◌≡◌, Bool, true, not, ◌&&◌, leb, ltb, arith, leb→le,
}
use native.Mathlib.Nat.{
  le_of_mul-le-mul_right, le_trans, mul-le-mul_right, one-le-pow, mul_right_comm,
}

pub record Decimal : Type 0 where
  pub negative : Bool
  pub digits : ℕ
  pub places : ℕ

-- `abs(d) >= n`
abbrev pub abs_ge : Decimal → ℕ → Bool
abs_ge d n = leb (n * 10 ^ d.places) d.digits

-- `abs(d) < n`
abbrev pub abs_lt : Decimal → ℕ → Bool
abs_lt d n = ltb d.digits (n * 10 ^ d.places)

-- `d > 0` and `d < 0`
abbrev pub is_positive : Decimal → Bool
is_positive d = not d.negative && ltb 0 d.digits

abbrev pub is_negative : Decimal → Bool
is_negative d = d.negative && ltb 0 d.digits

-- The order of the magnitudes.
abbrev pub AbsLe : Decimal → Decimal → Type 0
AbsLe d e = d.digits * 10 ^ e.places ≤ e.digits * 10 ^ d.places

scaled_le : (n d e p q : ℕ) → n * 10 ^ p ≤ d → d * 10 ^ q ≤ e * 10 ^ p → n * 10 ^ q ≤ e
scaled_le n d e p q h k =
    le_of_mul-le-mul_right {k = 10 ^ p}
      (rw (mul_right_comm n (10 ^ q) (10 ^ p)) (le_trans (mul-le-mul_right (10 ^ q) h) k))
      (one-le-pow p 10 (omega arith))

pub abs_ge_mono : (d e : Decimal) (n : ℕ) → AbsLe d e → abs_ge d n ≡ true → abs_ge e n ≡ true
abs_ge_mono d e n h k =
    ground (arith, scaled_le n d.digits e.digits d.places e.places (leb→le _ _ k) h)

-- `abs(d) < n` is the negation of `abs(d) >= n`.
pub abs_lt-eq-not : (d : Decimal) (n : ℕ) → abs_lt d n ≡ not (abs_ge d n)
abs_lt-eq-not d n = ground arith

-- A double: the decimal that it is exactly, or an infinity.
pub data Float : Type 0 where
  finite : Decimal → Float
  infinite : Bool → Float

-- `-x`
abbrev pub opposite : Float → Float
opposite (finite d) = finite (record d { negative = not d.negative })
opposite (infinite negative) = infinite (not negative)
