-- ===== src/Text.antt =====
-- The operations of Python's `str` that the program uses, over lists of code points.
--
-- `lower` maps the ASCII letters, and the two other code points whose lower case holds an ASCII
-- letter (U+0130 and U+212A); other cased letters are kept. The program uses `str.lower` only to
-- look for phrases of ASCII and caseless characters, which this `lower` finds where Python's does.
pub mod Strip
pub mod Stripped
pub mod Lines
pub mod Joined
pub mod Numerals
pub mod Digits
pub mod Blocks
use Prim.Native.Char.{code}
use Prim.Native.String
use financial_pdf_reader.Base.{ℕ, zero, suc, ◌+◌, String, ◌≡◌, refl, Bool, true, false, ◌&&◌}
use financial_pdf_reader.Base.{◌||◌, List, [], ◌∷◌, ◌++◌, leb, eqb, any, if◌then◌else◌, contains}
use financial_pdf_reader.Base.{nat_eq, text_eq, ◌==◌}

abbrev pub Text : Type 0
Text = List ℕ

-- The code points of a literal.
abbrev pub codes : String → Text
codes String.[] = []
codes (String.◌∷◌ c s) = code c ∷ codes s

abbrev pub texts : List String → List Text
texts [] = []
texts (s ∷ ss) = codes s ∷ texts ss

unfoldable pub lower_char : ℕ → Text
lower_char c =
    if leb b'A' c && leb c b'Z'
    then (c + 32) ∷ []
    else if eqb c 0x130
    then 0x69 ∷ 0x307 ∷ []
    else if eqb c 0x212a
    then 0x6b ∷ []
    else c ∷ []

-- `s.lower()`
unfoldable pub lower : Text → Text
unfolding lower_char
lower [] = []
lower (c ∷ s) = lower_char c ++ lower s

-- `s.startswith(p)`
unfoldable pub starts_with : Text → Text → Bool
starts_with s [] = true
starts_with [] (_ ∷ _) = false
starts_with (c ∷ s) (d ∷ p) = eqb c d && starts_with s p

-- `p in s`
unfoldable pub is_in : Text → Text → Bool
unfolding starts_with
is_in p [] = starts_with [] p
is_in p (c ∷ s) = starts_with (c ∷ s) p || is_in p s

-- `any(p in s for p in phrases)`
abbrev pub any_in : List Text → Text → Bool
any_in phrases s = any (λ p. is_in p s) phrases

-- `any(p.lower() in s.lower() for p in phrases)`
abbrev pub any_in_lower : List Text → Text → Bool
any_in_lower phrases s = any (λ p. is_in (lower p) (lower s)) phrases

-- The characters that `str.strip` and `str.isspace` take for white space.
abbrev spaces : List ℕ
spaces = 0x85 ∷ 0xa0 ∷ 0x1680 ∷ 0x2028 ∷ 0x2029 ∷ 0x202f ∷ 0x205f ∷ 0x3000 ∷ []

unfoldable pub is_space : ℕ → Bool
is_space c =
    (leb 9 c && leb c 13)
    || (leb 28 c && leb c 32)
    || (leb 0x2000 c && leb c 0x200a)
    || contains spaces c

lower_test : lower (codes "Net INCOME 淨利") ≡ codes "net income 淨利"
unfolding lower
lower_test = refl

is_in_test : any_in_lower (texts ("EPS" ∷ "每股" ∷ [])) (codes "基本每股盈餘") ≡ true
unfolding is_in lower
is_in_test = refl
