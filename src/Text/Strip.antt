-- ===== src/Text/Strip.antt =====
-- `str.strip`, `str.lstrip`, `str.rstrip`, for any class of characters.
use financial_pdf_reader.Base.{ℕ, suc, ◌≤◌, ◌≡◌, refl, ◌∙◌, Bool, arith}
use financial_pdf_reader.Base.{List, [], ◌∷◌, ◌++◌, length, if◌then◌else◌}
use financial_pdf_reader.Base.{select, not}

module _ (p : ℕ → Bool) where
  unfoldable pub lstrip_by : List ℕ → List ℕ
  lstrip_by [] = []
  lstrip_by (c ∷ s) = let rest = lstrip_by s in if p c then rest else c ∷ s

  -- A character goes if all after it go and it is of the class.
  abbrev pub rstrip_step : ℕ → List ℕ → List ℕ
  rstrip_step c [] = if p c then [] else c ∷ []
  rstrip_step c (d ∷ s) = c ∷ d ∷ s

  unfoldable pub rstrip_by : List ℕ → List ℕ
  rstrip_by [] = []
  rstrip_by (c ∷ s) = rstrip_step c (rstrip_by s)

  abbrev pub strip_by : List ℕ → List ℕ
  strip_by s = rstrip_by (lstrip_by s)

  pub length-lstrip_by-le : (s : List ℕ) → length (lstrip_by s) ≤ length s
  unfolding lstrip_by
  length-lstrip_by-le [] = omega arith
  length-lstrip_by-le (c ∷ s) = ground (arith, length-lstrip_by-le s)

  length-rstrip_step-le : (c : ℕ) (s : List ℕ) → length (rstrip_step c s) ≤ suc (length s)
  length-rstrip_step-le c [] = ground arith
  length-rstrip_step-le c (d ∷ s) = omega arith

  pub length-rstrip_by-le : (s : List ℕ) → length (rstrip_by s) ≤ length s
  unfolding rstrip_by
  length-rstrip_by-le [] = omega arith
  length-rstrip_by-le (c ∷ s) =
      omega (arith, length-rstrip_step-le c (rstrip_by s), length-rstrip_by-le s)

  pub length-strip_by-le : (s : List ℕ) → length (strip_by s) ≤ length s
  length-strip_by-le s = omega (arith, length-rstrip_by-le (lstrip_by s), length-lstrip_by-le s)

  -- What is left of a text without the characters of the class.
  abbrev pub visible : List ℕ → List ℕ
  visible = select (λ c. not (p c))

  pub visible-append : (s t : List ℕ) → visible (s ++ t) ≡ visible s ++ visible t
  visible-append [] t = refl
  visible-append (c ∷ s) t = ground (arith, visible-append s t)

  visible-lstrip_by : (s : List ℕ) → visible (lstrip_by s) ≡ visible s
  unfolding lstrip_by
  visible-lstrip_by [] = refl
  visible-lstrip_by (c ∷ s) = ground (arith, visible-lstrip_by s)

  visible-rstrip_step :
      (c : ℕ) (s t : List ℕ) → visible s ≡ visible t → visible (rstrip_step c s) ≡ visible (c ∷ t)
  visible-rstrip_step c [] t e = ground arith
  visible-rstrip_step c (d ∷ s) t e = ground arith

  visible-rstrip_by : (s : List ℕ) → visible (rstrip_by s) ≡ visible s
  unfolding rstrip_by
  visible-rstrip_by [] = refl
  visible-rstrip_by (c ∷ s) = visible-rstrip_step c (rstrip_by s) s (visible-rstrip_by s)

  -- Stripping loses no character outside the class.
  pub visible-strip_by : (s : List ℕ) → visible (strip_by s) ≡ visible s
  visible-strip_by s = visible-rstrip_by (lstrip_by s) ∙ visible-lstrip_by s
