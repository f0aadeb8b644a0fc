-- ===== src/Text/Stripped.antt =====
-- What stripping leaves: texts neither end of which is of the class, and these are left alone.
use financial_pdf_reader.Base.{ℕ, ◌≡◌, refl, ap, ◌∙◌, Bool, true, false, any, arith}
use financial_pdf_reader.Base.{List, [], ◌∷◌, ◌++◌, Bool-cases, inl, inr}
use financial_pdf_reader.Text.Strip.{lstrip_by, rstrip_by, strip_by, rstrip_step}

module _ (p : ℕ → Bool) where
  -- The text is empty, or its first character is not of the class.
  abbrev pub StartsOut : List ℕ → Type 0
  StartsOut [] = Unit
  StartsOut (c ∷ s) = p c ≡ false

  pub record IsStripped (s : List ℕ) : Type 0 where
    pub left : StartsOut s
    pub right : rstrip_by p s ≡ s

  lstrip_by-in : (c : ℕ) (s : List ℕ) → p c ≡ true → lstrip_by p (c ∷ s) ≡ lstrip_by p s
  unfolding lstrip_by
  lstrip_by-in c s h = rw h refl

  pub lstrip_by-StartsOut_lem : (s : List ℕ) → StartsOut s → lstrip_by p s ≡ s
  unfolding lstrip_by
  lstrip_by-StartsOut_lem [] h = refl
  lstrip_by-StartsOut_lem (c ∷ s) h = rw h refl

  lstrip_by-StartsOut : (s : List ℕ) → StartsOut (lstrip_by p s)
  unfolding lstrip_by
  lstrip_by-StartsOut [] = tt
  lstrip_by-StartsOut (c ∷ s) = elim (Bool-cases (p c)) [
    | inl e ↦ rw e (lstrip_by-StartsOut s)
    | inr e ↦ rw e e
  ]

  rstrip_step-StartsOut : (c : ℕ) (s : List ℕ) → p c ≡ false → StartsOut (rstrip_step p c s)
  rstrip_step-StartsOut c [] h = rw h h
  rstrip_step-StartsOut c (d ∷ s) h = h

  rstrip_by-StartsOut : (s : List ℕ) → StartsOut s → StartsOut (rstrip_by p s)
  unfolding rstrip_by
  rstrip_by-StartsOut [] h = tt
  rstrip_by-StartsOut (c ∷ s) h = rstrip_step-StartsOut c (rstrip_by p s) h

  rstrip_by-step :
      (c : ℕ) (s : List ℕ) → rstrip_by p s ≡ s → rstrip_by p (rstrip_step p c s) ≡ rstrip_step p c s
  unfolding rstrip_by
  rstrip_by-step c [] h = elim (Bool-cases (p c)) [ inl e ↦ rw e refl | inr e ↦ rw e (rw e refl) ]
  rstrip_by-step c (d ∷ s) h = rw h refl

  pub rstrip_by_twice : (s : List ℕ) → rstrip_by p (rstrip_by p s) ≡ rstrip_by p s
  unfolding rstrip_by
  rstrip_by_twice [] = refl
  rstrip_by_twice (c ∷ s) = rstrip_by-step c (rstrip_by p s) (rstrip_by_twice s)

  pub strip_by-IsStripped : (s : List ℕ) → IsStripped (strip_by p s)
  strip_by-IsStripped s = record {
    left = rstrip_by-StartsOut (lstrip_by p s) (lstrip_by-StartsOut s);
    right = rstrip_by_twice (lstrip_by p s);
  }

  pub rstrip_by-snoc : (s : List ℕ) (c : ℕ) → p c ≡ true → rstrip_by p (s ++ c ∷ []) ≡ rstrip_by p s
  unfolding rstrip_by
  rstrip_by-snoc [] c h = rw h refl
  rstrip_by-snoc (d ∷ s) c h = ap (rstrip_step p d) (rstrip_by-snoc s c h)

  rstrip_step-snoc :
      (d : ℕ) (s : List ℕ) (c : ℕ) → rstrip_step p d (s ++ c ∷ []) ≡ d ∷ (s ++ c ∷ [])
  rstrip_step-snoc d [] c = refl
  rstrip_step-snoc d (e ∷ s) c = refl

  pub rstrip_by-snoc_out :
      (s : List ℕ) (c : ℕ) → p c ≡ false → rstrip_by p (s ++ c ∷ []) ≡ s ++ c ∷ []
  unfolding rstrip_by
  rstrip_by-snoc_out [] c h = rw h refl
  rstrip_by-snoc_out (d ∷ s) c h =
      ap (rstrip_step p d) (rstrip_by-snoc_out s c h) ∙ rstrip_step-snoc d s c

  -- A text between two characters that are not of the class is left alone.
  pub enclosed-IsStripped :
      (a : ℕ) (s : List ℕ) (b : ℕ) → p a ≡ false → p b ≡ false → IsStripped (a ∷ (s ++ b ∷ []))
  enclosed-IsStripped a s b h k = record { left = h; right = rstrip_by-snoc_out (a ∷ s) b k }

  pub strip_by-IsStripped_lem : (s : List ℕ) → IsStripped s → strip_by p s ≡ s
  strip_by-IsStripped_lem s h = ap (rstrip_by p) (lstrip_by-StartsOut_lem s h.left) ∙ h.right

  lstrip_by-snoc :
      (s : List ℕ) (b : ℕ)
      → StartsOut s
      → p b ≡ true
      → rstrip_by p (lstrip_by p (s ++ b ∷ [])) ≡ rstrip_by p s
  unfolding lstrip_by
  lstrip_by-snoc [] b h k = rw k refl
  lstrip_by-snoc (c ∷ s) b h k = rw h (rstrip_by-snoc (c ∷ s) b k)

  -- One character of the class on each side is all that goes.
  pub strip_by_padded :
      (a : ℕ) (s : List ℕ) (b : ℕ)
      → p a ≡ true
      → p b ≡ true
      → IsStripped s
      → strip_by p (a ∷ (s ++ b ∷ [])) ≡ s
  strip_by_padded a s b h k r =
      ap (rstrip_by p) (lstrip_by-in a (s ++ b ∷ []) h) ∙ lstrip_by-snoc s b r.left k ∙ r.right

  rstrip_step-out : (c : ℕ) (s : List ℕ) → p c ≡ false → rstrip_step p c s ≡ c ∷ s
  rstrip_step-out c [] h = rw h refl
  rstrip_step-out c (d ∷ s) h = refl

  -- A text without a character of the class is left alone.
  pub rstrip_by-out : (s : List ℕ) → any p s ≡ false → rstrip_by p s ≡ s
  unfolding rstrip_by
  rstrip_by-out [] h = refl
  rstrip_by-out (c ∷ s) h =
      ap (rstrip_step p c) (rstrip_by-out s (ground arith)) ∙ rstrip_step-out c s (ground arith)
