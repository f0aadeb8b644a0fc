-- ===== src/Text/Joined.antt =====
-- Splitting what was joined.
use financial_pdf_reader.Base.{ℕ, ◌≡◌, refl, ap, ◌∙◌, Bool, true, false, not, ◌||◌, arith}
use financial_pdf_reader.Base.{List, [], ◌∷◌, ◌++◌, any, All, eqb, is_empty}
use financial_pdf_reader.Text.{Text}
use financial_pdf_reader.Text.Lines.{is_break, lines_after, splitlines, split_on, join}

-- The text has no `p`; it has no line boundary.
abbrev pub is_free_of : ℕ → Text → Bool
is_free_of p s = not (any (λ c. eqb c p) s)

abbrev pub has_break : Text → Bool
has_break s = any is_break s

pub any-append {ℓ} :
    {A : Type ℓ} (p : A → Bool) (xs ys : List A) → any p (xs ++ ys) ≡ (any p xs || any p ys)
any-append p [] ys = refl
any-append p (x ∷ xs) ys = ground (arith, any-append p xs ys)

module _ (p : ℕ) where
  pub split_on_free : (s : Text) → is_free_of p s ≡ true → split_on p s ≡ s ∷ []
  unfolding split_on
  split_on_free [] h = refl
  split_on_free (c ∷ s) h = ground (arith, split_on_free s)

  pub split_on-append :
      (s t : Text) → is_free_of p s ≡ true → split_on p (s ++ p ∷ t) ≡ s ∷ split_on p t
  unfolding split_on
  split_on-append [] t h = ground arith
  split_on-append (c ∷ s) t h = ground (arith, split_on-append s t)

lines-free : (c : ℕ) (s : Text) → has_break (c ∷ s) ≡ false → splitlines (c ∷ s) ≡ (c ∷ s) ∷ []
unfolding lines_after is_break
lines-free c [] h = ground arith
lines-free c (d ∷ s) h = ground (arith, lines-free d s)

lines-append : (s t : Text) → has_break s ≡ false → splitlines (s ++ 10 ∷ t) ≡ s ∷ splitlines t
unfolding lines_after is_break
lines-append [] t h = refl
lines-append (c ∷ s) t h = ground (arith, lines-append s t)

-- A line that `splitlines` can give back.
pub record IsLine (s : Text) : Type 0 where
  pub visible : is_empty s ≡ false
  pub whole : has_break s ≡ false

line_alone : (s : Text) → IsLine s → splitlines s ≡ s ∷ []
line_alone [] h = absurd (ground (arith, h.visible))
line_alone (c ∷ s) h = lines-free c s h.whole

-- The lines of joined lines are those lines.
pub splitlines-join : (ls : List Text) → All IsLine ls → splitlines (join (10 ∷ []) ls) ≡ ls
unfolding join lines_after
splitlines-join [] h = refl
splitlines-join (l ∷ []) (h, _) = line_alone l h
splitlines-join (l ∷ m ∷ ls) (h, hs) =
    lines-append l (join (10 ∷ []) (m ∷ ls)) h.whole ∙ ap (λ r. l ∷ r) (splitlines-join (m ∷ ls) hs)
