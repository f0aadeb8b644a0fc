-- ===== src/Base/Sort.antt =====
-- `sorted`: a stable sort by a Boolean test for "may stand before".
use financial_pdf_reader.Base.{ℕ, ◌+◌, ◌≡◌, refl, Bool, true, false, List, [], ◌∷◌}
use financial_pdf_reader.Base.{arith, if◌then◌else◌, count_if, length, All, Bool-cases, inl, inr}
use financial_pdf_reader.Base.{sum_of, suc, any, ◌||◌}

module _ {ℓ} {A : Type ℓ} (before : A → A → Bool) where
  unfoldable pub insert_sorted : A → List A → List A
  insert_sorted x [] = x ∷ []
  insert_sorted x (y ∷ ys) = if before x y then x ∷ y ∷ ys else y ∷ insert_sorted x ys

  unfoldable pub sorted : List A → List A
  unfolding insert_sorted
  sorted [] = []
  sorted (x ∷ xs) = insert_sorted x (sorted xs)

  count_if-insert_sorted :
      (p : A → Bool) (x : A) (xs : List A) → count_if p (insert_sorted x xs) ≡ count_if p (x ∷ xs)
  unfolding insert_sorted
  count_if-insert_sorted p x [] = refl
  count_if-insert_sorted p x (y ∷ ys) = ground (arith, count_if-insert_sorted p x ys)

  -- Sorting keeps how often a test holds: it is a rearrangement.
  pub count_if-sorted : (p : A → Bool) (xs : List A) → count_if p (sorted xs) ≡ count_if p xs
  unfolding sorted
  count_if-sorted p [] = refl
  count_if-sorted p (x ∷ xs) =
      ground (arith, count_if-insert_sorted p x (sorted xs), count_if-sorted p xs)

  sum_of-insert_sorted :
      (f : A → ℕ) (x : A) (xs : List A) → sum_of f (insert_sorted x xs) ≡ f x + sum_of f xs
  unfolding insert_sorted
  sum_of-insert_sorted f x [] = refl
  sum_of-insert_sorted f x (y ∷ ys) = ground (arith, sum_of-insert_sorted f x ys)

  pub sum_of-sorted : (f : A → ℕ) (xs : List A) → sum_of f (sorted xs) ≡ sum_of f xs
  unfolding sorted
  sum_of-sorted f [] = refl
  sum_of-sorted f (x ∷ xs) = omega (arith, sum_of-insert_sorted f x (sorted xs), sum_of-sorted f xs)

  length-insert_sorted : (x : A) (xs : List A) → length (insert_sorted x xs) ≡ suc (length xs)
  unfolding insert_sorted
  length-insert_sorted x [] = refl
  length-insert_sorted x (y ∷ ys) = ground (arith, length-insert_sorted x ys)

  pub length-sorted : (xs : List A) → length (sorted xs) ≡ length xs
  unfolding sorted
  length-sorted [] = refl
  length-sorted (x ∷ xs) = omega (arith, length-insert_sorted x (sorted xs), length-sorted xs)

  any-insert_sorted :
      (p : A → Bool) (x : A) (xs : List A) → any p (insert_sorted x xs) ≡ (p x || any p xs)
  unfolding insert_sorted
  any-insert_sorted p x [] = refl
  any-insert_sorted p x (y ∷ ys) = ground (arith, any-insert_sorted p x ys)

  pub any-sorted : (p : A → Bool) (xs : List A) → any p (sorted xs) ≡ any p xs
  unfolding sorted
  any-sorted p [] = refl
  any-sorted p (x ∷ xs) = ground (arith, any-insert_sorted p x (sorted xs), any-sorted p xs)

  module _ {κ} (P : A → Type κ) where
    All-insert_sorted : (x : A) (xs : List A) → P x → All P xs → All P (insert_sorted x xs)
    unfolding insert_sorted
    All-insert_sorted x [] p h = (p, tt)
    All-insert_sorted x (y ∷ ys) p (q, h) = elim (Bool-cases (before x y)) [
      | inl e ↦ rw e (p, (q, h))
      | inr e ↦ rw e (q, All-insert_sorted x ys p h)
    ]

    pub All-sorted : (xs : List A) → All P xs → All P (sorted xs)
    unfolding sorted
    All-sorted [] h = tt
    All-sorted (x ∷ xs) (p, h) = All-insert_sorted x (sorted xs) p (All-sorted xs h)

-- Each element may stand before all that follow it.
abbrev pub IsSorted {ℓ} : {A : Type ℓ} → (A → A → Bool) → List A → Type 0
IsSorted before [] = Unit
IsSorted before (x ∷ xs) = All (λ y. before x y ≡ true) xs × IsSorted before xs

module _ {ℓ} {A : Type ℓ} (before : A → A → Bool)
    (total : (x y : A) → before x y ≡ false → before y x ≡ true)
    (trans : (x y z : A) → before x y ≡ true → before y z ≡ true → before x z ≡ true) where
  All-before :
      (x y : A) (zs : List A)
      → before x y ≡ true
      → All (λ z. before y z ≡ true) zs
      → All (λ z. before x z ≡ true) zs
  All-before x y [] h k = tt
  All-before x y (z ∷ zs) h (k, ks) = (trans x y z h k, All-before x y zs h ks)

  insert_sorted-IsSorted :
      (x : A) (xs : List A) → IsSorted before xs → IsSorted before (insert_sorted before x xs)
  unfolding insert_sorted
  insert_sorted-IsSorted x [] s = (tt, tt)
  insert_sorted-IsSorted x (y ∷ ys) (h, s) = elim (Bool-cases (before x y)) [
    | inl e ↦ rw e ((e, All-before x y ys e h), (h, s))
    | inr e ↦ rw e (
      All-insert_sorted before (λ z. before y z ≡ true) x ys (total x y e) h,
      insert_sorted-IsSorted x ys s,
    )
  ]

  pub sorted-IsSorted : (xs : List A) → IsSorted before (sorted before xs)
  unfolding sorted
  sorted-IsSorted [] = tt
  sorted-IsSorted (x ∷ xs) = insert_sorted-IsSorted x (sorted before xs) (sorted-IsSorted xs)
