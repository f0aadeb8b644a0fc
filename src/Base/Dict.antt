-- ===== src/Base/Dict.antt =====
-- Dicts in insertion order, as association lists.
use financial_pdf_reader.Base.{ℕ, suc, ◌≡◌, refl, true, Option, none, some}
use financial_pdf_reader.Base.{List, [], ◌∷◌, arith, if◌then◌else◌, or_default, ◌==◌}
use financial_pdf_reader.Base.{Eq, eq_iff, contains, is_some, sum_of}

abbrev pub Dict {ℓ κ} : Type ℓ → Type κ → Type (ℓ ⊔ κ)
Dict K V = List (K × V)

module _ {ℓ κ} {K : Type ℓ} {V : Type κ} where
  abbrev pub keys : Dict K V → List K
  keys [] = []
  keys ((k, v) ∷ d) = k ∷ keys d

  abbrev pub values : Dict K V → List V
  values [] = []
  values ((k, v) ∷ d) = v ∷ values d

module _ {ℓ κ} {K : Type ℓ} {V : Type κ} ⦃e : Eq K⦄ where
  -- `d.get(k)`
  unfoldable pub lookup : K → Dict K V → Option V
  lookup k [] = none
  lookup k ((j, v) ∷ d) = if k == j then some v else lookup k d

  -- `d[k] = v`
  unfoldable pub insert : K → V → Dict K V → Dict K V
  insert k v [] = (k, v) ∷ []
  insert k v ((j, w) ∷ d) = if k == j then (j, v) ∷ d else (j, w) ∷ insert k v d

  pub lookup-insert :
      (j k : K) (v : V) (d : Dict K V)
      → lookup j (insert k v d) ≡ (if j == k then some v else lookup j d)
  unfolding lookup insert
  lookup-insert j k v [] = refl
  lookup-insert j k v ((i, w) ∷ d) =
      ground (arith, eq_iff j k, eq_iff k i, eq_iff j i, lookup-insert j k v d)

  -- The keys of a dict are those with a value.
  pub contains-keys : (k : K) (d : Dict K V) → contains (keys d) k ≡ is_some (lookup k d)
  unfolding lookup
  contains-keys k [] = refl
  contains-keys k ((j, v) ∷ d) = ground (arith, contains-keys k d)

  -- Overwriting a key that is there keeps the keys and their order.
  pub keys-insert :
      (k : K) (v : V) (d : Dict K V) → is_some (lookup k d) ≡ true → keys (insert k v d) ≡ keys d
  unfolding lookup insert
  keys-insert k v [] h = cc
  keys-insert k v ((j, w) ∷ d) h = ground (arith, keys-insert k v d)

module _ {ℓ} {K : Type ℓ} ⦃e : Eq K⦄ where
  -- Counts by key, 0 where a key is missing.
  abbrev pub count_of : K → Dict K ℕ → ℕ
  count_of k d = or_default (lookup k d) 0

  abbrev pub total : Dict K ℕ → ℕ
  total = sum_of (λ (_, n). n)

  -- One more at a key that is there is one more in the sum.
  pub total-insert :
      (k : K) (d : Dict K ℕ)
      → is_some (lookup k d) ≡ true
      → total (insert k (suc (count_of k d)) d) ≡ suc (total d)
  unfolding lookup insert
  total-insert k [] h = cc
  total-insert k ((j, n) ∷ d) h = ground (arith, total-insert k d)
