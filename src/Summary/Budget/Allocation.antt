-- ===== src/Summary/Budget/Allocation.antt =====
-- The shares never exceed what is desired, and add up to the budget or to all that is desired.
use financial_pdf_reader.Base.{ℕ, zero, suc, ◌+◌, ◌≤◌}
use financial_pdf_reader.Base.{String, ◌≡◌, refl}
use financial_pdf_reader.Base.{Bool, true, false}
use financial_pdf_reader.Base.{List, [], ◌∷◌, arith, ltb}
use financial_pdf_reader.Base.{is_some}
use financial_pdf_reader.Base.{count_if}
use financial_pdf_reader.Base.{All, eq_iff, nat_eq, string_eq, text_eq, contains}
use financial_pdf_reader.Base.Dict
use financial_pdf_reader.Base.Dict.{Dict}
use financial_pdf_reader.Summary.Budget.{top_up}

-- The sections that still have room under an allocation.
abbrev pub has_room : Dict String ℕ → Dict String ℕ → String → Bool
has_room desired allocation s = ltb (Dict.count_of s allocation) (Dict.count_of s desired)

-- No section is listed twice.
abbrev pub Distinct : List String → Type 0
Distinct [] = Unit
Distinct (s ∷ ss) = (contains ss s ≡ false) × Distinct ss

abbrev pub AllHave : Dict String ℕ → List String → Type 0
AllHave d = All (λ s. is_some (Dict.lookup s d) ≡ true)

-- Giving one more to a section changes the room of no other.
count_room-insert :
    (desired a : Dict String ℕ) (s : String) (n : ℕ) (order : List String)
    → contains order s ≡ false
    → count_if (has_room desired (Dict.insert s n a)) order ≡ count_if (has_room desired a) order
count_room-insert desired a s n [] h = refl
count_room-insert desired a s n (t ∷ order) h = ground (
  arith,
  eq_iff s t,
  eq_iff t s,
  Dict.lookup-insert t s n a,
  count_room-insert desired a s n order,
)

AllHave-insert :
    (a : Dict String ℕ) (s : String) (n : ℕ) (order : List String)
    → AllHave a order
    → AllHave (Dict.insert s n a) order
AllHave-insert a s n [] h = tt
AllHave-insert a s n (t ∷ order) (h, hs) =
    (ground (arith, Dict.lookup-insert t s n a), AllHave-insert a s n order hs)

-- If at least as many sections have room as remain, the loop gives out all that remains.
pub total-top_up :
    (order : List String) (remaining : ℕ) (desired a : Dict String ℕ)
    → Distinct order
    → AllHave a order
    → remaining ≤ count_if (has_room desired a) order
    → Dict.total (top_up order remaining desired a) ≡ Dict.total a + remaining
unfolding top_up
total-top_up [] remaining desired a d h le = omega arith
total-top_up (s ∷ order) zero desired a d h le = omega arith
total-top_up (s ∷ order) (suc remaining) desired a (fresh, d) (here, h) le = ground (
  arith,
  count_room-insert desired a s (suc (Dict.count_of s a)) order fresh,
  Dict.total-insert s a here,
  total-top_up order remaining desired (Dict.insert s (suc (Dict.count_of s a)) a) d
      (AllHave-insert a s (suc (Dict.count_of s a)) order h),
  total-top_up order (suc remaining) desired a d h,
)

-- The loop gives no section more than it desires, and no section less than it had.
pub top_up-bounds :
    (order : List String) (remaining : ℕ) (desired a : Dict String ℕ) (s : String)
    → Dict.count_of s a ≤ Dict.count_of s desired
    → (Dict.count_of s (top_up order remaining desired a) ≤ Dict.count_of s desired)
      × (Dict.count_of s a ≤ Dict.count_of s (top_up order remaining desired a))
unfolding top_up
top_up-bounds [] remaining desired a s h = (h, omega arith)
top_up-bounds (t ∷ order) zero desired a s h = (h, omega arith)
top_up-bounds (t ∷ order) (suc remaining) desired a s h = ground (
  arith,
  eq_iff s t,
  Dict.lookup-insert s t (suc (Dict.count_of t a)) a,
  top_up-bounds order remaining desired (Dict.insert t (suc (Dict.count_of t a)) a) s,
  top_up-bounds order (suc remaining) desired a s,
)

-- The loop keeps the sections and their order.
pub keys-top_up :
    (order : List String) (remaining : ℕ) (desired a : Dict String ℕ)
    → AllHave a order
    → Dict.keys (top_up order remaining desired a) ≡ Dict.keys a
unfolding top_up
keys-top_up [] remaining desired a h = refl
keys-top_up (s ∷ order) zero desired a h = refl
keys-top_up (s ∷ order) (suc remaining) desired a (here, h) =
    let next = suc (Dict.count_of s a) in
    ground (
      arith,
      Dict.keys-insert s next a here,
      keys-top_up order remaining desired (Dict.insert s next a) (AllHave-insert a s next order h),
      keys-top_up order (suc remaining) desired a h,
    )
