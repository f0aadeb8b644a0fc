-- ===== src/Summary/Budget/Shares.antt =====
-- The floors of the proportional shares, and how much of the budget they leave.
use financial_pdf_reader.Base.{ℕ, ◌+◌, ◌-◌, ◌*◌, ◌/◌, ◌≤◌, ◌<◌}
use financial_pdf_reader.Base.{String, ◌≡◌, refl, ap, inl, inr}
use financial_pdf_reader.Base.{false}
use financial_pdf_reader.Base.{[], ◌∷◌, arith, ltb, if◌then◌else◌}
use financial_pdf_reader.Base.{Bool-cases}
use financial_pdf_reader.Base.{count_if}
use financial_pdf_reader.Base.{All, eq_iff, nat_eq, string_eq, text_eq, contains}
use financial_pdf_reader.Base.Dict
use financial_pdf_reader.Base.Dict.{Dict}
use financial_pdf_reader.Summary.Budget.{floor_shares}
use native.Mathlib.Nat.{
  mul-div-le, lt-mul-div-succ, mul-le-mul, le_of_lt, le_of_mul-le-mul_left, zero-div, zero-mul,
}
use financial_pdf_reader.Base.{count_if-cons}
use financial_pdf_reader.Summary.Budget.Allocation.{has_room, Distinct}

-- One section: its floor, with one more if it has room, covers its share.
share_covers :
    (d b t : ℕ) → b < t → d * b ≤ t * (d * b / t) + t * (if ltb (d * b / t) d then 1 else 0)
share_covers d b t h = elim (Bool-cases (ltb (d * b / t) d)) [
  | inl e ↦ rw e (omega (arith, lt-mul-div-succ (d * b) {b = t} (omega arith)))
  | inr e ↦
      let full : d ≤ d * b / t = ground arith in rw e (grind (arith, mul-le-mul full (le_of_lt h)))
]

-- The shares of a dict, read by key.
pub count_of-floor_shares :
    (b t : ℕ) (s : String) (ds : Dict String ℕ)
    → Dict.count_of s (floor_shares b t ds) ≡ Dict.count_of s ds * b / t
unfolding floor_shares Dict.lookup
count_of-floor_shares b t s [] = rw (zero-mul, zero-div)
count_of-floor_shares b t s ((r, d) ∷ ds) = ground (arith, count_of-floor_shares b t s ds)

pub keys-floor_shares :
    (b t : ℕ) (ds : Dict String ℕ) → Dict.keys (floor_shares b t ds) ≡ Dict.keys ds
unfolding floor_shares
keys-floor_shares b t [] = refl
keys-floor_shares b t ((r, d) ∷ ds) = ap (λ ks. r ∷ ks) (keys-floor_shares b t ds)

pub total-floor_shares-le :
    (b t : ℕ) (ds : Dict String ℕ) → t * Dict.total (floor_shares b t ds) ≤ Dict.total ds * b
unfolding floor_shares
total-floor_shares-le b t [] = omega arith
total-floor_shares-le b t ((r, d) ∷ ds) =
    omega (arith, mul-div-le (d * b) t, total-floor_shares-le b t ds)

-- Every entry of a part of a dict is found in the whole.
abbrev pub Agrees : Dict String ℕ → Dict String ℕ → Type 0
Agrees whole = All (λ (s, d). Dict.count_of s whole ≡ d)

Agrees-cons :
    (s : String) (n : ℕ) (whole ds : Dict String ℕ)
    → contains (Dict.keys ds) s ≡ false
    → Agrees whole ds
    → Agrees ((s, n) ∷ whole) ds
unfolding Dict.lookup
Agrees-cons s n whole [] f h = tt
Agrees-cons s n whole ((r, d) ∷ ds) f (h, hs) =
    (ground (arith, eq_iff s r, eq_iff r s), Agrees-cons s n whole ds (ground arith) hs)

pub Agrees-self : (ds : Dict String ℕ) → Distinct (Dict.keys ds) → Agrees ds ds
unfolding Dict.lookup
Agrees-self [] u = tt
Agrees-self ((s, d) ∷ ds) (f, u) =
    (ground (arith, eq_iff s s), Agrees-cons s d ds ds f (Agrees-self ds u))

-- What a part of the sections desires is covered by its floors and one more for each with room.
shares_cover :
    (b t : ℕ) (whole ds : Dict String ℕ)
    → b < t
    → Agrees whole ds
    → Dict.total ds * b
      ≤ t * Dict.total (floor_shares b t ds)
        + t * count_if (has_room whole (floor_shares b t whole)) (Dict.keys ds)
unfolding floor_shares
shares_cover b t whole [] h a = omega arith
shares_cover b t whole ((s, d) ∷ ds) h (e, a) =
    let shares = floor_shares b t whole in
    let room : has_room whole shares s ≡ ltb (d * b / t) d =
      rw (count_of-floor_shares b t s whole, e) in
    rw (count_if-cons (has_room whole shares) s (Dict.keys ds), room)
      (omega (arith, share_covers d b t h, shares_cover b t whole ds h a))

-- At most as many units of the budget remain as there are sections with room.
pub remaining-le-room :
    (b : ℕ) (ds : Dict String ℕ)
    → Distinct (Dict.keys ds)
    → b < Dict.total ds
    → let shares = floor_shares b (Dict.total ds) ds in
      (Dict.total shares ≤ b)
      × (b - Dict.total shares ≤ count_if (has_room ds shares) (Dict.keys ds))
remaining-le-room b ds u h =
    let t = Dict.total ds in
    let shares = floor_shares b t ds in
    let room = count_if (has_room ds shares) (Dict.keys ds) in
    let pos : 0 < t = omega arith in
    let below : Dict.total shares ≤ b =
      le_of_mul-le-mul_left {k = t} (total-floor_shares-le b t ds) pos in
    let cover : b ≤ Dict.total shares + room =
      le_of_mul-le-mul_left {k = t} (omega (arith, shares_cover b t ds ds h (Agrees-self ds u)))
        pos in
    (below, omega arith)
