-- ===== src/Text/Lines.antt =====
-- `str.splitlines`, `str.split` and `str.join`.
use financial_pdf_reader.Base.{ℕ, ◌≡◌, refl, Bool, false, ◌&&◌, ◌||◌, List, [], ◌∷◌, ◌++◌}
use financial_pdf_reader.Base.{leb, eqb, if◌then◌else◌}
use financial_pdf_reader.Text.{Text, codes}

-- The line boundaries of `splitlines`.
unfoldable pub is_break : ℕ → Bool
is_break c =
    (leb 10 c && leb c 13) || (leb 28 c && leb c 30) || eqb c 0x85 || eqb c 0x2028 || eqb c 0x2029

-- A character in front of the first piece.
abbrev pub cons_char : ℕ → List Text → List Text
cons_char c [] = (c ∷ []) ∷ []
cons_char c (l ∷ ls) = (c ∷ l) ∷ ls

-- The lines of a text; after a carriage return a line feed belongs to the same boundary.
unfoldable pub lines_after : Bool → Text → List Text
unfolding is_break
lines_after returned [] = []
lines_after returned (c ∷ s) =
    let rest = lines_after (eqb c 13) s in
    if returned && eqb c 10 then rest else if is_break c then [] ∷ rest else cons_char c rest

-- `s.splitlines()`
abbrev pub splitlines : Text → List Text
splitlines s = lines_after false s

-- `s.split(c)` for one character.
unfoldable pub split_on : ℕ → Text → List Text
split_on p [] = [] ∷ []
split_on p (c ∷ s) = let rest = split_on p s in if eqb c p then [] ∷ rest else cons_char c rest

-- `sep.join(parts)`
unfoldable pub join : Text → List Text → Text
join sep [] = []
join sep (s ∷ []) = s
join sep (s ∷ t ∷ ts) = s ++ (sep ++ join sep (t ∷ ts))

splitlines_test : splitlines (97 ∷ 13 ∷ 10 ∷ 10 ∷ 98 ∷ 10 ∷ []) ≡ (97 ∷ []) ∷ [] ∷ (98 ∷ []) ∷ []
unfolding lines_after
splitlines_test = refl

split_on_test : split_on b'|' (codes "a||b|") ≡ codes "a" ∷ [] ∷ codes "b" ∷ [] ∷ []
unfolding split_on
split_on_test = refl
