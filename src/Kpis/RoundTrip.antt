-- ===== src/Kpis/RoundTrip.antt =====
-- Reading back the table that services/text_extraction wrote: `_rows_to_markdown`, then
-- `parse_markdown_rows` of services/kpi_normalization.
use financial_pdf_reader.Base.{
  ℕ, zero, suc, ◌-◌, ◌≡◌, refl, sym, ap, ◌∙◌, Option, none, some, true, false, not,
}
use financial_pdf_reader.Base.{List, [], ◌∷◌, ◌++◌, map, All, All-append, All-map, map-All}
use financial_pdf_reader.Base.{take, replicate, length, select, eqb, if◌then◌else◌, arith}
use mathlib.Core.List.{append_assoc}
use financial_pdf_reader.Text.{Text, codes, is_space, is_in, starts_with}
use financial_pdf_reader.Text.Strip.{strip_by, lstrip_by, rstrip_by}
use financial_pdf_reader.Text.Stripped.{
  IsStripped, strip_by-IsStripped, enclosed-IsStripped, strip_by-IsStripped_lem, strip_by_padded,
}
use financial_pdf_reader.Text.Lines.{is_break, split_on, join, splitlines}
use financial_pdf_reader.Text.Joined.{
  is_free_of, has_break, any-append, split_on_free, split_on-append, IsLine, splitlines-join,
}
use financial_pdf_reader.Tables.{Row, clean_cell, clean_row, row_line, padded, rows_to_markdown}
use financial_pdf_reader.Kpis.{is_rule, cells_of, add_line, rows_of, parse_markdown_rows}

-- A cell that a line of the table shows as it is.
pub record IsCell (c : Text) : Type 0 where
  pub no_bar : is_free_of b'|' c ≡ true
  pub whole : has_break c ≡ false
  pub stripped : IsStripped is_space c

-- A cell of pdfplumber without a vertical bar or a line boundary.
abbrev pub IsPlain : Text → Type 0
IsPlain c = (is_free_of b'|' c ≡ true) × (has_break c ≡ false)

-- The table with its cells cleaned and every row as long as the header.
abbrev pub grid : List Row → List (List Text)
grid [] = []
grid (header ∷ rows) =
    clean_row header ∷ map (λ row. padded (length (clean_row header)) (clean_row row)) rows

abbrev spaced : Text → Text
spaced c = 32 ∷ (c ++ 32 ∷ [])

spaced-free : (c : Text) → is_free_of b'|' c ≡ true → is_free_of b'|' (spaced c) ≡ true
spaced-free c h = ground (arith, any-append (λ d. eqb d b'|') c (32 ∷ []))

split_on-spaced :
    (c : Text) (cs : List Text)
    → All IsCell (c ∷ cs)
    → split_on b'|' (spaced (join (codes " | ") (c ∷ cs))) ≡ map spaced (c ∷ cs)
unfolding join
split_on-spaced c [] (h, _) = split_on_free b'|' (spaced c) (spaced-free c h.no_bar)
split_on-spaced c (d ∷ ds) (h, hs) =
    let rest = join (codes " | ") (d ∷ ds) in
    let split : spaced (c ++ (codes " | " ++ rest)) ≡ spaced c ++ b'|' ∷ spaced rest =
      ap (λ s. 32 ∷ s)
        (append_assoc c (codes " | " ++ rest) (32 ∷ [])
          ∙ sym (append_assoc c (32 ∷ []) (b'|' ∷ spaced rest))) in
    ap (split_on b'|') split
    ∙ split_on-append b'|' (spaced c) (spaced rest) (spaced-free c h.no_bar)
    ∙ ap (λ r. spaced c ∷ r) (split_on-spaced d ds hs)

strip-spaced : (cs : List Text) → All IsCell cs → map (strip_by is_space) (map spaced cs) ≡ cs
unfolding is_space
strip-spaced [] h = refl
strip-spaced (c ∷ cs) (h, hs) =
    ap (λ d. d ∷ map (strip_by is_space) (map spaced cs))
      (strip_by_padded is_space 32 c 32 refl refl h.stripped)
    ∙ ap (λ r. c ∷ r) (strip-spaced cs hs)

-- A line between its two bars.
abbrev body : List Text → Text
body cells = spaced (join (codes " | ") cells)

row_line-body : (cells : List Text) → row_line cells ≡ b'|' ∷ (body cells ++ b'|' ∷ [])
unfolding row_line
row_line-body cells =
    ap (λ s. b'|' ∷ 32 ∷ s) (sym (append_assoc (join (codes " | ") cells) (32 ∷ []) (b'|' ∷ [])))

cells_of-body :
    (cells : List Text)
    → cells_of (b'|' ∷ (body cells ++ b'|' ∷ []))
      ≡ map (strip_by is_space) (split_on b'|' (body cells))
unfolding cells_of
cells_of-body cells =
    ap (λ s. map (strip_by is_space) (split_on b'|' s))
      (strip_by_padded (eqb b'|') b'|' (body cells) b'|' refl refl
        (enclosed-IsStripped (eqb b'|') 32 (join (codes " | ") cells) 32 refl refl))

-- A line of the table gives its cells, unless it is a row of dashes.
add_line-body :
    (cells : List Text) (rows : List (List Text))
    → add_line (b'|' ∷ (body cells ++ b'|' ∷ [])) rows ≡ (
        if is_rule (map (strip_by is_space) (split_on b'|' (body cells)))
        then rows
        else map (strip_by is_space) (split_on b'|' (body cells)) ∷ rows)
unfolding add_line is_in starts_with is_space
add_line-body cells rows =
    rw
      (strip_by-IsStripped_lem is_space (b'|' ∷ (body cells ++ b'|' ∷ []))
        (enclosed-IsStripped is_space b'|' (body cells) b'|' refl refl))
      (rw (cells_of-body cells) refl)

add_line-row_line :
    (cells : List Text) (rows : List (List Text))
    → All IsCell cells
    → add_line (row_line cells) rows ≡ (if is_rule cells then rows else cells ∷ rows)
unfolding is_rule split_on join is_space rstrip_by lstrip_by
add_line-row_line [] rows h = ap (λ l. add_line l rows) (row_line-body []) ∙ add_line-body [] rows
add_line-row_line (c ∷ cs) rows h =
    ap (λ l. add_line l rows) (row_line-body (c ∷ cs))
    ∙ add_line-body (c ∷ cs) rows
    ∙ ap (λ r. if is_rule r then rows else r ∷ rows)
        (ap (map (strip_by is_space)) (split_on-spaced c cs h) ∙ strip-spaced (c ∷ cs) h)

rows_of-row_line :
    (rows : List (List Text))
    → All (All IsCell) rows
    → rows_of (map row_line rows) ≡ select (λ r. not (is_rule r)) rows
unfolding rows_of
rows_of-row_line [] h = refl
rows_of-row_line (r ∷ rs) (h, hs) =
    ap (add_line (row_line r)) (rows_of-row_line rs hs)
    ∙ add_line-row_line r (select (λ r. not (is_rule r)) rs) h
    ∙ ground arith

has_break-join : (cs : List Text) → All IsCell cs → has_break (join (codes " | ") cs) ≡ false
unfolding join is_break
has_break-join [] h = refl
has_break-join (c ∷ []) (h, _) = h.whole
has_break-join (c ∷ d ∷ ds) (h, hs) =
    let rest = join (codes " | ") (d ∷ ds) in
    ground (
      arith,
      h.whole,
      any-append is_break c (codes " | " ++ rest),
      any-append is_break (codes " | ") rest,
      has_break-join (d ∷ ds) hs,
    )

row_line-IsLine : (cells : List Text) → All IsCell cells → IsLine (row_line cells)
unfolding row_line is_break
row_line-IsLine cells h = record {
  visible = refl;
  whole =
      ground (
        arith,
        any-append is_break (join (codes " | ") cells) (codes " |"),
        has_break-join cells h,
      );
}

-- The empty cell that fills up a row, and a cell of the row under the header.
empty-IsCell : IsCell []
unfolding rstrip_by
empty-IsCell = record { no_bar = refl; whole = refl; stripped = record { left = tt; right = refl } }

dashes-IsCell : IsCell (codes "---")
unfolding is_break is_space rstrip_by
dashes-IsCell = record {
  no_bar = refl;
  whole = refl;
  stripped = record { left = refl; right = refl };
}

clean_cell-IsCell : (c : Option Text) → IsPlain (clean_cell c) → IsCell (clean_cell c)
clean_cell-IsCell none _ = empty-IsCell
clean_cell-IsCell (some t) (h, k) = record {
  no_bar = h;
  whole = k;
  stripped = strip_by-IsStripped is_space t;
}

clean_row-IsCell : (row : Row) → All IsPlain (clean_row row) → All IsCell (clean_row row)
clean_row-IsCell [] h = tt
clean_row-IsCell (c ∷ cs) (h, hs) = (clean_cell-IsCell c h, clean_row-IsCell cs hs)

replicate-IsCell : (n : ℕ) (c : Text) → IsCell c → All IsCell (replicate n c)
replicate-IsCell zero c h = tt
replicate-IsCell (suc n) c h = (h, replicate-IsCell n c h)

take-IsCell : (n : ℕ) (cs : List Text) → All IsCell cs → All IsCell (take n cs)
take-IsCell zero cs h = tt
take-IsCell (suc n) [] h = tt
take-IsCell (suc n) (c ∷ cs) (h, hs) = (h, take-IsCell n cs hs)

padded-IsCell : (n : ℕ) (cs : List Text) → All IsCell cs → All IsCell (padded n cs)
unfolding padded
padded-IsCell n cs h = take-IsCell n (cs ++ replicate (n - length cs) []) (
    All-append IsCell cs (replicate (n - length cs) []) h
      (replicate-IsCell (n - length cs) [] empty-IsCell))

grid_rows-IsCell :
    (n : ℕ) (rows : List Row)
    → All (λ row. All IsPlain (clean_row row)) rows
    → All (All IsCell) (map (λ row. padded n (clean_row row)) rows)
grid_rows-IsCell n rows h =
    map-All (All IsCell) (λ row. padded n (clean_row row)) rows
      (All-map (λ row k. padded-IsCell n (clean_row row) (clean_row-IsCell row k)) rows h)

is_rule-dashes : (n : ℕ) → is_rule (replicate n (codes "---")) ≡ true
unfolding is_rule
is_rule-dashes zero = refl
is_rule-dashes (suc n) = is_rule-dashes n

-- The lines of the table are those of the grid with a row of dashes under the first.
abbrev lines_of : List Text → List (List Text) → List (List Text)
lines_of header rows = header ∷ replicate (length header) (codes "---") ∷ rows

select-lines_of :
    (header : List Text) (rows : List (List Text))
    → select (λ r. not (is_rule r)) (lines_of header rows)
      ≡ select (λ r. not (is_rule r)) (header ∷ rows)
select-lines_of header rows = rw (is_rule-dashes (length header)) refl

map-map :
    (f : List Text → Text) (g : Row → List Text) (rows : List Row)
    → map (λ r. f (g r)) rows ≡ map f (map g rows)
map-map f g [] = refl
map-map f g (r ∷ rs) = ap (λ l. f (g r) ∷ l) (map-map f g rs)

-- If no cleaned cell holds a vertical bar or a line boundary, reading the markdown of a table gives
-- its rows again: cleaned, cut or filled up to the length of the header, without those rows whose
-- cells hold nothing but dashes, colons and blanks.
pub parse_markdown_rows-rows_to_markdown :
    (rows : List Row)
    → All (λ row. All IsPlain (clean_row row)) rows
    → parse_markdown_rows (rows_to_markdown rows) ≡ select (λ r. not (is_rule r)) (grid rows)
unfolding parse_markdown_rows rows_to_markdown join
parse_markdown_rows-rows_to_markdown [] h = refl
parse_markdown_rows-rows_to_markdown (header ∷ rows) (h, hs) =
    let n = length (clean_row header) in
    let g : Row → List Text = λ row. padded n (clean_row row) in
    let ls = lines_of (clean_row header) (map g rows) in
    let cells : All (All IsCell) ls = (
      clean_row-IsCell header h,
      (replicate-IsCell n (codes "---") dashes-IsCell, grid_rows-IsCell n rows hs),
    ) in
    ap
      (λ l. rows_of (
        splitlines (
          join (codes "\n")
            (row_line (clean_row header) ∷ row_line (replicate n (codes "---")) ∷ l))))
      (map-map row_line g rows)
    ∙ ap rows_of (
        splitlines-join (map row_line ls)
          (map-All IsLine row_line ls (All-map row_line-IsLine ls cells)))
    ∙ rows_of-row_line ls cells
    ∙ select-lines_of (clean_row header) (map g rows)
