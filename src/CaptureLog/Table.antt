-- ===== src/CaptureLog/Table.antt =====
-- Tables of texts in the form of DShow.cpp's `WriteCaptureLog`: commas between the fields of a row,
-- and a newline after it; and how such a text is read.
use win_dv.Prelude.{
  Each, Each-append, Each-mono, ℕ, ◌≡◌, ◌≢◌, refl, ap, ap₂, sym, ◌∙◌, List, [], ◌∷◌, ◌++◌,
  append_assoc, append-nil, arith, if◌then◌else◌, ◌==◌, false,
}
use win_dv.CaptureLog.{with_commas, print_row}

-- A text cut at each `sep`.
abbrev pub cut : ℕ → List ℕ → List ℕ × List (List ℕ)
cut sep [] = ([], [])
cut sep (c ∷ cs) =
    let (part, parts) = cut sep cs in if c == sep then ([], part ∷ parts) else (c ∷ part, parts)

-- The fields of a line.
unfoldable pub read_row : List ℕ → List (List ℕ)
read_row line = let (field, fields) = cut 44 line in field ∷ fields

-- The rows of a text whose lines all end with a newline.
unfoldable pub read_rows : List (List ℕ) → List (List (List ℕ))
read_rows [] = []
read_rows (line ∷ []) = []
read_rows (line ∷ line' ∷ lines) = read_row line ∷ read_rows (line' ∷ lines)

unfoldable pub read_table : List ℕ → List (List (List ℕ))
read_table text = let (line, lines) = cut 10 text in read_rows (line ∷ lines)

unfoldable pub print_table : List (List (List ℕ)) → List ℕ
print_table [] = []
print_table (row ∷ rows) = print_row row ++ print_table rows

pub print_table-append :
    (t : List (List (List ℕ))) (row : List (List ℕ))
    → print_table (t ++ (row ∷ [])) ≡ print_table t ++ print_row row
unfolding print_table
print_table-append [] row = append-nil (print_row row)
print_table-append (r ∷ t) row =
    ap (λ s. print_row r ++ s) (print_table-append t row)
    ∙ sym (append_assoc (print_row r) (print_table t) (print_row row))

-- Text without a comma and a newline.
abbrev pub IsCell : List ℕ → Type 0
IsCell = Each (λ c. (c ≢ 44) × (c ≢ 10))

abbrev pub IsRow : List (List ℕ) → Type 0
IsRow fields = (fields ≢ []) × Each IsCell fields

cut-before :
    (sep : ℕ) (f rest : List ℕ)
    → Each (λ c. c ≢ sep) f
    → cut sep (f ++ (sep ∷ rest)) ≡ (f, (cut sep rest).0 ∷ (cut sep rest).1)
cut-before sep [] rest other = ground arith
cut-before sep (c ∷ f) rest other =
    let differs : (c == sep) ≡ false = ground (arith, other.0) in
    rw (differs, cut-before sep f rest other.1) refl

cut-none : (sep : ℕ) (f : List ℕ) → Each (λ c. c ≢ sep) f → cut sep f ≡ (f, [])
cut-none sep [] other = refl
cut-none sep (c ∷ f) other =
    let differs : (c == sep) ≡ false = ground (arith, other.0) in
    rw (differs, cut-none sep f other.1) refl

no_commas : (f : List ℕ) → IsCell f → Each (λ c. c ≢ 44) f
no_commas f cell = Each-mono _ (λ c. c ≢ 44) f (λ c p. p.0) cell

no_newlines : (f : List ℕ) → IsCell f → Each (λ c. c ≢ 10) f
no_newlines f cell = Each-mono _ (λ c. c ≢ 10) f (λ c p. p.1) cell

-- A row is read back, and it is one line.
read_row-with_commas :
    (f : List ℕ) (fs : List (List ℕ))
    → Each IsCell (f ∷ fs)
    → read_row (with_commas (f ∷ fs)) ≡ f ∷ fs
unfolding read_row
read_row-with_commas f [] cells = ap (λ r. r.0 ∷ r.1) (cut-none 44 f (no_commas f cells.0))
read_row-with_commas f (g ∷ fs) cells =
    ap (λ (r : List ℕ × List (List ℕ)). r.0 ∷ r.1)
      (cut-before 44 f (with_commas (g ∷ fs)) (no_commas f cells.0))
    ∙ ap (λ gs. f ∷ gs) (read_row-with_commas g fs cells.1)

with_commas-line : (fs : List (List ℕ)) → Each IsCell fs → Each (λ c. c ≢ 10) (with_commas fs)
with_commas-line [] cells = record {}
with_commas-line (f ∷ []) cells = no_newlines f cells.0
with_commas-line (f ∷ g ∷ fs) cells =
    Each-append (λ c. c ≢ 10) f (44 ∷ with_commas (g ∷ fs)) (no_newlines f cells.0)
      (omega arith, with_commas-line (g ∷ fs) cells.1)

-- A table is read back.
pub read_table-print_table :
    (t : List (List (List ℕ))) → Each IsRow t → read_table (print_table t) ≡ t
unfolding read_table print_table read_rows print_row
read_table-print_table [] rows = refl
read_table-print_table ([] ∷ t) rows = absurd (rows.0.0 refl)
read_table-print_table ((f ∷ fs) ∷ t) rows =
    ap (λ text. read_table text) (append_assoc (with_commas (f ∷ fs)) (10 ∷ []) (print_table t))
    ∙ ap (λ (r : List ℕ × List (List ℕ)). read_rows (r.0 ∷ r.1))
        (cut-before 10 (with_commas (f ∷ fs)) (print_table t) (with_commas-line (f ∷ fs) rows.0.1))
    ∙ ap₂ (λ r rs. r ∷ rs) (read_row-with_commas f fs rows.0.1) (read_table-print_table t rows.1)
