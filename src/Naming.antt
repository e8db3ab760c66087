-- ===== src/Naming.antt =====
-- DShow.cpp, `GetCaptureFilename` and `FormatTime`: the name of a capture file. A character is its
-- code. The names that `CFileFind` finds for the pattern "<base>.*.avi" and whether "<base>.avi" is
-- there are arguments, and so are the clock and `strftime` with `localtime`. The suffix is an
-- `int`; that no file has one of 2^31 or more is taken for granted.
pub mod Fresh
pub mod Written
pub mod Preview
use win_dv.Prelude.{
  ℕ, zero, suc, ◌+◌, ◌-◌, ◌*◌, ◌/◌, ◌%◌, Bool, true, false, not, ◌&&◌, ◌||◌, ltb, leb, ◌==◌,
  if◌then◌else◌, List, [], ◌∷◌, ◌++◌, length, take, drop, Option, none, some,
}
use win_dv.Prelude.Int.{ℤ, pos, leb_ℤ}

abbrev pub is_separator : ℕ → Bool
is_separator c = c == 92 || c == 47 || c == 58

-- The length of the part after the last separator, counted from the end of the path, which is
-- given from its end.
abbrev pub count_back : List ℕ → ℕ
count_back [] = 0
count_back (c ∷ cs) = if is_separator c then 0 else suc (count_back cs)

abbrev pub reverse_onto : List ℕ → List ℕ → List ℕ
reverse_onto [] acc = acc
reverse_onto (c ∷ cs) acc = reverse_onto cs (c ∷ acc)

abbrev pub bare_size : List ℕ → ℕ
bare_size path = count_back (reverse_onto path [])

abbrev pub is_digit : ℕ → Bool
is_digit c = leb 48 c && leb c 57

-- The loop over the characters of a suffix; `none` is `goto next`.
unfoldable pub parse : List ℕ → ℕ → Option ℕ
parse [] j = some j
parse (c ∷ cs) j = if is_digit c then parse cs (j * 10 + (c - 48)) else none

-- `maxn`, and `max + 1`.
pub record Suffix : Type 0 where
  pub width : ℕ
  pub next : ℕ

-- The suffix of a name that was found, for a base of `size` characters.
abbrev pub suffix_of : ℕ → List ℕ → List ℕ
suffix_of size name = take (length name - size - 5) (drop (size + 1) name)

unfoldable pub scan_name : ℕ → List ℕ → Suffix → Suffix
scan_name size name s =
    let l = length name - size - 5 in
    if ltb 0 l && leb s.width l
    then elim (parse (suffix_of size name) 0) [
      | none ↦ s
      | some j ↦
          if ltb s.width l
          then record { width = l; next = j + 1 }
          else if leb s.next j
          then record s { next = j + 1 }
          else s
    ]
    else s

unfoldable pub scan_names : ℕ → List (List ℕ) → Suffix → Suffix
scan_names size [] s = s
scan_names size (name ∷ names) s = scan_names size names (scan_name size name s)

-- The decimal digits of a number; `n + 1` is fuel enough.
unfoldable pub digits : ℕ → ℕ → List ℕ
digits zero n = []
digits (suc fuel) n =
    let front = digits fuel (n / 10) in (if ltb n 10 then [] else front) ++ ((48 + n % 10) ∷ [])

abbrev pub zeros : ℕ → List ℕ
zeros zero = []
zeros (suc n) = 48 ∷ zeros n

-- The format "%0*d" of a number that is not negative.
abbrev pub padded : ℕ → ℕ → List ℕ
padded width n = zeros (width - length (digits (suc n) n)) ++ digits (suc n) n

-- `FormatTime` is `format`, on a time that is set.
abbrev pub stamped : List ℕ → List ℕ → List ℕ
stamped base [] = base
stamped base (c ∷ cs) = base ++ (46 ∷ c ∷ cs)

abbrev pub avi : List ℕ
avi = 46 ∷ 97 ∷ 118 ∷ 105 ∷ []

-- The number appended, if any.
unfoldable pub choose_suffix : ℕ → ℕ → List (List ℕ) → Bool → List ℕ
choose_suffix size ndigits found plain =
    let s = scan_names size found (record { width = ndigits; next = 0 }) in
    if not (s.width == 0) || plain then padded s.width s.next else []

-- The path with the number put in.
abbrev pub with_suffix : List ℕ → List ℕ → List ℕ
with_suffix named [] = named ++ avi
with_suffix named (c ∷ cs) = named ++ (46 ∷ (c ∷ cs) ++ avi)

-- `basdattim`.
abbrev pub base_and_time : (ℤ → List ℕ) → ℤ → List ℕ → ℤ → List ℕ
base_and_time format now base tim = stamped base (format (if leb_ℤ tim (pos 0) then now else tim))

unfoldable pub get_capture_filename :
    (ℤ → List ℕ) → ℤ → (List ℕ → List (List ℕ)) → (List ℕ → Bool) → List ℕ → ℕ → ℤ → List ℕ
get_capture_filename format now find_numbered exists base ndigits tim =
    let named = base_and_time format now base tim in
    with_suffix named
      (choose_suffix (bare_size named) ndigits (find_numbered named) (exists (named ++ avi)))
