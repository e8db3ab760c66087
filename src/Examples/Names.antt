-- ===== src/Examples/Names.antt =====
-- The name of a capture "a" of two digits, beside a file "a.09.avi".
use win_dv.Prelude.{ℕ, ◌==◌, ◌&&◌, ◌≡◌, refl, Bool, true, false, List, [], ◌∷◌}
use win_dv.Prelude.Int.{ℤ, pos}
use win_dv.Naming.{get_capture_filename, choose_suffix, scan_names, scan_name, parse, digits}
use win_dv.Naming.Fresh.{numbered}

abbrev equals : List ℕ → List ℕ → Bool
equals [] [] = true
equals [] (y ∷ ys) = false
equals (x ∷ xs) [] = false
equals (x ∷ xs) (y ∷ ys) = x == y && equals xs ys

abbrev letter : List ℕ
letter = 97 ∷ []

abbrev ninth : List ℕ
ninth = numbered letter (48 ∷ 57 ∷ [])

-- The directory holds one file.
abbrev present : List ℕ → Bool
present path = equals path ninth

abbrev find : List ℕ → List (List ℕ)
find named = ninth ∷ []

tenth :
    get_capture_filename (λ t. []) (pos 7) find present letter 2 (pos 0)
    ≡ numbered letter (49 ∷ 48 ∷ [])
unfolding get_capture_filename choose_suffix scan_names scan_name parse digits
tenth = refl

-- The year is printed, and three digits are selected.
abbrev year : ℤ → List ℕ
year t = 50 ∷ 48 ∷ 50 ∷ 54 ∷ []
