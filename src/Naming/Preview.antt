-- ===== src/Naming/Preview.antt =====
-- CaptureCfg.cpp, `CCaptureCfg::OnTimer`: the name that the page of settings shows as an example.
use win_dv.Prelude.{ℕ, ◌==◌, if◌then◌else◌, List, [], ◌∷◌, ◌++◌}
use win_dv.Prelude.Int.{ℤ}
use win_dv.Naming.{stamped, padded, avi}

-- "...example".
abbrev pub example : List ℕ
example = 46 ∷ 46 ∷ 46 ∷ 101 ∷ 120 ∷ 97 ∷ 109 ∷ 112 ∷ 108 ∷ 101 ∷ []

-- The text of `m_fexample`, for a number of digits that is selected in the list.
unfoldable pub preview : (ℤ → List ℕ) → ℤ → ℕ → List ℕ
preview format now n =
    stamped example (format now) ++ (if n == 0 then [] else 46 ∷ padded n 0) ++ avi
