-- ===== src/CommandLine/ExitCodes.antt =====
-- DVToolsDlg.cpp, `CDVToolsDlg::OnInitDialog`: the exit codes.
use win_dv.Prelude.{
  ℕ, ◌≤◌, ◌≡◌, ◌==◌, ◌&&◌, ◌↔◌, if◌then◌else◌, max, List, [], ◌∷◌, arith, true, false, Bool, Option,
  none, some, ltb,
}
use win_dv.CommandLine.{verify_exit, check_files, check_exit}

-- The worst of the results of `VerifyFileSHA256`: 0, 1, or 2 for all else.
unfoldable pub worst : List ℕ → ℕ
worst [] = 0
worst (r ∷ rs) = max (if ltb r 2 then r else 2) (worst rs)

verify_exit-max : (rs : List ℕ) (code : ℕ) → code ≤ 2 → verify_exit rs code ≡ max code (worst rs)
unfolding verify_exit worst
verify_exit-max [] code h = omega arith
verify_exit-max (r ∷ rs) code h =
    ground (arith, h, verify_exit-max rs code, verify_exit-max rs 1, verify_exit-max rs 2)

-- The exit code of "verify" is the worst result of its files, in whatever order they come: 2 if a
-- checksum is missing or a file unreadable, else 1 if one differs, else 0.
pub verify_exit-worst : (rs : List ℕ) → verify_exit rs 0 ≡ worst rs
verify_exit-worst rs = omega (arith, verify_exit-max rs 0 (omega arith))

-- Whether every file is OK, and every argument of "check" found.
unfoldable pub each : List Bool → Bool
each [] = true
each (ok ∷ oks) = ok && each oks

unfoldable pub all_ok : List (Option (List Bool)) → Bool
all_ok [] = true
all_ok (none ∷ rs) = false
all_ok (some oks ∷ rs) = each oks && all_ok rs

check_files-zero :
    (oks : List Bool) (code : ℕ) → (check_files oks code == 0) ≡ (code == 0 && each oks)
unfolding check_files each
check_files-zero [] code = ground arith
check_files-zero (true ∷ oks) code = ground (arith, check_files-zero oks code)
check_files-zero (false ∷ oks) code = ground (arith, check_files-zero oks 1)

check_exit-zero :
    (rs : List (Option (List Bool))) (code : ℕ)
    → (check_exit rs code == 0) ≡ (code == 0 && all_ok rs)
unfolding check_exit all_ok
check_exit-zero [] code = ground arith
check_exit-zero (none ∷ rs) code =
    ground (arith, check_exit-zero rs (if ltb code 2 then 2 else code))
check_exit-zero (some oks ∷ rs) code =
    ground (arith, check_exit-zero rs (check_files oks code), check_files-zero oks code)

-- The exit code of "check" is 0 exactly if every argument is found and every file found is OK.
pub check_exit_ok : (rs : List (Option (List Bool))) → (check_exit rs 0 ≡ 0) ↔ (all_ok rs ≡ true)
check_exit_ok rs = ground (arith, check_exit-zero rs 0)
