-- ===== src/Examples/Commands.antt =====
-- Exit codes, and the options of a capture.
use win_dv.Prelude.{◌≡◌, refl, true, false, [], ◌∷◌, none, some}
use win_dv.CommandLine.{
  parse_duration, run_digits, finish_duration, run_fraction, request, Request, capture_request,
  check_files, check_exit,
}

-- "capture -exit 1:30.5 a": half a second is 5000000 units.
short_capture :
    request (
      (99 ∷ 97 ∷ 112 ∷ 116 ∷ 117 ∷ 114 ∷ 101 ∷ [])
      ∷ (45 ∷ 101 ∷ 120 ∷ 105 ∷ 116 ∷ [])
      ∷ (49 ∷ 58 ∷ 51 ∷ 48 ∷ 46 ∷ 53 ∷ [])
      ∷ (97 ∷ [])
      ∷ [])
    ≡ Request.capture true 905000000 (97 ∷ [])
unfolding request capture_request parse_duration run_digits finish_duration run_fraction
short_capture = refl

-- A file that is not OK hides an argument that was not found, if it comes later.
later_failure : check_exit (none ∷ some (false ∷ []) ∷ []) 0 ≡ 1
unfolding check_exit check_files
later_failure = refl
