-- ===== src/Dialog/Display.antt =====
-- DVToolsDlg.cpp, `CDVToolsDlg::OnTimer` and `OnDVTimeChange`: the elapsed time and the time on the
-- tape, as they are shown. `strftime` with `localtime` is an argument.
use win_dv.Prelude.{
  ℕ, suc, ◌+◌, ◌-◌, ◌*◌, ◌/◌, ◌%◌, ◌<◌, ◌≡◌, refl, ap, ◌∙◌, true, ltb, if◌then◌else◌, List, [], ◌∷◌,
  ◌++◌, some, arith,
}
use win_dv.Prelude.Int.{ℤ, pos, leb_ℤ, ltb_ℤ, pos_part}
use win_dv.Cdv.{State}
use win_dv.Naming.{is_digit, digits, padded}
use win_dv.Naming.Fresh.{parse-digits, parse-padded}
use win_dv.CommandLine.{run_digits, run_fraction, finish_duration, parse_duration}
use win_dv.CommandLine.Duration.{shown, run_digits-parse}

-- "%d:%02d:%02d.%01d", of a time in units of 100 ns that is not negative.
unfoldable pub time_text : ℕ → List ℕ
time_text t =
    let tenths = t / 1000000 in
    let seconds = tenths / 10 in
    shown (seconds / 60 / 60)
    ++ (58 ∷ padded 2 (seconds / 60 % 60)
        ++ (58 ∷ padded 2 (seconds % 60) ++ (46 ∷ padded 1 (tenths % 10))))

-- `txt2`: nothing without a pipeline or a time.
unfoldable pub elapsed_text : State → ℤ → List ℕ
elapsed_text s t = elim s [
  | State.idle ↦ []
  | _ ↦ if leb_ℤ (pos 0) t then time_text (pos_part t) else []
]

-- `OnDVTimeChange`.
abbrev pub tape_text : (ℤ → List ℕ) → ℤ → List ℕ
tape_text format t = if ltb_ℤ (pos 0) t then format t else []

parse_duration-tenths :
    (arg r r' r'' : List ℕ) (a b c us : ℕ)
    → run_digits arg 0 ≡ (a, 58 ∷ r)
    → run_digits r 0 ≡ (b, 58 ∷ r')
    → run_digits r' 0 ≡ (c, 46 ∷ r'')
    → run_fraction r'' 1000000 0 ≡ (us, [])
    → parse_duration arg ≡ some (((a * 60 + b) * 60 + c) * 10000000 + us)
unfolding parse_duration finish_duration
parse_duration-tenths arg r r' r'' a b c us e e' e'' f = ground (arith, e, e', e'', f)

padded-digit : (d : ℕ) → d < 10 → padded 1 d ≡ (48 + d) ∷ []
unfolding digits
padded-digit d lt =
    let small : ltb d 10 ≡ true = ground arith in
    let same : d % 10 ≡ d = omega arith in rw (small, same) refl

run_fraction-digit : (d : ℕ) → d < 10 → run_fraction ((48 + d) ∷ []) 1000000 0 ≡ (1000000 * d, [])
unfolding run_fraction
run_fraction-digit d lt =
    let is : is_digit (48 + d) ≡ true = ground arith in
    let value : 0 + 1000000 * (48 + d - 48) ≡ 1000000 * d = omega arith in rw (is, value) refl

-- The time that the window shows is read by the command line as the time since the start, rounded
-- down to tenths of a second.
pub parse_duration-time_text : (t : ℕ) → parse_duration (time_text t) ≡ some (t / 1000000 * 1000000)
unfolding time_text
parse_duration-time_text t =
    let tenths = t / 1000000 in
    let seconds = tenths / 10 in
    let h = seconds / 60 / 60 in
    let m = seconds / 60 % 60 in
    let s = seconds % 60 in
    let d = tenths % 10 in
    parse_duration-tenths _ (padded 2 m ++ (58 ∷ padded 2 s ++ (46 ∷ padded 1 d)))
      (padded 2 s ++ (46 ∷ padded 1 d)) (padded 1 d) h m s (1000000 * d)
      (run_digits-parse (shown h) 58 _ 0 h refl (parse-digits (suc h) h (omega arith)))
      (run_digits-parse (padded 2 m) 58 _ 0 m refl (parse-padded 2 m))
      (run_digits-parse (padded 2 s) 46 _ 0 s refl (parse-padded 2 s))
      (ap (λ ds. run_fraction ds 1000000 0) (padded-digit d (omega arith))
        ∙ run_fraction-digit d (omega arith))
    ∙ ap some (omega arith)
