-- ===== src/CommandLine/Duration.antt =====
-- DVToolsDlg.cpp, `CDVToolsDlg::OnInitDialog`: the duration of a capture.
use win_dv.Prelude.{ℕ, suc, ◌+◌, ◌-◌, ◌*◌, ◌≡◌, refl, false, List, [], ◌∷◌, ◌++◌, some, arith}
use win_dv.Naming.{is_digit, parse, digits}
use win_dv.Naming.Fresh.{parse-digits}
use win_dv.CommandLine.{run_digits, finish_duration, parse_duration}

-- Digits that are read as a number are read up to what follows them.
pub run_digits-parse :
    (xs : List ℕ) (c : ℕ) (rest : List ℕ) (j k : ℕ)
    → is_digit c ≡ false
    → parse xs j ≡ some k
    → run_digits (xs ++ (c ∷ rest)) j ≡ (k, c ∷ rest)
unfolding run_digits parse
run_digits-parse [] c rest j k stop e = ground (arith, stop, e)
run_digits-parse (x ∷ xs) c rest j k stop e =
    ground (arith, stop, e, run_digits-parse xs c rest (j * 10 + (x - 48)) k stop)

run_digits-end : (xs : List ℕ) (j k : ℕ) → parse xs j ≡ some k → run_digits xs j ≡ (k, [])
unfolding run_digits parse
run_digits-end [] j k e = ground (arith, e)
run_digits-end (x ∷ xs) j k e = ground (arith, e, run_digits-end xs (j * 10 + (x - 48)) k)

-- A number as it is printed.
abbrev pub shown : ℕ → List ℕ
shown n = digits (suc n) n

parse_duration-three :
    (arg r r' : List ℕ) (a b c : ℕ)
    → run_digits arg 0 ≡ (a, 58 ∷ r)
    → run_digits r 0 ≡ (b, 58 ∷ r')
    → run_digits r' 0 ≡ (c, [])
    → parse_duration arg ≡ some (((a * 60 + b) * 60 + c) * 10000000)
unfolding parse_duration finish_duration
parse_duration-three arg r r' a b c e e' e'' = ground (arith, e, e', e'')

-- A duration written as hours, minutes and seconds is read back, in units of 100 ns, also if the
-- minutes or the seconds are 60 or more.
pub parse_duration_hours :
    (hh mi ss : ℕ)
    → parse_duration (shown hh ++ (58 ∷ (shown mi ++ (58 ∷ shown ss))))
      ≡ some (((hh * 60 + mi) * 60 + ss) * 10000000)
parse_duration_hours hh mi ss =
    parse_duration-three _ (shown mi ++ (58 ∷ shown ss)) (shown ss) hh mi ss
      (run_digits-parse (shown hh) 58 (shown mi ++ (58 ∷ shown ss)) 0 hh refl
        (parse-digits (suc hh) hh (omega arith)))
      (run_digits-parse (shown mi) 58 (shown ss) 0 mi refl (parse-digits (suc mi) mi (omega arith)))
      (run_digits-end (shown ss) 0 ss (parse-digits (suc ss) ss (omega arith)))
