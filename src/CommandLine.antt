-- ===== src/CommandLine.antt =====
-- DVToolsDlg.cpp, `CDVToolsDlg::OnInitDialog`: the command line, what it asks for, and the exit
-- codes of the commands that run without the dialog. A character is its code, and an argument has
-- no NUL. The fields of a duration are `int`s; that they stay below 2^31 is taken for granted.
pub mod Duration
pub mod ExitCodes
use win_dv.Prelude.{
  ℕ, ◌+◌, ◌-◌, ◌*◌, ◌/◌, Bool, true, false, not, ◌&&◌, ◌||◌, ltb, leb, ◌==◌, if◌then◌else◌, List,
  [], ◌∷◌, ◌++◌, Option, none, some,
}
use win_dv.Naming.{is_digit}

-- `for(;isdigit(*arg);arg++) ...`: the number read on from `n`, and what is left.
unfoldable pub run_digits : List ℕ → ℕ → ℕ × List ℕ
run_digits [] n = (n, [])
run_digits (c ∷ cs) n =
    let more = run_digits cs (n * 10 + (c - 48)) in if is_digit c then more else (n, c ∷ cs)

-- The digits after the point, weighted from `i` downward.
unfoldable pub run_fraction : List ℕ → ℕ → ℕ → ℕ × List ℕ
run_fraction [] i us = (us, [])
run_fraction (c ∷ cs) i us =
    let more = run_fraction cs (i / 10) (us + i * (c - 48)) in
    if is_digit c then more else (us, c ∷ cs)

-- From `timusec` on; `none` is `timerr`. The time is in units of 100 ns.
unfoldable pub finish_duration : ℕ → ℕ → ℕ → List ℕ → Option ℕ
finish_duration hh mi ss [] = some (((hh * 60 + mi) * 60 + ss) * 10000000)
finish_duration hh mi ss (c ∷ cs) =
    if c == 46
    then (let (us, rest) = run_fraction cs 1000000 0 in
        elim rest [ [] ↦ some (((hh * 60 + mi) * 60 + ss) * 10000000 + us) | d ∷ ds ↦ none ])
    else none

-- Whether the argument is at its end or at a point.
abbrev pub at_end : List ℕ → Bool
at_end [] = true
at_end (c ∷ cs) = c == 46

-- What follows a colon, if one is there.
abbrev pub after_colon : List ℕ → Option (List ℕ)
after_colon [] = none
after_colon (c ∷ cs) = if c == 58 then some cs else none

unfoldable pub parse_duration : List ℕ → Option ℕ
parse_duration arg =
    let (a, rest) = run_digits arg 0 in
    if at_end rest then finish_duration 0 0 a rest else elim (after_colon rest) [
      | none ↦ none
      | some arg' ↦
          let (b, rest') = run_digits arg' 0 in
          if at_end rest' then finish_duration 0 a b rest' else elim (after_colon rest') [
            | none ↦ none
            | some arg'' ↦ let (c, rest'') = run_digits arg'' 0 in finish_duration a b c rest''
          ]
    ]

-- What is asked for. The first part of a capture or a recording is `m_exitOnFinish`.
pub data Request : Type 0 where
  no_arguments usage : Request
  capture : Bool → ℕ → List ℕ → Request
  record_files : Bool → List (List ℕ) → Request
  check : Bool → List (List ℕ) → Request
  hash : Bool → List (List ℕ) → Request
  verify : List (List ℕ) → Request

abbrev pub same_text : List ℕ → List ℕ → Bool
same_text [] [] = true
same_text [] (y ∷ ys) = false
same_text (x ∷ xs) [] = false
same_text (x ∷ xs) (y ∷ ys) = x == y && same_text xs ys

-- An optional flag before the other arguments.
abbrev pub take_flag : List ℕ → List (List ℕ) → Bool × List (List ℕ)
take_flag flag [] = (false, [])
take_flag flag (arg ∷ args) = if same_text arg flag then (true, args) else (false, arg ∷ args)

-- "-exit", "-v" and "-q".
abbrev pub exit_flag : List ℕ
exit_flag = 45 ∷ 101 ∷ 120 ∷ 105 ∷ 116 ∷ []

abbrev pub verbose_flag : List ℕ
verbose_flag = 45 ∷ 118 ∷ []

abbrev pub quiet_flag : List ℕ
quiet_flag = 45 ∷ 113 ∷ []

unfoldable pub capture_request : List (List ℕ) → Request
capture_request args =
    let (exit, rest) = take_flag exit_flag args in
    elim rest [
      | [] ↦ Request.usage
      | arg ∷ more ↦ elim (parse_duration arg) [
        | none ↦ Request.usage
        | some t ↦ elim more [
          | [] ↦ Request.usage
          | file ∷ extra ↦ elim extra [ [] ↦ Request.capture exit t file | e ∷ es ↦ Request.usage ]
        ]
      ]
    ]

abbrev pub files_request : (List (List ℕ) → Request) → List (List ℕ) → Request
files_request make [] = Request.usage
files_request make (file ∷ files) = make (file ∷ files)

unfoldable pub request : List (List ℕ) → Request
request [] = Request.no_arguments
request (word ∷ args) =
    if same_text word (99 ∷ 97 ∷ 112 ∷ 116 ∷ 117 ∷ 114 ∷ 101 ∷ [])
    then capture_request args
    else if same_text word (114 ∷ 101 ∷ 99 ∷ 111 ∷ 114 ∷ 100 ∷ [])
    then (let (exit, files) = take_flag exit_flag args in
        files_request (Request.record_files exit) files)
    else if same_text word (99 ∷ 104 ∷ 101 ∷ 99 ∷ 107 ∷ [])
    then (let (verbose, files) = take_flag verbose_flag args in
        files_request (Request.check verbose) files)
    else if same_text word (104 ∷ 97 ∷ 115 ∷ 104 ∷ [])
    then (let (quiet, files) = take_flag quiet_flag args in
        files_request (Request.hash quiet) files)
    else if same_text word (118 ∷ 101 ∷ 114 ∷ 105 ∷ 102 ∷ 121 ∷ [])
    then files_request Request.verify args
    else Request.usage

-- The exit code of "verify", for what `VerifyFileSHA256` returns for each file.
unfoldable pub verify_exit : List ℕ → ℕ → ℕ
verify_exit [] code = code
verify_exit (r ∷ rs) code = verify_exit rs (
    if r == 0
    then code
    else if r == 1
    then (if ltb code 1 then 1 else code)
    else if ltb code 2
    then 2
    else code)

-- The exit code of "hash", for whether each file could be read.
unfoldable pub hash_exit : List Bool → ℕ → ℕ
hash_exit [] code = code
hash_exit (readable ∷ rs) code = hash_exit rs (if readable || not (ltb code 2) then code else 2)

-- The exit code of "check". For each argument there is nothing if no file is found, and otherwise
-- whether each of the files found is OK.
unfoldable pub check_files : List Bool → ℕ → ℕ
check_files [] code = code
check_files (ok ∷ oks) code = check_files oks (if ok then code else 1)

unfoldable pub check_exit : List (Option (List Bool)) → ℕ → ℕ
check_exit [] code = code
check_exit (none ∷ rs) code = check_exit rs (if ltb code 2 then 2 else code)
check_exit (some oks ∷ rs) code = check_exit rs (check_files oks code)
