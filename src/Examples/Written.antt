-- ===== src/Examples/Written.antt =====
-- The file of a capture "a" of two digits, beside a file "a.09.avi".
use win_dv.Prelude.{
  ℕ, ◌<◌, ◌≡◌, refl, sym, ap, Bool, true, false, Bool-cases, inl, inr, if◌then◌else◌, List, [], ◌∷◌,
  ◌==◌, ◌&&◌, not, none, some, arith, length,
}
use win_dv.Prelude.Int.{pos}
use win_dv.CommandLine.{same_text}
use win_dv.Naming.{get_capture_filename, choose_suffix, scan_names, scan_name, parse, digits}
use win_dv.Naming.Fresh.{numbered}
use win_dv.Naming.Written.{
  Host, Names, Files, IsSearch, IsMove, IsWriter, put, is_there, temporary_name, final_name,
  capture_file, open_file, wide_name, same_text→eq, capture_file_adds, capture_file_final,
}

abbrev letter : List ℕ
letter = 97 ∷ []

abbrev ninth : List ℕ
ninth = numbered letter (48 ∷ 57 ∷ [])

-- "~.00".
abbrev aside : List ℕ
aside = numbered letter (126 ∷ 46 ∷ 48 ∷ 48 ∷ [])

abbrev content : List ℕ
content = 1 ∷ 2 ∷ []

abbrev moved : List ℕ → List ℕ → Files → Bool × Files
moved from to at =
    if is_there (at from) && not (is_there (at to))
    then (true, put from none (put to (at from) at))
    else (false, at)

moved-IsMove : IsMove moved
moved-IsMove = record {
  moves_or_fails = λ from to at. elim (Bool-cases (is_there (at from) && not (is_there (at to)))) [
    | inl can ↦
        inl (ground (arith, can), ground (arith, can), ground (arith, can), λ p. rw can refl)
    | inr cannot ↦ inr (ground (arith, cannot), λ p. rw cannot refl)
  ];
}

moved-vacant :
    (from to : List ℕ) (at : Files) → at to ≡ none → (moved from to at).0 ≡ is_there (at from)
moved-vacant from to at vacant = ground (arith, vacant)

abbrev host : Host
host = record {
  strftime = λ format t. format;
  find_numbered = λ files base. if length base == 1 then ninth ∷ aside ∷ [] else [];
  cut = λ name. [];
  move_file = moved;
  run_graph = λ name. put name (some content);
}

abbrev names : Names
names = record { filename = letter; dtformat = []; ndigits = 2; dvtime = pos 1 }

abbrev files : Files
files p = if same_text p ninth then some [] else none

writer : IsWriter host.run_graph content
writer = record { writes = λ name at p. refl }

temporary : temporary_name host (pos 7) names files ≡ aside
unfolding temporary_name get_capture_filename choose_suffix scan_names scan_name parse digits
temporary = refl

files-IsSearch : IsSearch host (pos 7) (126 ∷ []) names files
files-IsSearch = record { bare = 97 ∷ 46 ∷ 126 ∷ []; sized = refl; finds = λ suffix there. cc }

host-IsSearch : IsSearch host (pos 9) [] names (open_file host (pos 7) names files).1
unfolding temporary_name get_capture_filename choose_suffix scan_names scan_name parse digits
    open_file wide_name
host-IsSearch = record {
  bare = letter;
  sized = refl;
  finds = λ suffix there.
      let p = numbered letter suffix in
      elim (Bool-cases (same_text p aside)) [
        | inl new ↦ (1, ap some (sym (same_text→eq p aside new)))
        | inr other ↦ elim (Bool-cases (same_text p ninth)) [
          | inl old ↦ (0, ap some (sym (same_text→eq p ninth old)))
          | inr none_of ↦ absurd (ground (arith, other, none_of, there))
        ]
      ];
}

temporary_fits : length (temporary_name host (pos 7) names files) < 256
temporary_fits = rw temporary (omega arith)

capture_file_adds_example :
    let done = capture_file host (pos 7) (pos 9) names files in
    (name : List ℕ) × (name ≡ (
      if done.0
      then final_name host (pos 7) (pos 9) names content files
      else temporary_name host (pos 7) names files))
    × (files name ≡ none)
    × ((p : List ℕ) → done.1 p ≡ (if same_text p name then some content else files p))
capture_file_adds_example =
    capture_file_adds host (pos 7) (pos 9) names content files moved-IsMove writer files-IsSearch
      temporary_fits

capture_file_final_example :
    let done = capture_file host (pos 7) (pos 9) names files in
    let name = final_name host (pos 7) (pos 9) names content files in
    (done.0 ≡ true) × (files name ≡ none) × (done.1 name ≡ some content)
capture_file_final_example =
    capture_file_final host (pos 7) (pos 9) names content files moved-IsMove writer files-IsSearch
      temporary_fits host-IsSearch moved-vacant

-- The next number.
final_tenth : final_name host (pos 7) (pos 9) names content files ≡ numbered letter (49 ∷ 48 ∷ [])
unfolding temporary_name get_capture_filename choose_suffix scan_names scan_name parse digits
    open_file wide_name
final_tenth = refl
