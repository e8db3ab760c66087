-- ===== src/Examples/Choosing.antt =====
-- Three files that are chosen.
use win_dv.Prelude.{ℕ, ◌≡◌, refl, arith, List, [], ◌∷◌, ◌++◌, none, some}
use win_dv.Joiner.{expand, found}
use win_dv.FileList.{
  gather, on_drop_files, bar, reverse_find, extract_base, select_files, command_files, record_text,
}
use win_dv.FileList.Played.{IsName, all_tokens, chosen_files_played}

-- A disk that has every file.
abbrev full_disk : List ℕ → List (List ℕ)
full_disk p = p ∷ []

file_a-IsName : IsName full_disk (97 ∷ [])
file_a-IsName = record {
  solid = refl;
  ends_solid = refl;
  no_bar = (omega arith, record {});
  there = refl;
}

file_b-IsName : IsName full_disk (98 ∷ 32 ∷ 98 ∷ [])
file_b-IsName = record {
  solid = refl;
  ends_solid = refl;
  no_bar = (omega arith, (omega arith, (omega arith, record {})));
  there = refl;
}

chosen_files_played_example :
    (on_drop_files bar some ((97 ∷ []) ∷ (98 ∷ 32 ∷ 98 ∷ []) ∷ [])
      ≡ some (select_files ((97 ∷ []) ∷ (98 ∷ 32 ∷ 98 ∷ []) ∷ [])))
    × (command_files ((97 ∷ []) ∷ (98 ∷ 32 ∷ 98 ∷ []) ∷ []) []
        ≡ select_files ((97 ∷ []) ∷ (98 ∷ 32 ∷ 98 ∷ []) ∷ []))
    × (expand full_disk (
          all_tokens (
            record_text
              (select_files ((97 ∷ []) ∷ []))
              (select_files ((97 ∷ []) ∷ (98 ∷ 32 ∷ 98 ∷ []) ∷ []))
              (select_files [])))
        ≡ found (((97 ∷ []) ∷ []) ++ (((97 ∷ []) ∷ (98 ∷ 32 ∷ 98 ∷ []) ∷ []) ++ [])))
chosen_files_played_example =
    chosen_files_played full_disk ((97 ∷ []) ∷ []) (97 ∷ []) ((98 ∷ 32 ∷ 98 ∷ []) ∷ []) []
      (file_a-IsName, record {}) (file_a-IsName, (file_b-IsName, record {})) (record {})

-- "a.b\c.avi" and "a.b\c": only a dot in the file's name counts.
extract_base-dots :
    (extract_base (97 ∷ 46 ∷ 98 ∷ 92 ∷ 99 ∷ 46 ∷ 97 ∷ []) ≡ some (97 ∷ 46 ∷ 98 ∷ 92 ∷ 99 ∷ []))
    × (extract_base (97 ∷ 46 ∷ 98 ∷ 92 ∷ 99 ∷ []) ≡ some (97 ∷ 46 ∷ 98 ∷ 92 ∷ 99 ∷ []))
unfolding extract_base reverse_find
extract_base-dots = (refl, refl)

-- Of two files dropped on the capture file the first counts, and a name without a base is ignored.
extract_base-on_drop_files :
    (on_drop_files [] extract_base ((99 ∷ 46 ∷ 97 ∷ []) ∷ (98 ∷ []) ∷ []) ≡ some (99 ∷ []))
    × (on_drop_files [] extract_base ((46 ∷ 97 ∷ []) ∷ []) ≡ none)
unfolding on_drop_files gather extract_base reverse_find
extract_base-on_drop_files = (refl, refl)
