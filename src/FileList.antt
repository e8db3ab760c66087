-- ===== src/FileList.antt =====
-- WinDV.cpp, DropFilesEdit.cpp and DVToolsDlg.cpp: the text that a list of chosen files becomes, on
-- its way to the joiner. What the file dialog and the shell deliver are arguments; a name dropped
-- has at most 255 characters.
pub mod Played
use win_dv.Prelude.{
  Bool, true, false, ℕ, zero, suc, ◌+◌, ◌-◌, ltb, ◌==◌, if◌then◌else◌, take, List, [], ◌∷◌, ◌++◌,
  Option, none, some,
}

-- A text with a separator and another text after it, or that text alone.
abbrev pub extended : List ℕ → List ℕ → List ℕ → List ℕ
extended sep [] name = name
extended sep (c ∷ cs) name = (c ∷ cs) ++ (sep ++ name)

-- The loop of `CDropFilesEdit::OnDropFiles`; the filter rejects a name or changes it.
unfoldable pub gather : List ℕ → (List ℕ → Option (List ℕ)) → List (List ℕ) → List ℕ → List ℕ
gather sep filter [] text = text
gather sep filter (name ∷ names) text = elim (filter name) [
  | none ↦ gather sep filter names text
  | some name' ↦ gather sep filter names (extended sep text name')
]

-- The files that it asks for: all, or the first if there is no separator.
abbrev pub asked : List ℕ → List (List ℕ) → List (List ℕ)
asked (c ∷ cs) names = names
asked [] [] = []
asked [] (name ∷ names) = name ∷ []

-- The new text of the control; `none` is that it stays.
unfoldable pub on_drop_files : List ℕ → (List ℕ → Option (List ℕ)) → List (List ℕ) → Option (List ℕ)
on_drop_files sep filter names = elim (gather sep filter (asked sep names) []) [
  | [] ↦ none
  | c ∷ cs ↦ some (c ∷ cs)
]

-- " | ".
abbrev pub bar : List ℕ
bar = 32 ∷ 124 ∷ 32 ∷ []

-- The loop of `SelectFile` over several files.
unfoldable pub select_files : List (List ℕ) → List ℕ
select_files [] = []
select_files (name ∷ []) = name
select_files (name ∷ name' ∷ names) = name ++ (bar ++ select_files (name' ∷ names))

-- The loop of the command "record" over its arguments.
unfoldable pub command_files : List (List ℕ) → List ℕ → List ℕ
command_files [] text = text
command_files (name ∷ names) text = command_files names (extended bar text name)

-- The argument of `BuildRecording`.
abbrev pub record_text : List ℕ → List ℕ → List ℕ → List ℕ
record_text prefix files suffix = prefix ++ (124 ∷ files ++ (124 ∷ suffix))

-- The place of the last such character, from 1; 0 is that there is none.
unfoldable pub reverse_find : List ℕ → ℕ → ℕ
reverse_find [] c = 0
reverse_find (x ∷ xs) c = elim (reverse_find xs c) [
  | zero ↦ if x == c then 1 else 0
  | suc n ↦ suc (suc n)
]

-- `CaptureFilenameExtractBase`, the filter of the capture file.
unfoldable pub extract_base : List ℕ → Option (List ℕ)
extract_base file =
    let pos = reverse_find file 46 in
    let sep = reverse_find file 92 in
    let sep2 = reverse_find file 47 in
    let sep' = if ltb sep sep2 then sep2 else sep in
    elim (if ltb sep' pos then take (pos - 1) file else file) [ [] ↦ none | c ∷ cs ↦ some (c ∷ cs) ]
