-- ===== src/Checksum.antt =====
-- DShow.cpp, `ComputeFileSHA256`, `WriteSHA256Sidecar` and `VerifyFileSHA256`: the digest of a file
-- and the text file beside it. A path and a text are lists of character codes; a text is as `fgets`
-- delivers it, with "\n" at the end of a line. What the disk holds is an argument.
pub mod File
pub mod Sidecar
use win_dv.Prelude.{
  ℕ, ◌+◌, ◌-◌, Bool, true, false, ◌&&◌, ◌||◌, ltb, leb, ◌==◌, if◌then◌else◌, List, [], ◌∷◌, ◌++◌,
  length, take, drop, Option, none, some, map,
}
use win_dv.CommandLine.{same_text}
use win_dv.Sha256.{Context, sha256_init, sha256_update}
use win_dv.Sha256.Bytes.{sha256_final, sha256_hex}

-- The results of `ReadFile`, call after call; `none` is a call that fails.
abbrev pub Reads : Type 0
Reads = List (Option (List ℕ))

-- `while (ReadFile(...) && dwRead > 0) sha256_update(...)`.
unfoldable pub read_loop : Reads → Context → Context
read_loop [] c = c
read_loop (none ∷ rs) c = c
read_loop (some [] ∷ rs) c = c
read_loop (some (b ∷ bs) ∷ rs) c = read_loop rs (sha256_update c (b ∷ bs))

-- `none` if the file does not open; the context is on the stack, over a buffer with any bytes.
unfoldable pub compute_file_sha256 : (ℕ → ℕ) → Option Reads → Option (List ℕ)
compute_file_sha256 memory none = none
compute_file_sha256 memory (some rs) =
    some (sha256_hex (sha256_final (read_loop rs (sha256_init memory))))

-- The text files of the disk, and one of them set.
abbrev pub Texts : Type 0
Texts = List ℕ → Option (List ℕ)

abbrev pub set_text : Texts → List ℕ → List ℕ → Texts
set_text disk path text path' = if same_text path path' then some text else disk path'

abbrev pub or_empty : Option (List ℕ) → List ℕ
or_empty none = []
or_empty (some text) = text

-- "%s *%s\n".
abbrev pub sidecar_line : List ℕ → List ℕ → List ℕ
sidecar_line hash name = hash ++ (32 ∷ 42 ∷ name ++ (10 ∷ []))

-- `can_open` is whether `fopen` succeeds.
unfoldable pub write_sha256_sidecar :
    (List ℕ → Bool) → Texts → List ℕ → List ℕ → List ℕ → Bool → Texts
write_sha256_sidecar can_open disk path hash name append =
    if can_open path
    then set_text disk path
        ((if append then or_empty (disk path) else []) ++ sidecar_line hash name)
    else disk

-- "%s.sha256".
abbrev pub sidecar_path : List ℕ → List ℕ
sidecar_path path = path ++ (46 ∷ 115 ∷ 104 ∷ 97 ∷ 50 ∷ 53 ∷ 54 ∷ [])

-- What follows the last backslash, if there is one.
abbrev pub after_last : List ℕ → Option (List ℕ)
after_last [] = none
after_last (c ∷ cs) = elim (after_last cs) [
  | some rest ↦ some rest
  | none ↦ if c == 92 then some cs else none
]

unfoldable pub bare_name : List ℕ → List ℕ
bare_name path = elim (after_last path) [ some rest ↦ rest | none ↦ path ]

-- The lines that `fgets` reads in turn, with room for `room` characters of the first and for 511 of
-- each other.
unfoldable pub lines : ℕ → List ℕ → List (List ℕ)
lines room [] = []
lines room (c ∷ cs) =
    let line_ends = c == 10 || leb room 1 in
    let after = lines (if line_ends then 511 else room - 1) cs in
    if line_ends
    then (c ∷ []) ∷ after
    else elim after [ [] ↦ (c ∷ []) ∷ [] | line ∷ more ↦ (c ∷ line) ∷ more ]

-- A string ends at its first NUL.
abbrev pub c_string : List ℕ → List ℕ
c_string [] = []
c_string (c ∷ cs) = if c == 0 then [] else c ∷ c_string cs

-- What follows the first `c`: `strchr(s, c) + 1`.
abbrev pub after : ℕ → List ℕ → Option (List ℕ)
after c [] = none
after c (d ∷ ds) = if d == c then some ds else after c ds

abbrev pub skip_spaces : List ℕ → List ℕ
skip_spaces [] = []
skip_spaces (c ∷ cs) = if c == 32 then skip_spaces cs else c ∷ cs

-- Without the newlines and carriage returns at the end.
abbrev pub strip_end : List ℕ → List ℕ
strip_end [] = []
strip_end (c ∷ cs) = elim (strip_end cs) [
  | [] ↦ if c == 10 || c == 13 then [] else c ∷ []
  | d ∷ ds ↦ c ∷ d ∷ ds
]

-- `_stricmp(s, t) == 0`, in the C locale.
abbrev pub lower : ℕ → ℕ
lower c = if leb 65 c && leb c 90 then c + 32 else c

abbrev pub same_nocase : List ℕ → List ℕ → Bool
same_nocase s t = same_text (map lower s) (map lower t)

-- What follows the star, or else the space, behind the hash.
abbrev pub after_mark : List ℕ → Option (List ℕ)
after_mark tail = elim (after 42 tail) [ some rest ↦ some rest | none ↦ after 32 tail ]

-- The hash of a line that is about the file.
unfoldable pub entry_hash : List ℕ → List ℕ → Option (List ℕ)
entry_hash name line =
    if ltb (length (c_string line)) 66 then none else elim (after_mark (drop 64 (c_string line))) [
      | none ↦ none
      | some rest ↦
          if same_nocase (strip_end (skip_spaces rest)) name
          then some (take 64 (c_string line))
          else none
    ]

-- The loop over the lines, which stops at the first that is about the file.
unfoldable pub find_entry : List ℕ → List (List ℕ) → Option (List ℕ)
find_entry name [] = none
find_entry name (line ∷ more) = elim (entry_hash name line) [
  | some hash ↦ some hash
  | none ↦ find_entry name more
]

-- `VerifyFileSHA256`: 0 is a match, 1 a mismatch, and 2 that it cannot tell.
unfoldable pub verify_file_sha256 : (ℕ → ℕ) → Texts → (List ℕ → Option Reads) → List ℕ → ℕ
verify_file_sha256 memory disk files path = elim (disk (sidecar_path path)) [
  | none ↦ 2
  | some text ↦ elim (find_entry (bare_name path) (lines 511 text)) [
    | none ↦ 2
    | some expected ↦ elim (compute_file_sha256 memory (files path)) [
      | none ↦ 2
      | some actual ↦ if same_nocase expected actual then 0 else 1
    ]
  ]
]
