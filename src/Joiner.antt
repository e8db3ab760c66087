-- ===== src/Joiner.antt =====
-- DShow.cpp and DShow.h, `CAVIJoiner`: the list of files that a text names, and the files played one
-- after another as one stream. What `CFileFind` finds and whether a file opens are arguments, and so
-- are the frames of a file; a file that opens is taken to deliver its frames and then its end, once.
-- `qsort` is insertion into a sorted list, which differs only among names equal but for case.
pub mod Phases
pub mod Playing
pub mod Stopping
use win_dv.Prelude.{
  ℕ, ◌+◌, Bool, true, false, ◌&&◌, ◌||◌, ltb, leb, ◌==◌, if◌then◌else◌, List, [], ◌∷◌, ◌++◌, length,
  get_or, Option, none, some, ◌≡◌,
}
use win_dv.Checksum.{lower}

-- The first part of a text up to a '|', and the parts after it.
abbrev pub tokens : List ℕ → List ℕ × List (List ℕ)
tokens [] = ([], [])
tokens (c ∷ cs) =
    let (token, more) = tokens cs in if c == 124 then ([], token ∷ more) else (c ∷ token, more)

abbrev pub is_space : ℕ → Bool
is_space c = c == 32 || leb 9 c && leb c 13

abbrev pub trim_left : List ℕ → List ℕ
trim_left [] = []
trim_left (c ∷ cs) = let rest = trim_left cs in if is_space c then rest else c ∷ cs

abbrev pub trim_right : List ℕ → List ℕ
trim_right [] = []
trim_right (c ∷ cs) = elim (trim_right cs) [
  | [] ↦ if is_space c then [] else c ∷ []
  | d ∷ ds ↦ c ∷ d ∷ ds
]

-- `CompareNoCase(a, b) <= 0`.
unfoldable pub leb_text : List ℕ → List ℕ → Bool
leb_text [] t = true
leb_text (a ∷ s) [] = false
leb_text (a ∷ s) (b ∷ t) =
    let rest = leb_text s t in if lower a == lower b then rest else ltb (lower a) (lower b)

unfoldable pub insert : List ℕ → List (List ℕ) → List (List ℕ)
insert s [] = s ∷ []
insert s (t ∷ ts) = let rest = insert s ts in if leb_text s t then s ∷ t ∷ ts else t ∷ rest

unfoldable pub sort : List (List ℕ) → List (List ℕ)
sort [] = []
sort (s ∷ ss) = insert s (sort ss)

-- The files that the tokens name, or the token for which none is found.
pub data Expansion : Type 0 where
  not_found : List ℕ → Expansion
  found : List (List ℕ) → Expansion

-- The names of the first token before those of the others.
abbrev pub before_all : List (List ℕ) → Expansion → Expansion
before_all files (not_found token) = not_found token
before_all files (found more) = found (files ++ more)

unfoldable pub expand : (List ℕ → List (List ℕ)) → List (List ℕ) → Expansion
expand find [] = found []
expand find (token ∷ more) =
    let rest = expand find more in
    elim (trim_right (trim_left token)) [
      | [] ↦ rest
      | c ∷ cs ↦ elim (find (c ∷ cs)) [
        | [] ↦ not_found (c ∷ cs)
        | file ∷ files ↦ before_all (sort (file ∷ files)) rest
      ]
    ]

-- A `CAVIReader`: the frames that it still has, and whether it has delivered its end.
pub record Reader (F : Type 0) : Type 0 where
  pub left : List F
  pub ended : Bool
  pub running : Bool

-- `thread` is whether JoinerThread runs, `has_thread` whether `m_thread` points to it, and `ev`
-- whether its event is set.
pub record Joiner (F : Type 0) : Type 0 where
  pub filenames : List (List ℕ)
  pub current : ℕ
  pub reader : Option (Reader F)
  pub ev : Bool
  pub thread : Bool
  pub has_thread : Bool
  pub stopping : Bool

-- What the handler downstream gets: a frame, or the end.
pub data Out (F : Type 0) : Type 0 where
  forwarded : F → Out F
  end_of_stream : Out F

-- How the constructor ends: it throws, or the joiner is there.
pub data Construction (F : Type 0) : Type 0 where
  file_not_found : List ℕ → Construction F
  no_file_selected : Construction F
  cannot_open : List ℕ → Construction F
  joined : Joiner F → Construction F

module _ {F : Type 0} where
  -- The reader starts.
  abbrev pub started : Option (Reader F) → Option (Reader F)
  started none = none
  started (some r) = some (record r { running = true })

  unfoldable pub run : Joiner F → Joiner F
  run j = record j { thread = true; has_thread = true; reader = started j.reader }

  -- `HandleFrame`; `none` is the end of the stream.
  unfoldable pub handle_frame : Joiner F → Option F → Joiner F × List (Out F)
  handle_frame j none = if j.stopping then (j, []) else (record j { ev = true }, [])
  handle_frame j (some x) = if j.stopping then (j, []) else (j, forwarded x ∷ [])

  -- `Stop`, up to the wait for the thread, and after it.
  unfoldable pub request_stop : Joiner F → Joiner F
  request_stop j = record j { stopping = true; ev = j.ev || j.has_thread }

  unfoldable pub finish_stop : Joiner F → Joiner F
  finish_stop j = record j { has_thread = false; reader = none; stopping = false }

module _ {F : Type 0} (content : List ℕ → List F) where
  abbrev pub open_reader : List ℕ → Bool → Reader F
  open_reader path running = record { left = content path; ended = false; running = running }

  -- The joiner with its first file open.
  abbrev pub initial : List ℕ → List (List ℕ) → Joiner F
  initial file files = record {
    filenames = file ∷ files;
    current = 1;
    reader = some (open_reader file false);
    ev = false;
    thread = false;
    has_thread = false;
    stopping = false;
  }

  abbrev pub open_first : (List ℕ → Bool) → Expansion → Construction F
  open_first opens (not_found token) = file_not_found token
  open_first opens (found []) = no_file_selected
  open_first opens (found (file ∷ files)) =
      if opens file then joined (initial file files) else cannot_open file

  unfoldable pub new_joiner : (List ℕ → List (List ℕ)) → (List ℕ → Bool) → List ℕ → Construction F
  new_joiner find opens text =
      let (token, more) = tokens text in open_first opens (expand find (token ∷ more))

  -- One round of `JoinerThread`, whose event is set, and reset by the wait.
  unfoldable pub joiner_thread : Joiner F → Joiner F × List (Out F)
  joiner_thread j =
      if j.stopping
      then (record j { ev = false; thread = false }, [])
      else if ltb j.current (length j.filenames)
      then (
        record j {
          ev = false;
          reader = some (open_reader (get_or j.filenames j.current []) true);
          current = j.current + 1;
        },
        [],
      )
      else (record j { ev = false; thread = false }, end_of_stream ∷ [])

  -- What can happen while the joiner plays: the reader delivers a frame, or its end, and the thread
  -- wakes.
  pub data Step : Joiner F → List (Out F) → Joiner F → Type 0 where
    deliver :
        (j : Joiner F) (r : Reader F) (x : F) (xs : List F)
        → j.reader ≡ some r
        → r.running ≡ true
        → r.left ≡ x ∷ xs
        → Step j
            (handle_frame (record j { reader = some (record r { left = xs }) }) (some x)).1
            (handle_frame (record j { reader = some (record r { left = xs }) }) (some x)).0
    deliver_end :
        (j : Joiner F) (r : Reader F)
        → j.reader ≡ some r
        → r.running ≡ true
        → r.left ≡ []
        → r.ended ≡ false
        → Step j
            (handle_frame (record j { reader = some (record r { ended = true }) }) none).1
            (handle_frame (record j { reader = some (record r { ended = true }) }) none).0
    wake :
        (j : Joiner F)
        → j.thread ≡ true
        → j.ev ≡ true
        → Step j (joiner_thread j).1 (joiner_thread j).0

  pub data Steps : Joiner F → List (Out F) → Joiner F → Type 0 where
    done : (j : Joiner F) → Steps j [] j
    next :
        {j j' j'' : Joiner F} {o os : List (Out F)}
        → Step j o j'
        → Steps j' os j''
        → Steps j (o ++ os) j''
