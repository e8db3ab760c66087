-- ===== src/Naming/Written.antt =====
-- DShow.cpp, `CAVIWriter`: the file of a capture, from the temporary name that the constructor
-- makes to the final one that the destructor gives it. Arguments are `strftime`, of the format and
-- the time, the clock, the search of a directory, `MoveFile`, and what the mux and the sink make
-- of the files while the graph runs.
use win_dv.Prelude.{
  ℕ, ◌+◌, ◌<◌, ◌≡◌, ◌⊎◌, inl, inr, refl, sym, ap, ◌∙◌, Bool, true, false, leb, if◌then◌else◌, List,
  [], ◌∷◌, length, get_elem?, Option, none, some, arith, Bool-cases,
}
use win_dv.Prelude.Int.{ℤ}
use win_dv.CommandLine.{same_text}
use win_dv.Checksum.Sidecar.{same_text_refl}
use win_dv.Naming.{get_capture_filename, base_and_time, bare_size}
use win_dv.Naming.Fresh.{numbered, get_capture_filename_absent}

-- The files by their path.
abbrev pub Files : Type 0
Files = List ℕ → Option (List ℕ)

abbrev pub is_there : Option (List ℕ) → Bool
is_there none = false
is_there (some content) = true

abbrev pub put : List ℕ → Option (List ℕ) → Files → Files
put path content files p = if same_text p path then content else files p

-- The search is for the pattern of a base.
pub record Host : Type 0 where
  pub strftime : List ℕ → ℤ → List ℕ
  pub find_numbered : Files → List ℕ → List (List ℕ)
  -- What `wbuf` holds after the conversion of a name that does not fit.
  pub cut : List ℕ → List ℕ
  pub move_file : List ℕ → List ℕ → Files → Bool × Files
  -- A graph that runs with the file of a name.
  pub run_graph : List ℕ → Files → Files

-- `m_filename`, `m_dtformat`, `m_ndigits`, `m_dvtime`.
pub record Names : Type 0 where
  pub filename : List ℕ
  pub dtformat : List ℕ
  pub ndigits : ℕ
  pub dvtime : ℤ

abbrev pub named : Host → ℤ → List ℕ → Names → Files → List ℕ
named h now dtformat n files =
    get_capture_filename (h.strftime dtformat) now (h.find_numbered files) (λ p. is_there (files p))
      n.filename n.ndigits n.dvtime

-- `m_tmpfile`.
unfoldable pub temporary_name : Host → ℤ → Names → Files → List ℕ
temporary_name h now n files = named h now (126 ∷ n.dtformat) n files

-- `wbuf`, with the zero at its end.
unfoldable pub wide_name : Host → List ℕ → List ℕ
wide_name h name = if leb (length name + 1) 256 then name else h.cut name

-- The constructor, and the graph that it runs.
unfoldable pub open_file : Host → ℤ → Names → Files → List ℕ × Files
open_file h now n files =
    let tmp = temporary_name h now n files in (tmp, h.run_graph (wide_name h tmp) files)

-- The destructor: the file is left under its temporary name if it cannot be moved.
unfoldable pub close_file : Host → ℤ → Names → List ℕ → Files → Bool × Files
close_file h now n tmp files = h.move_file tmp (named h now n.dtformat n files) files

abbrev pub capture_file : Host → ℤ → ℤ → Names → Files → Bool × Files
capture_file h begun ended n files =
    close_file h ended n (open_file h begun n files).0 (open_file h begun n files).1

-- `MoveFile` moves a file that is there to a name that is free, or does nothing.
pub record IsMove (move : List ℕ → List ℕ → Files → Bool × Files) : Type 0 where
  pub moves_or_fails :
      (from to : List ℕ) (files : Files)
      → (((move from to files).0 ≡ true)
          × (is_there (files from) ≡ true)
          × (files to ≡ none)
          × ((p : List ℕ) → (move from to files).1 p ≡ put from none (put to (files from) files) p))
        ⊎ (((move from to files).0 ≡ false) × ((p : List ℕ) → (move from to files).1 p ≡ files p))

-- The graph writes a content to its file, which is emptied if it is there, and no other.
pub record IsWriter (run : List ℕ → Files → Files) (content : List ℕ) : Type 0 where
  pub writes :
      (name : List ℕ) (files : Files) (p : List ℕ)
      → run name files p ≡ put name (some content) files p

-- The search finds the bare name of each file that is there with the base and a number.
pub record IsSearch (h : Host) (now : ℤ) (dtformat : List ℕ) (n : Names) (files : Files)
    : Type 0 where
  pub bare : List ℕ
  pub sized : bare_size (base_and_time (h.strftime dtformat) now n.filename n.dvtime) ≡ length bare
  pub finds :
      (suffix : List ℕ)
      → is_there
          (files (numbered (base_and_time (h.strftime dtformat) now n.filename n.dvtime) suffix))
        ≡ true
      → (i : ℕ) × (get_elem?
            (h.find_numbered files (base_and_time (h.strftime dtformat) now n.filename n.dvtime))
            i
          ≡ some (numbered bare suffix))

pub named-absent :
    (h : Host) (now : ℤ) (dtformat : List ℕ) (n : Names) (files : Files)
    → IsSearch h now dtformat n files
    → is_there (files (named h now dtformat n files)) ≡ false
named-absent h now dtformat n files s =
    get_capture_filename_absent (h.strftime dtformat) now (h.find_numbered files)
      (λ p. is_there (files p)) n.filename n.ndigits n.dvtime s.bare s.sized s.finds

pub same_text→eq : (s t : List ℕ) → same_text s t ≡ true → s ≡ t
same_text→eq [] [] e = refl
same_text→eq [] (y ∷ ys) e = cc
same_text→eq (x ∷ xs) [] e = cc
same_text→eq (x ∷ xs) (y ∷ ys) e = ground (arith, e, same_text→eq xs ys)

-- One file of a content is added to the files.
abbrev IsAdded : List ℕ → List ℕ → Files → Files → Type 0
IsAdded name content files after =
    (files name ≡ none)
    × ((p : List ℕ) → after p ≡ (if same_text p name then some content else files p))

is_there-none : (c : Option (List ℕ)) → is_there c ≡ false → c ≡ none
is_there-none none e = refl
is_there-none (some c) e = cc

-- A file that was added is one file added when it is moved.
moved-IsAdded :
    (from to : List ℕ) (content : List ℕ) (before files after : Files)
    → IsAdded from content before files
    → files to ≡ none
    → ((p : List ℕ) → after p ≡ put from none (put to (files from) files) p)
    → IsAdded to content before after
moved-IsAdded from to content before files after (absent, added) vacant moved =
    let there : files from ≡ some content = added from ∙ ground (arith, same_text_refl from) in
    (
      ground (arith, vacant, added to),
      λ p. elim (Bool-cases (same_text p from)) [
        | inl it ↦
            let gone : before p ≡ none = ap before (same_text→eq p from it) ∙ absent in
            let apart : same_text p to ≡ false = elim (Bool-cases (same_text p to)) [
              | inr e ↦ e
              | inl e ↦
                  let here : files to ≡ some content =
                    ap files (sym (same_text→eq p to e) ∙ same_text→eq p from it) ∙ there in
                  absurd (ground (arith, here, vacant))
            ] in
            ground (arith, it, moved p, gone, apart)
        | inr other ↦ ground (arith, there, other, added p, moved p)
      ],
    )

module _ (h : Host) (begun ended : ℤ) (n : Names) (content : List ℕ) (files : Files) where
  abbrev tmp : List ℕ
  tmp = temporary_name h begun n files

  abbrev written : Files
  written = (open_file h begun n files).1

  -- The name that the destructor makes.
  abbrev pub final_name : List ℕ
  final_name = named h ended n.dtformat n (open_file h begun n files).1

  written-IsAdded :
      IsWriter h.run_graph content
      → IsSearch h begun (126 ∷ n.dtformat) n files
      → length tmp < 256
      → IsAdded tmp content files written
  unfolding open_file wide_name temporary_name
  written-IsAdded writer found fits =
      let whole : leb (length tmp + 1) 256 ≡ true = ground (arith, fits) in
      let absent =
        is_there-none (files tmp) (named-absent h begun (126 ∷ n.dtformat) n files found) in
      rw whole (absent, writer.writes tmp files)

  -- What becomes of the file when it is closed.
  closed_cases :
      IsMove h.move_file
      → IsAdded tmp content files written
      → (((capture_file h begun ended n files).0 ≡ true)
          × IsAdded final_name content files (capture_file h begun ended n files).1)
        ⊎ (((capture_file h begun ended n files).0 ≡ false)
            × IsAdded tmp content files (capture_file h begun ended n files).1)
  unfolding close_file open_file
  closed_cases mover added = elim (mover.moves_or_fails tmp final_name written) [
    | inl (done, there, vacant, moved) ↦
        inl (done, moved-IsAdded tmp final_name content files written _ added vacant moved)
    | inr (failed, kept) ↦ inr (failed, (added.0, λ p. kept p ∙ added.1 p))
  ]

  -- If the search for numbered names finds the files that are there, the temporary name fits the
  -- buffer, the graph writes a content to its file alone, and `MoveFile` moves a file to a name
  -- that is free or does nothing, then a capture adds one file of that content, and every other
  -- file stays as it was. The new file has the final name if it was moved, and otherwise the
  -- temporary one.
  pub capture_file_adds :
      IsMove h.move_file
      → IsWriter h.run_graph content
      → IsSearch h begun (126 ∷ n.dtformat) n files
      → length (temporary_name h begun n files) < 256
      → let done = capture_file h begun ended n files in
        (name : List ℕ) × (name ≡ (if done.0 then final_name else temporary_name h begun n files))
        × (files name ≡ none)
        × ((p : List ℕ) → done.1 p ≡ (if same_text p name then some content else files p))
  capture_file_adds mover writer found fits =
      elim (closed_cases mover (written-IsAdded writer found fits)) [
        | inl (moved, added) ↦
            (final_name, ap (λ b. if b then final_name else tmp) (sym moved), added.0, added.1)
        | inr (kept, added) ↦
            (tmp, ap (λ b. if b then final_name else tmp) (sym kept), added.0, added.1)
      ]

  -- If the search finds the files that are there, at the beginning of a capture and at its end,
  -- the temporary name fits the buffer, the graph writes a content to its file alone, and
  -- `MoveFile` moves a file to a name that is free whenever the name is free, then the capture is
  -- there under its final name.
  pub capture_file_final :
      IsMove h.move_file
      → IsWriter h.run_graph content
      → IsSearch h begun (126 ∷ n.dtformat) n files
      → length (temporary_name h begun n files) < 256
      → IsSearch h ended n.dtformat n (open_file h begun n files).1
      → ((from to : List ℕ) (at : Files)
          → at to ≡ none
          → (h.move_file from to at).0 ≡ is_there (at from))
      → let done = capture_file h begun ended n files in
        (done.0 ≡ true) × (files final_name ≡ none) × (done.1 final_name ≡ some content)
  unfolding close_file open_file
  capture_file_final mover writer found fits at_end may =
      let added = written-IsAdded writer found fits in
      let there : is_there (written tmp) ≡ true = rw (added.1 tmp, same_text_refl tmp) refl in
      let vacant : written final_name ≡ none =
        is_there-none _ (named-absent h ended n.dtformat n written at_end) in
      let moved = may tmp final_name written vacant ∙ there in
      elim (closed_cases mover added) [
        | inl (done, final) ↦
            (done, final.0, final.1 final_name ∙ rw (same_text_refl final_name) refl)
        | inr (failed, rest) ↦ absurd (ground (arith, failed, moved))
      ]
