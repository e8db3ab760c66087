-- ===== src/Joiner/Phases.antt =====
-- DShow.cpp, `CAVIJoiner`: what is still to come of the stream, and that
-- each step sends the first part of it.
use win_dv.Prelude.{
  ℕ, zero, suc, ◌+◌, ◌<◌, ◌≤◌, ◌≡◌, refl, ap, sym, ◌∙◌, subst, true, false, ltb, dec_lt, List, [],
  ◌∷◌, ◌++◌, map, append_assoc, length, get_or, drop, none, some, arith,
}
use win_dv.Joiner.{
  Reader, Joiner, Out, forwarded, end_of_stream, handle_frame, joiner_thread, Step, deliver,
  deliver_end, wake, open_reader,
}

module _ {F : Type 0} (content : List ℕ → List F) where
  -- The frames of files, one after another.
  unfoldable pub frames_of : List (List ℕ) → List (Out F)
  frames_of [] = []
  frames_of (file ∷ files) = map forwarded (content file) ++ frames_of files

  -- What is still to come once a reader is there: its frames, those of the files after it, the end.
  abbrev pub to_come : Joiner F → List F → List (Out F)
  to_come j left =
      map forwarded left ++ (frames_of (drop j.current j.filenames) ++ (end_of_stream ∷ []))

  -- A joiner that plays.
  pub record IsPlaying (j : Joiner F) (r : Reader F) : Type 0 where
    pub has_reader : j.reader ≡ some r
    pub runs : r.running ≡ true
    pub ends : r.ended ≡ j.ev
    pub empty : j.ev ≡ true → r.left ≡ []
    pub alive : j.thread ≡ true
    pub going : j.stopping ≡ false

  -- A joiner that has played all.
  pub record IsOver (j : Joiner F) : Type 0 where
    pub last_reader : Reader F
    pub had_reader : j.reader ≡ some last_reader
    pub ended_last : last_reader.ended ≡ true
    pub left_none : last_reader.left ≡ []
    pub dead : j.thread ≡ false

  -- Either of them, with what is still to come.
  pub data Phase (j : Joiner F) : List (Out F) → Type 0 where
    playing : (r : Reader F) → IsPlaying j r → Phase j (to_come j r.left)
    over : IsOver j → Phase j []

  drop-get_or :
      (n : ℕ) (files : List (List ℕ))
      → n < length files
      → drop n files ≡ get_or files n [] ∷ drop (n + 1) files
  drop-get_or n [] lt = absurd (omega arith)
  drop-get_or zero (f ∷ files) lt = refl
  drop-get_or (suc n) (f ∷ files) lt =
      drop-get_or n files (omega (arith, lt))
      ∙ ap (λ k. get_or files n [] ∷ drop k (f ∷ files)) {x = suc (n + 1)} {y = suc n + 1}
          (omega arith)

  drop-all : (n : ℕ) (files : List (List ℕ)) → length files ≤ n → drop n files ≡ []
  drop-all zero [] le = refl
  drop-all (suc n) [] le = refl
  drop-all zero (f ∷ files) le = absurd (omega arith)
  drop-all (suc n) (f ∷ files) le = drop-all n files (omega (arith, le))

  -- A step sends the first part of what is to come.
  abbrev pub Moved : List (Out F) → Joiner F × List (Out F) → Type 0
  Moved rest (j', o) = (rest' : List (Out F)) × Phase j' rest' × (rest ≡ o ++ rest')

  same_reader : (j : Joiner F) (r r' : Reader F) → j.reader ≡ some r → j.reader ≡ some r' → r ≡ r'
  same_reader j r r' e e' = cc

  -- The joiner after each step.
  abbrev pub delivered : Joiner F → Reader F → List F → Joiner F
  delivered j r xs = record j { reader = some (record r { left = xs }) }

  abbrev pub ended_reader : Joiner F → Reader F → Joiner F
  ended_reader j r = record j { reader = some (record r { ended = true }); ev = true }

  abbrev pub next_reader : Joiner F → Joiner F
  next_reader j = record j {
    ev = false;
    reader = some (open_reader content (get_or j.filenames j.current []) true);
    current = j.current + 1;
  }

  abbrev pub finished : Joiner F → Joiner F
  finished j = record j { ev = false; thread = false }

  pub forwards :
      (j : Joiner F) (x : F) → j.stopping ≡ false → handle_frame j (some x) ≡ (j, forwarded x ∷ [])
  unfolding handle_frame
  forwards j x going = ground (arith, going)

  pub signals :
      (j : Joiner F) → j.stopping ≡ false → handle_frame j none ≡ (record j { ev = true }, [])
  unfolding handle_frame
  signals j going = ground (arith, going)

  pub opens_next :
      (j : Joiner F)
      → j.stopping ≡ false
      → j.current < length j.filenames
      → joiner_thread content j ≡ (next_reader j, [])
  unfolding joiner_thread
  opens_next j going more =
      let test : ltb j.current (length j.filenames) ≡ true = ground arith in
      ground (arith, going, test)

  pub sends_end :
      (j : Joiner F)
      → j.stopping ≡ false
      → length j.filenames ≤ j.current
      → joiner_thread content j ≡ (finished j, end_of_stream ∷ [])
  unfolding joiner_thread
  sends_end j going last =
      let test : ltb j.current (length j.filenames) ≡ false = ground arith in
      ground (arith, going, test)

  pub delivered-IsPlaying :
      (j : Joiner F) (r : Reader F) (x : F) (xs : List F)
      → IsPlaying j r
      → r.left ≡ x ∷ xs
      → IsPlaying (delivered j r xs) (record r { left = xs })
  delivered-IsPlaying j r x xs p left = record {
    has_reader = refl;
    runs = p.runs;
    ends = p.ends;
    empty = λ set. absurd (let none_left = p.empty set in cc);
    alive = p.alive;
    going = p.going;
  }

  pub ended_reader-IsPlaying :
      (j : Joiner F) (r : Reader F)
      → IsPlaying j r
      → r.left ≡ []
      → IsPlaying (ended_reader j r) (record r { ended = true })
  ended_reader-IsPlaying j r p left = record {
    has_reader = refl;
    runs = p.runs;
    ends = refl;
    empty = λ set. left;
    alive = p.alive;
    going = p.going;
  }

  pub next_reader-IsPlaying :
      (j : Joiner F) (r : Reader F)
      → IsPlaying j r
      → IsPlaying (next_reader j) (open_reader content (get_or j.filenames j.current []) true)
  next_reader-IsPlaying j r p = record {
    has_reader = refl;
    runs = refl;
    ends = refl;
    empty = λ set. absurd (cc);
    alive = p.alive;
    going = p.going;
  }

  finished-IsOver :
      (j : Joiner F) (r : Reader F) → IsPlaying j r → j.ev ≡ true → IsOver (finished j)
  finished-IsOver j r p set = record {
    last_reader = r;
    had_reader = p.has_reader;
    ended_last = p.ends ∙ set;
    left_none = p.empty set;
    dead = refl;
  }

  -- What is to come when a reader has ended: of the next file, or nothing more.
  pub next_file :
      (j : Joiner F)
      → j.current < length j.filenames
      → to_come j []
        ≡ map forwarded (content (get_or j.filenames j.current []))
          ++ (frames_of (drop (j.current + 1) j.filenames) ++ (end_of_stream ∷ []))
  unfolding frames_of
  next_file j more =
      ap (λ files. frames_of files ++ (end_of_stream ∷ [])) (drop-get_or j.current j.filenames more)
      ∙ append_assoc (map forwarded (content (get_or j.filenames j.current [])))
          (frames_of (drop (j.current + 1) j.filenames)) (end_of_stream ∷ [])

  pub no_file : (j : Joiner F) → length j.filenames ≤ j.current → to_come j [] ≡ end_of_stream ∷ []
  unfolding frames_of
  no_file j le =
      ap (λ files. frames_of files ++ (end_of_stream ∷ [])) (drop-all j.current j.filenames le)

  pub Step-Moved :
      {j j' : Joiner F} {o rest : List (Out F)}
      → Phase j rest
      → Step content j o j'
      → Moved rest (j', o)
  Step-Moved (playing s p) (deliver j r x xs has runs left) =
      let same = same_reader j s r p.has_reader has in
      let q = subst (IsPlaying j) same p in
      subst (Moved _) (sym (forwards (delivered j r xs) x p.going)) (
        to_come j xs,
        playing (record r { left = xs }) (delivered-IsPlaying j r x xs q left),
        ap (to_come j) (ap (λ (y : Reader F). y.left) same ∙ left),
      )
  Step-Moved (playing s p) (deliver_end j r has runs left unended) =
      let same = same_reader j s r p.has_reader has in
      let q = subst (IsPlaying j) same p in
      subst (Moved _)
        (sym (signals (record j { reader = some (record r { ended = true }) }) p.going))
        (
          to_come j r.left,
          playing (record r { ended = true }) (ended_reader-IsPlaying j r q left),
          ap (to_come j) (ap (λ (y : Reader F). y.left) same),
        )
  Step-Moved (playing s p) (wake j alive set) = elim (dec_lt j.current (length j.filenames)) [
    | yes more ↦ subst (Moved _) (sym (opens_next j p.going more)) (
      _,
      playing _ (next_reader-IsPlaying j s p),
      ap (to_come j) (p.empty set) ∙ next_file j more,
    )
    | no last ↦ subst (Moved _) (sym (sends_end j p.going (omega arith))) (
      [],
      over (finished-IsOver j s p set),
      ap (to_come j) (p.empty set) ∙ no_file j (omega arith),
    )
  ]
  Step-Moved (over q) (deliver j r x xs has runs left) =
      absurd (let same : q.last_reader ≡ r = cc in cc)
  Step-Moved (over q) (deliver_end j r has runs left unended) =
      absurd (let same : q.last_reader ≡ r = cc in cc)
  Step-Moved (over q) (wake j alive set) = absurd (cc)
