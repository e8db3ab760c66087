-- ===== src/Joiner/Playing.antt =====
-- DShow.cpp, `CAVIJoiner`: the stream that the handler downstream gets.
use win_dv.Prelude.{
  ℕ, zero, suc, ◌+◌, ◌≤◌, ◌≡◌, refl, ap, sym, ◌∙◌, subst, Bool, true, false, dec_lt, Bool-cases,
  if-cases, inl, inr, List, [], ◌∷◌, ◌++◌, map, append_assoc, length, some, arith,
}
use Prim.{Unit}
use win_dv.Joiner.{
  Reader, Joiner, Out, forwarded, end_of_stream, Construction, Expansion, not_found, found,
  cannot_open, initial, open_first, new_joiner, run, Step, Steps, deliver, deliver_end, wake, done,
  next, open_reader, joined,
}
use win_dv.Joiner.Phases.{
  frames_of, to_come, IsPlaying, Phase, playing, over, delivered, ended_reader, next_reader,
  finished, Moved, next_file, no_file, forwards, signals, opens_next, sends_end,
  delivered-IsPlaying, ended_reader-IsPlaying, next_reader-IsPlaying, Step-Moved,
}

module _ {F : Type 0} (content : List ℕ → List F) where
  -- The outputs of a run are the first part of what is to come.
  Steps-Moved :
      {j j' : Joiner F} {o rest : List (Out F)}
      → Phase content j rest
      → Steps content j o j'
      → Moved content rest (j', o)
  Steps-Moved {rest = rest} ph (done j) = (rest, ph, refl)
  Steps-Moved ph (next {o = o} {os = os} s more) =
      let (rest', ph', e) = Step-Moved content ph s in
      let (rest'', ph'', e') = Steps-Moved ph' more in
      (rest'', ph'', e ∙ ap (λ x. o ++ x) e' ∙ sym (append_assoc o os rest''))

  -- What a joiner can still do: all of these outputs, until its thread has ended.
  abbrev pub Finishes : Joiner F → List (Out F) → Type 0
  Finishes j rest = (j' : Joiner F) × Steps content j rest j' × (j'.thread ≡ false)

  one_more :
      (j : Joiner F) (s : Joiner F × List (Out F)) (s' : Joiner F × List (Out F))
      (rest : List (Out F))
      → s ≡ s'
      → Step content j s.1 s.0
      → Finishes s'.0 rest
      → Finishes j (s'.1 ++ rest)
  one_more j s s' rest e step (j', steps, ends) =
      (j', next (subst (λ u. Step content j u.1 u.0) e step) steps, ends)

  -- The frames that a reader has left, and its end.
  play_reader :
      (xs : List F) (j : Joiner F) (r : Reader F) (rest : List (Out F))
      → IsPlaying content j r
      → j.ev ≡ false
      → r.left ≡ xs
      → ((r' : Reader F)
          → IsPlaying content (ended_reader content j r') r'
          → Finishes (ended_reader content j r') rest)
      → Finishes j (map forwarded xs ++ rest)
  play_reader [] j r rest p unset left go_on =
      one_more j _ (ended_reader content j r, []) rest
        (signals content (record j { reader = some (record r { ended = true }) }) p.going)
        (deliver_end j r p.has_reader p.runs left (p.ends ∙ unset))
        (go_on (record r { ended = true }) (ended_reader-IsPlaying content j r p left))
  play_reader (x ∷ xs) j r rest p unset left go_on =
      one_more j _ (delivered content j r xs, forwarded x ∷ []) (map forwarded xs ++ rest)
        (forwards content (delivered content j r xs) x p.going)
        (deliver j r x xs p.has_reader p.runs left)
        (play_reader xs (delivered content j r xs) (record r { left = xs }) rest
          (delivered-IsPlaying content j r x xs p left) unset refl go_on)

  play_end :
      (j : Joiner F) (r : Reader F)
      → length j.filenames ≤ j.current
      → IsPlaying content j r
      → j.ev ≡ true
      → Finishes j (to_come content j [])
  play_end j r last p set = subst (Finishes j) (sym (no_file content j last)) (
      one_more j _ (finished content j, end_of_stream ∷ []) [] (sends_end content j p.going last)
        (wake j p.alive set) (finished content j, done (finished content j), refl))

  -- The files from the one that is read, of which there are at most `n` more.
  play_files :
      (n : ℕ) (j : Joiner F) (r : Reader F)
      → length j.filenames ≤ j.current + n
      → IsPlaying content j r
      → j.ev ≡ false
      → Finishes j (to_come content j r.left)
  play_files zero j r le p unset =
      play_reader r.left j r _ p unset refl
        (λ r' p'. play_end (ended_reader content j r') r' (omega (arith, le)) p' refl)
  play_files (suc n) j r le p unset = play_reader r.left j r _ p unset refl (λ r' p'.
      elim (dec_lt j.current (length j.filenames)) [
        | no last ↦ play_end (ended_reader content j r') r' (omega arith) p' refl
        | yes more ↦
            let j' = ended_reader content j r' in
            subst (Finishes j') (sym (next_file content j' more)) (
              one_more j' _ (next_reader content j', []) _ (opens_next content j' p'.going more)
                (wake j' p'.alive refl)
                (play_files n (next_reader content j') _ (omega (arith, le))
                  (next_reader-IsPlaying content j' r' p') refl))
      ])

  -- From either phase, all that is to come can be done.
  phase-Finishes : {j : Joiner F} {rest : List (Out F)} → Phase content j rest → Finishes j rest
  phase-Finishes {j = j} (over q) = (j, done j, q.dead)
  phase-Finishes {j = j} (playing r p) = elim (Bool-cases j.ev) [
    | inr unset ↦ play_files (length j.filenames) j r (omega arith) p unset
    | inl set ↦
        subst (Finishes j) (ap (to_come content j) (sym (p.empty set)))
          (elim (dec_lt j.current (length j.filenames)) [
            | no last ↦ play_end j r (omega arith) p set
            | yes more ↦ subst (Finishes j) (sym (next_file content j more)) (
                one_more j _ (next_reader content j, []) _ (opens_next content j p.going more)
                  (wake j p.alive set)
                  (play_files (length j.filenames) (next_reader content j) _ (omega arith)
                    (next_reader-IsPlaying content j r p) refl))
          ])
  ]

  -- A joiner that its constructor made, with its first file open.
  abbrev Built : Construction F → Type 0
  Built (joined j) = (file : List ℕ) × (files : List (List ℕ)) × (j ≡ initial content file files)
  Built c = Unit

  open_first-Built : (opens : List ℕ → Bool) (e : Expansion) → Built (open_first content opens e)
  open_first-Built opens (not_found token) = record {}
  open_first-Built opens (found []) = record {}
  open_first-Built opens (found (file ∷ files)) =
      if-cases Built (opens file) (joined (initial content file files)) (cannot_open file)
        (λ e. (file, files, refl)) (λ e. record {})

  new_joiner-Built :
      (find : List ℕ → List (List ℕ)) (opens : List ℕ → Bool) (text : List ℕ)
      → Built (new_joiner content find opens text)
  unfolding new_joiner
  new_joiner-Built find opens text = open_first-Built opens _

  run-Phase :
      (find : List ℕ → List (List ℕ)) (opens : List ℕ → Bool) (text : List ℕ) (j : Joiner F)
      → new_joiner content find opens text ≡ joined j
      → Phase content (run j) (frames_of content j.filenames ++ (end_of_stream ∷ []))
  unfolding run frames_of
  run-Phase find opens text j e =
      let (file, files, same) = subst Built e (new_joiner-Built find opens text) in
      subst
        (λ (k : Joiner F).
          Phase content (run k) (frames_of content k.filenames ++ (end_of_stream ∷ [])))
        (sym same)
        (subst (Phase content (run (initial content file files)))
          (sym (
            append_assoc (map forwarded (content file)) (frames_of content files)
              (end_of_stream ∷ [])))
          (playing (open_reader content file true) (record {
            has_reader = refl;
            runs = refl;
            ends = refl;
            empty = λ set. absurd (cc);
            alive = refl;
            going = refl;
          })))

  -- A joiner that its constructor made sends to the handler, from `Run` on, the frames of its files,
  -- in order and one file after another, and then one end of the stream: what it has sent after any
  -- steps is the first part of that, and there are further steps that send the rest and end the
  -- thread. The joiner is not stopped, and each file opens and delivers its frames and then its end.
  pub joiner_plays :
      (find : List ℕ → List (List ℕ)) (opens : List ℕ → Bool) (text : List ℕ) (j j' : Joiner F)
      (sent : List (Out F))
      → new_joiner content find opens text ≡ joined j
      → Steps content (run j) sent j'
      → (rest : List (Out F)) × Finishes j' rest
        × (frames_of content j.filenames ++ (end_of_stream ∷ []) ≡ sent ++ rest)
  joiner_plays find opens text j j' sent e steps =
      let (rest, phase, whole) = Steps-Moved (run-Phase find opens text j e) steps in
      (rest, phase-Finishes phase, whole)
