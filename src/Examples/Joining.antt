-- ===== src/Examples/Joining.antt =====
-- Two files of two frames and one, played as one stream.
use win_dv.Prelude.{ℕ, false, some, ◌≡◌, refl, Bool, true, ◌==◌, if◌then◌else◌, List, [], ◌∷◌, ◌++◌}
use win_dv.Joiner.{
  Joiner, Out, forwarded, end_of_stream, deliver, done, next, run, initial, new_joiner, expand,
  sort, insert, handle_frame,
}
use win_dv.Joiner.Phases.{frames_of}
use win_dv.Joiner.Playing.{Finishes, joiner_plays}

-- "a|b".
abbrev text : List ℕ
text = 97 ∷ 124 ∷ 98 ∷ []

abbrev content : List ℕ → List ℕ
content [] = []
content (c ∷ cs) = if c == 97 then 1 ∷ 2 ∷ [] else 3 ∷ []

abbrev find : List ℕ → List (List ℕ)
find pattern = pattern ∷ []

abbrev anything : List ℕ → Bool
anything p = true

abbrev both : Joiner ℕ
both = initial content (97 ∷ []) ((98 ∷ []) ∷ [])

stream : frames_of content both.filenames ≡ forwarded 1 ∷ forwarded 2 ∷ forwarded 3 ∷ []
unfolding frames_of
stream = refl

-- After the first frame.
abbrev later : Joiner ℕ
later = record both {
  thread = true;
  has_thread = true;
  reader = some (record { left = 2 ∷ []; ended = false; running = true });
}

joiner_plays_example :
    (rest : List (Out ℕ)) × Finishes content later rest
    × (frames_of content both.filenames ++ (end_of_stream ∷ []) ≡ (forwarded 1 ∷ []) ++ rest)
unfolding new_joiner expand sort insert handle_frame run
joiner_plays_example = joiner_plays content find anything text both later (forwarded 1 ∷ []) refl (
    next
      (deliver (run both) (record { left = 1 ∷ 2 ∷ []; ended = false; running = true }) 1 (2 ∷ [])
        refl refl refl)
      (done later))
