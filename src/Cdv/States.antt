-- ===== src/Cdv/States.antt =====
-- DShow.cpp, `CDV`: the state machine that the dialog and the two worker threads drive, the parts
-- of the pipeline that each state relies on, and the transport commands.
use win_dv.Prelude.{
  ℕ, ◌==◌, ◌≡◌, refl, ◌⊎◌, Bool, true, false, not, ◌&&◌, ◌||◌, List, [], ◌∷◌, Option, some, arith,
  Ensures, ensured, Ensures-if, Ensures-mono,
}
use win_dv.Prelude.Int.{ℤ}
use win_dv.Dv.{Tm}
use win_dv.Cdv.{
  State, Settings, Cdv, Mode, Parts, new_cdv, destroy, build_capturing, start_capturing,
  stop_capturing, build_recording, start_recording, stop_recording,
}
use win_dv.Cdv.Capture.{
  Effect, Local, Arrival, observe, capture_frame, skip_frame, on_frame, on_nothing, enter, leave,
  is_capturing,
}
use win_dv.Cdv.Playback.{Clip, Playback, enter_playback, play_round, is_recording}
use win_dv.Cdv.Rounds.{on_frame_cases}

-- The pipeline that captures, and the one that plays to the camcorder.
abbrev pub capturing_parts : Cdv → Bool
capturing_parts c = c.input && c.monitor && c.queue && c.thread

abbrev pub playing_parts : Cdv → Bool
playing_parts c = c.joiner && c.output && c.monitor && c.queue && c.thread

-- The parts that the code dereferences in a state.
abbrev pub parts_for : State → Cdv → Bool
parts_for s c = elim s [
  | State.idle ↦ not c.thread
  | State.record_paused ↦ playing_parts c
  | State.recording ↦ playing_parts c
  | State.capture_paused ↦ capturing_parts c
  | State.capturing ↦ capturing_parts c
  | State.finished ↦ capturing_parts c || playing_parts c
]

-- Every pointer that the code follows in the present state is there.
pub record IsBuilt (c : Cdv) : Type 0 where
  pub built : parts_for c.state c ≡ true

-- One step: an operation of the dialog, whether it returns or throws, or a round of the worker
-- thread, with the commands sent to the camcorder.
pub data Step (mktime : Tm → ℤ) (c : Cdv) : List Mode → Cdv → Type 0 where
  destroyed : Step mktime c (destroy c).1 (destroy c).0
  capture_built : (p : Parts) → Step mktime c (build_capturing p c).2 (build_capturing p c).1
  recording_built : (p : Parts) → Step mktime c (build_recording p c).2 (build_recording p c).1
  capture_started :
      (name dtformat : List ℕ) (ndigits : ℕ) (limit : ℤ)
      → Step mktime c
          (start_capturing name dtformat ndigits limit c).1
          (start_capturing name dtformat ndigits limit c).0
  capture_stopped : Step mktime c (stop_capturing c).1 (stop_capturing c).0
  recording_started : Step mktime c (start_recording c).1 (start_recording c).0
  recording_stopped : Step mktime c (stop_recording c).1 (stop_recording c).0
  entered : (d : ℤ) → Step mktime c [] (enter d c).0
  framed :
      {c' : Cdv} {es : List Effect} (a : Arrival) (l l' : Local)
      → on_frame mktime a (c, l) ≡ some ((c', l'), es)
      → Step mktime c [] c'
  waited : (ended : Bool) (l : Local) → Step mktime c [] (on_nothing ended (c, l)).0.0
  left : Step mktime c [] (leave c).0
  played :
      (ended : Bool) (load : ℕ) (next : Option Clip) (p : Playback)
      → Step mktime c [] (play_round mktime ended load next (c, p)).0.0
  primed : (clip : Clip) → Step mktime c [] (enter_playback clip c).0
  -- `OnConfig`, on a pipeline in any state.
  configured : (settings : Settings) → Step mktime c [] (record c { settings = settings })

-- The arrows of the state diagram, and staying where one is. The paused states are reached from
-- everywhere, since the `Build*` operations destroy the old pipeline first.
abbrev is_arrow : State → State → Bool
is_arrow s t = elim t [
  | State.idle ↦ true
  | State.record_paused ↦ true
  | State.capture_paused ↦ true
  | State.recording ↦ elim s [ State.record_paused ↦ true | State.recording ↦ true | _ ↦ false ]
  | State.capturing ↦ elim s [ State.capture_paused ↦ true | State.capturing ↦ true | _ ↦ false ]
  | State.finished ↦ elim s [
    | State.capturing ↦ true
    | State.recording ↦ true
    | State.finished ↦ true
    | _ ↦ false
  ]
]

-- Commands go to a device that is there before the step or after it.
abbrev has_device : Cdv → List Mode → Cdv → Bool
has_device c [] c' = true
has_device c (m ∷ ms) c' = (c.input || c.output) || (c'.input || c'.output)

pub record StepSound (c : Cdv) (ms : List Mode) (c' : Cdv) : Type 0 where
  pub built : IsBuilt c'
  pub arrow : is_arrow c.state c'.state ≡ true
  pub device : has_device c ms c' ≡ true

-- A round of the worker thread changes no part, and the state only to `Finished`.
pub record Worked (from : State) (c c' : Cdv) : Type 0 where
  pub same_parts :
      (capturing_parts c' ≡ capturing_parts c)
      × (playing_parts c' ≡ playing_parts c)
      × (c'.thread ≡ c.thread)
  pub same_state : (c'.state ≡ c.state) ⊎ ((c'.state ≡ State.finished) × (c.state ≡ from))

capture_frame-Worked :
    (a : Arrival) (delta : ℕ) (c : Cdv) (l : Local)
    → is_capturing c.state ≡ true
    → Ensures (λ ((c', l'), es). Worked State.capturing c c') (capture_frame a delta (c, l))
unfolding capture_frame
capture_frame-Worked a delta c l e =
    Ensures-if (λ (r : (Cdv × Local) × List Effect). Worked State.capturing c (r.0).0)
      (c.settings.every_nth == 0) _ (λ h. ground (arith, e))

pub on_frame-Worked :
    (mktime : Tm → ℤ) (a : Arrival) (c : Cdv) (l : Local)
    → Ensures (λ ((c', l'), es). Worked State.capturing c c') (on_frame mktime a (c, l))
unfolding observe skip_frame
on_frame-Worked mktime a c l =
    on_frame_cases (λ (r : (Cdv × Local) × List Effect). Worked State.capturing c (r.0).0) mktime a
      c l
      (λ e.
        Ensures-mono (λ (r : (Cdv × Local) × List Effect). Worked State.capturing _ (r.0).0) _ _
          (λ r w. record { same_parts = w.same_parts; same_state = w.same_state })
          (capture_frame-Worked a _ _ _ e))
      (λ e. ground arith)

pub on_nothing-Worked :
    (ended : Bool) (c : Cdv) (l : Local) → Worked State.capturing c (on_nothing ended (c, l)).0.0
unfolding on_nothing
on_nothing-Worked ended c l = ground arith

pub play_round-Worked :
    (mktime : Tm → ℤ) (ended : Bool) (load : ℕ) (next : Option Clip) (c : Cdv) (p : Playback)
    → Worked State.recording c (play_round mktime ended load next (c, p)).0.0
unfolding play_round
play_round-Worked mktime ended load next c p = ground arith

Worked-StepSound :
    (from : State) (c c' : Cdv)
    → (is_capturing from || is_recording from) ≡ true
    → IsBuilt c
    → Worked from c c'
    → StepSound c [] c'
Worked-StepSound from c c' ends inv w = ground (arith, ends, inv, w)

build_capturing-Sound :
    (p : Parts) (c : Cdv) → IsBuilt c → StepSound c (build_capturing p c).2 (build_capturing p c).1
unfolding build_capturing destroy
build_capturing-Sound p c inv = ground (arith, inv)

build_recording-Sound :
    (p : Parts) (c : Cdv) → IsBuilt c → StepSound c (build_recording p c).2 (build_recording p c).1
unfolding build_recording destroy
build_recording-Sound p c inv = ground (arith, inv)

start_capturing-Sound :
    (name dtformat : List ℕ) (ndigits : ℕ) (limit : ℤ) (c : Cdv)
    → IsBuilt c
    → StepSound c
        (start_capturing name dtformat ndigits limit c).1
        (start_capturing name dtformat ndigits limit c).0
unfolding start_capturing
start_capturing-Sound name dtformat ndigits limit c inv = ground (arith, inv)

-- From a pipeline that has every part its state relies on, each operation of the dialog, each
-- failure to build and each round of a worker thread leads to one that has, along an arrow of the
-- state diagram, and sends commands to the camcorder only while a device is there.
pub Step-Sound :
    (mktime : Tm → ℤ) (c : Cdv) (ms : List Mode) (c' : Cdv)
    → IsBuilt c
    → Step mktime c ms c'
    → StepSound c ms c'
unfolding destroy stop_capturing start_recording stop_recording enter leave enter_playback
Step-Sound mktime c _ _ inv destroyed = ground (arith, inv)
Step-Sound mktime c _ _ inv (capture_built p) = build_capturing-Sound p c inv
Step-Sound mktime c _ _ inv (recording_built p) = build_recording-Sound p c inv
Step-Sound mktime c _ _ inv (capture_started name dtformat ndigits limit) =
    start_capturing-Sound name dtformat ndigits limit c inv
Step-Sound mktime c _ _ inv capture_stopped = ground (arith, inv)
Step-Sound mktime c _ _ inv recording_started = ground (arith, inv)
Step-Sound mktime c _ _ inv recording_stopped = ground (arith, inv)
Step-Sound mktime c _ _ inv (entered d) = ground (arith, inv)
Step-Sound mktime c _ _ inv (framed {c' = c'} a l l' e) =
    Worked-StepSound State.capturing c c' refl inv (
      ensured (λ (r : (Cdv × Local) × List Effect). Worked State.capturing c (r.0).0)
        (on_frame-Worked mktime a c l) e)
Step-Sound mktime c _ _ inv (waited ended l) =
    Worked-StepSound State.capturing c _ refl inv (on_nothing-Worked ended c l)
Step-Sound mktime c _ _ inv left = ground (arith, inv)
Step-Sound mktime c _ _ inv (played ended load next p) =
    Worked-StepSound State.recording c _ refl inv (play_round-Worked mktime ended load next c p)
Step-Sound mktime c _ _ inv (primed clip) = ground (arith, inv)
Step-Sound mktime c _ _ inv (configured settings) = ground (arith, inv)

-- The operations that can come first do not look at the state, which the constructor leaves unset.
new_cdv_unset :
    (p : Parts) (garbage : State)
    → (build_capturing p (new_cdv garbage) ≡ build_capturing p (new_cdv State.idle))
      × (build_recording p (new_cdv garbage) ≡ build_recording p (new_cdv State.idle))
      × (destroy (new_cdv garbage) ≡ destroy (new_cdv State.idle))
unfolding build_capturing build_recording destroy new_cdv
new_cdv_unset p garbage = (refl, refl, refl)

-- A new pipeline that is idle has the parts that its state relies on.
new_cdv-IsBuilt : IsBuilt (new_cdv State.idle)
unfolding new_cdv
new_cdv-IsBuilt = record { built = refl }
