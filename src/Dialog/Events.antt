-- ===== src/Dialog/Events.antt =====
-- DVToolsDlg.cpp, `CDVToolsDlg`: what the user and the worker threads do, and what holds of the
-- window between.
use win_dv.Prelude.{
  ℕ, ◌<◌, ◌≡◌, refl, Bool, true, false, ◌||◌, ◌==◌, List, [], Option, some, arith, ◌⊎◌, inl,
  ensured,
}
use win_dv.Prelude.Int.{ℤ}
use win_dv.Dv.{Tm}
use win_dv.Cdv.{State, Settings, Cdv, Mode, Parts}
use win_dv.Cdv.Capture.{Local, Arrival, Effect, on_frame, on_nothing, enter, leave}
use win_dv.Cdv.Playback.{Clip, Playback, play_round, enter_playback}
use win_dv.Cdv.States.{
  IsBuilt, Step, Worked, on_frame-Worked, on_nothing-Worked, play_round-Worked, entered, framed,
  waited, left, played, primed,
}
use win_dv.Dialog.{
  Dialog, init_video, on_capture, on_record, on_cmd_tab_change, on_selchange, on_close, on_timer,
  command_capture, command_record, on_low_disk_space, on_signal_lost, on_check_complete,
}
use win_dv.AviCheck.{CheckResult}

-- The states that a tab can have: those of the other tab's pipeline are left out.
abbrev pub fits : ℕ → State → Bool
fits sel s = elim s [
  | State.idle ↦ true
  | State.finished ↦ true
  | State.capture_paused ↦ sel == 0
  | State.capturing ↦ sel == 0
  | State.record_paused ↦ sel == 1
  | State.recording ↦ sel == 1
]

abbrev pub is_idle : State → Bool
is_idle s = elim s [ State.idle ↦ true | _ ↦ false ]

pub record IsSound (d : Dialog) : Type 0 where
  pub tab : d.sel < 2
  pub fitting : fits d.sel d.video.state ≡ true
  pub ticking : (is_idle d.video.state || d.timer) ≡ true
  pub built : IsBuilt d.video

-- A round of a worker thread, or the start or the end of one.
pub data Round (mktime : Tm → ℤ) (c : Cdv) : Cdv → Type 0 where
  capture_entered : (d : ℤ) → Round mktime c (enter d c).0
  capture_framed :
      {c' : Cdv} {es : List Effect} (a : Arrival) (l l' : Local)
      → on_frame mktime a (c, l) ≡ some ((c', l'), es)
      → Round mktime c c'
  capture_waited : (ended : Bool) (l : Local) → Round mktime c (on_nothing ended (c, l)).0.0
  capture_left : Round mktime c (leave c).0
  recording_played :
      (ended : Bool) (load : ℕ) (next : Option Clip) (p : Playback)
      → Round mktime c (play_round mktime ended load next (c, p)).0.0
  recording_entered : (clip : Clip) → Round mktime c (enter_playback clip c).0

-- What the user and the threads do. `OnVsrcSel` and `OnVdstSel` choose a device and end in
-- `InitVideo`, which is `cancelled`; the choice of files changes only the text of a control.
pub data Event (mktime : Tm → ℤ) (d : Dialog) : List Mode → Dialog → Type 0 where
  capture_pressed : (p : Parts) → d.sel ≡ 0 → Event mktime d (on_capture p d).1 (on_capture p d).0
  record_pressed :
      (p p' : Parts) → d.sel ≡ 1 → Event mktime d (on_record p p' d).1 (on_record p p' d).0
  tab_selected :
      (p : Parts) (tab : ℕ)
      → tab < 2
      → Event mktime d (on_selchange p tab d).1 (on_selchange p tab d).0
  tab_command :
      (p : Parts) (enabled : Bool) (tab : ℕ)
      → tab < 2
      → Event mktime d (on_cmd_tab_change p enabled tab d).1 (on_cmd_tab_change p enabled tab d).0
  cancelled : (p : Parts) → Event mktime d (init_video p d).1 (init_video p d).0
  ticked : Event mktime d (on_timer d).1 (on_timer d).0
  closed : Event mktime d (on_close d).1 (on_close d).0
  capture_commanded :
      (p p' p'' : Parts) (exit_flag : Bool) (limit : ℤ) (file : List ℕ)
      → Event mktime d
          (command_capture p p' p'' exit_flag limit file d).1
          (command_capture p p' p'' exit_flag limit file d).0
  record_commanded :
      (p p' p'' : Parts) (exit_flag : Bool)
      → Event mktime d
          (command_record p p' p'' exit_flag d).1
          (command_record p p' p'' exit_flag d).0
  low_space_posted : (megabytes : ℤ) → Event mktime d [] (on_low_disk_space megabytes d)
  signal_lost_posted : Event mktime d [] (on_signal_lost d)
  check_posted : (ok : Bool) (r : CheckResult) → Event mktime d [] (on_check_complete ok r d)
  -- `OnConfig`, of whose settings the pipeline has these.
  configured :
      (settings : Settings)
      → Event mktime d [] (record d { video = record d.video { settings = settings } })
  worked : {c' : Cdv} → Round mktime d.video c' → Event mktime d [] (record d { video = c' })

-- A round changes the state only from one at work to `Finished`.
abbrev pub Keeps : Cdv → Cdv → Type 0
Keeps c c' = (c'.state ≡ c.state) ⊎ ((c'.state ≡ State.finished) × (is_idle c.state ≡ false))

Worked-Keeps : (from : State) (c c' : Cdv) → is_idle from ≡ false → Worked from c c' → Keeps c c'
Worked-Keeps from c c' busy w = ground (arith, busy, w.same_state)

pub Round-Keeps : (mktime : Tm → ℤ) (c c' : Cdv) → Round mktime c c' → Keeps c c'
unfolding enter leave enter_playback
Round-Keeps mktime c _ (capture_entered d) = inl refl
Round-Keeps mktime c _ (capture_framed {c' = c'} a l l' e) =
    Worked-Keeps State.capturing c c' refl (
      ensured (λ (r : (Cdv × Local) × List Effect). Worked State.capturing c (r.0).0)
        (on_frame-Worked mktime a c l) e)
Round-Keeps mktime c _ (capture_waited ended l) =
    Worked-Keeps State.capturing c _ refl (on_nothing-Worked ended c l)
Round-Keeps mktime c _ capture_left = inl refl
Round-Keeps mktime c _ (recording_played ended load next p) =
    Worked-Keeps State.recording c _ refl (play_round-Worked mktime ended load next c p)
Round-Keeps mktime c _ (recording_entered clip) = inl refl

pub Round-Step : (mktime : Tm → ℤ) (c c' : Cdv) → Round mktime c c' → Step mktime c [] c'
Round-Step mktime c _ (capture_entered d) = entered d
Round-Step mktime c _ (capture_framed a l l' e) = framed a l l' e
Round-Step mktime c _ (capture_waited ended l) = waited ended l
Round-Step mktime c _ capture_left = left
Round-Step mktime c _ (recording_played ended load next p) = played ended load next p
Round-Step mktime c _ (recording_entered clip) = primed clip
