-- ===== src/Dialog/Builds.antt =====
-- DVToolsDlg.cpp, `CDVToolsDlg`: the window after a pipeline is built, fails to build or ends.
use win_dv.Prelude.{◌<◌, ◌≡◌, refl, ap, ◌∙◌, true, false, ◌==◌, if-cases, List, arith}
use win_dv.Prelude.Int.{ℤ, pos}
use win_dv.Dv.{Tm}
use win_dv.Cdv.{State, Cdv, Mode, Parts, Outcome, destroy, build_capturing, build_recording}
use win_dv.Cdv.States.{IsBuilt, Step, Step-Sound, destroyed, capture_built, recording_built}
use win_dv.Dialog.{
  Dialog, Status, is_returned, init_video, after_build, recover, build_or_recover, with_video,
  blanked,
}
use win_dv.Dialog.Events.{fits, is_idle, IsSound}

-- What a build leaves: the state that it is for, or `Idle` after an exception.
pub record BuiltFor (target : State) (r : Outcome × Cdv × List Mode) : Type 0 where
  pub has_parts : IsBuilt r.1
  pub reached : is_returned r.0 ≡ true → (r.1).state ≡ target
  pub fell_back : is_returned r.0 ≡ false → (r.1).state ≡ State.idle

pub pick_parts :
    (mktime : Tm → ℤ) (c c' : Cdv) (ms : List Mode) → IsBuilt c → Step mktime c ms c' → IsBuilt c'
pick_parts mktime c c' ms inv s = let sound = Step-Sound mktime c ms c' inv s in sound.built

abbrev pub no_time : Tm → ℤ
no_time t = pos 0

pub build_capturing-BuiltFor :
    (p : Parts) (c : Cdv) → IsBuilt c → BuiltFor State.capture_paused (build_capturing p c)
unfolding build_capturing
build_capturing-BuiltFor p c inv = record {
  has_parts = pick_parts no_time c _ _ inv (capture_built p);
  reached = ground arith;
  fell_back = ground arith;
}

pub build_recording-BuiltFor :
    (p : Parts) (c : Cdv) → IsBuilt c → BuiltFor State.record_paused (build_recording p c)
unfolding build_recording
build_recording-BuiltFor p c inv = record {
  has_parts = pick_parts no_time c _ _ inv (recording_built p);
  reached = ground arith;
  fell_back = ground arith;
}

-- The window with a pipeline in a known state.
pub at_idle : (d : Dialog) → d.sel < 2 → IsBuilt d.video → d.video.state ≡ State.idle → IsSound d
at_idle d tab inv idle = record {
  tab = tab;
  fitting = ground (arith, idle);
  ticking = ground (arith, idle);
  built = inv;
}

pub with_timer :
    (d : Dialog) (s : State)
    → d.sel < 2
    → IsBuilt d.video
    → d.video.state ≡ s
    → fits d.sel s ≡ true
    → d.timer ≡ true
    → IsSound d
with_timer d s tab inv at fit timer = record {
  tab = tab;
  fitting = ap (fits d.sel) at ∙ fit;
  ticking = ground (arith, timer);
  built = inv;
}

-- The status changes nothing.
pub with_status : (d : Dialog) (s : Status) → IsSound d → IsSound (record d { status = s })
with_status d s p = record {
  tab = p.tab;
  fitting = p.fitting;
  ticking = p.ticking;
  built = p.built;
}

after_build-IsSound :
    (d : Dialog) (target : State) (r : Outcome × Cdv × List Mode)
    → d.sel < 2
    → fits d.sel target ≡ true
    → BuiltFor target r
    → IsSound (after_build d r).0
after_build-IsSound d target (o, c, ms) tab fit b =
    if-cases (λ (r : Dialog × List Mode). IsSound r.0) (is_returned o) _ _
      (λ ok.
        with_timer (record d { video = c; timer = true }) target tab b.has_parts (b.reached ok) fit
          refl)
      (λ bad.
        at_idle (record d { video = c; status = Status.failure }) tab b.has_parts (b.fell_back bad))

pub destroy-IsBuilt : (c : Cdv) → IsBuilt c → IsBuilt (destroy c).0
destroy-IsBuilt c inv = pick_parts no_time c _ _ inv destroyed

pub destroy_idle : (c : Cdv) → (destroy c).0.state ≡ State.idle
unfolding destroy
destroy_idle c = refl

-- `InitVideo`, from any state that has its parts.
pub init_video-IsSound :
    (p : Parts) (d : Dialog) → d.sel < 2 → IsBuilt d.video → IsSound (init_video p d).0
unfolding init_video
init_video-IsSound p d tab inv =
    if-cases (λ (r : Dialog × List Mode). IsSound r.0) (d.sel == 0) _ _
      (λ first.
        after_build-IsSound (blanked d) State.capture_paused (build_capturing p d.video) tab first
          (build_capturing-BuiltFor p d.video inv))
      (λ other.
        if-cases (λ (r : Dialog × List Mode). IsSound r.0) (d.sel == 1) _ _
          (λ second.
            at_idle
              (record (blanked d) { video = (destroy d.video).0; status = Status.select_file }) tab
              (destroy-IsBuilt d.video inv) (destroy_idle d.video))
          (λ neither. absurd (ground arith)))

pub recover-IsSound :
    (p : Parts) (d : Dialog) (ms : List Mode)
    → d.sel < 2
    → IsBuilt d.video
    → IsSound (recover p d ms).0
recover-IsSound p d ms tab inv =
    with_status (init_video p d).0 Status.failure (init_video-IsSound p d tab inv)

pub build_or_recover-IsSound :
    (p' : Parts) (d : Dialog) (target : State) (r : Outcome × Cdv × List Mode)
    → d.sel < 2
    → fits d.sel target ≡ true
    → BuiltFor target r
    → IsSound (build_or_recover p' d r).0
build_or_recover-IsSound p' d target (o, c, ms) tab fit b =
    if-cases (λ (r : Dialog × List Mode). IsSound r.0) (is_returned o) _ _
      (λ ok.
        with_timer (record d { video = c; timer = true }) target tab b.has_parts (b.reached ok) fit
          refl)
      (λ bad. recover-IsSound p' (record d { video = c }) ms tab b.has_parts)

-- An operation that goes from one state at work to another of the same tab.
pub with_video-IsSound :
    (d : Dialog) (r : Cdv × List Mode) (s : State)
    → IsSound d
    → is_idle d.video.state ≡ false
    → IsBuilt r.0
    → (r.0).state ≡ s
    → fits d.sel s ≡ true
    → IsSound (with_video d r).0
with_video-IsSound d (c, ms) s p busy inv at fit =
    with_timer (record d { video = c }) s p.tab inv at fit (ground (arith, p.ticking, busy))
