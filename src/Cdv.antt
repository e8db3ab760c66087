-- ===== src/Cdv.antt =====
-- DShow.h and DShow.cpp, `CDV`: the state that the dialog and the worker threads share, and the
-- operations of the dialog. A pointer to a part of the pipeline is whether it is there; what a
-- constructor or a device does is an argument. The counters are `long`s and REFERENCE_TIMEs; that
-- they do not reach 2^31 frames or 2^63 units is taken for granted.
pub mod Capture
pub mod States
pub mod Files
pub mod Session
pub mod Rounds
pub mod Limits
pub mod Sizes
pub mod Playback
pub mod Sending
pub mod Backfill
use win_dv.Prelude.{
  ℕ, ◌*◌, Bool, true, false, if◌then◌else◌, List, [], ◌∷◌, ◌++◌, Option, none, some, ◌&&◌,
}
use win_dv.Prelude.Int.{ℤ, pos, negsuc}
use win_dv.DvError.{ErrorStats, reset_error_stats}

-- `m_state`.
pub data State : Type 0 where
  idle record_paused recording capture_paused capturing finished : State

-- The AVI writer that is open: its `m_dvtime`, and the number of frames handed to it.
pub record Writer : Type 0 where
  pub dvtime : ℤ
  pub written : ℕ

pub record Settings : Type 0 where
  pub discontinuity_treshold : ℕ
  pub max_avi_frames : ℕ
  pub every_nth : ℕ
  pub record_preview : Bool
  pub dv_ctrl : Bool

pub record Cdv : Type 0 where
  pub state : State
  pub settings : Settings
  pub joiner : Bool
  pub input : Bool
  pub output : Bool
  pub monitor : Bool
  pub queue : Bool
  pub thread : Bool
  pub writer : Option Writer
  pub capture_filename : List ℕ
  pub dtformat : List ℕ
  pub ndigits : ℕ
  pub dropped : ℤ
  pub counter : ℤ
  pub time : ℤ
  pub capture_time : ℤ
  pub error_stats : ErrorStats

-- The settings of a new pipeline.
abbrev pub default_settings : Settings
default_settings = record {
  discontinuity_treshold = 1;
  max_avi_frames = 25 * 60 * 15;
  every_nth = 1;
  record_preview = true;
  dv_ctrl = false;
}

-- The constructor. It does not set `m_state`, which is what the memory holds.
unfoldable pub new_cdv : State → Cdv
new_cdv garbage = record {
  state = garbage;
  settings = default_settings;
  joiner = false;
  input = false;
  output = false;
  monitor = false;
  queue = false;
  thread = false;
  writer = none;
  capture_filename = [];
  dtformat = [];
  ndigits = 0;
  dropped = pos 0;
  counter = negsuc 0;
  time = negsuc 0;
  capture_time = pos 0;
  error_stats = reset_error_stats;
}

-- A transport command to the camcorder: the mode that is put.
pub data Mode : Type 0 where
  stop play freeze record_mode record_freeze : Mode

-- `CtrlStop` and its like, by the modes that they put one after another.
abbrev pub ctrl_pause : List Mode
ctrl_pause = Mode.play ∷ Mode.freeze ∷ []

-- `if (m_DVctrl) ...`.
abbrev pub when_ctrl : Cdv → List Mode → List Mode
when_ctrl c modes = if c.settings.dv_ctrl then modes else []

-- `Destroy`, after the worker thread has ended. The commands are those sent to the camcorder.
unfoldable pub destroy : Cdv → Cdv × List Mode
destroy c = (
  record c {
    state = State.idle;
    joiner = false;
    input = false;
    output = false;
    monitor = false;
    queue = false;
    thread = false;
    writer = none;
    dropped = pos 0;
    counter = negsuc 0;
    time = negsuc 0;
    capture_time = pos 0;
  },
  (if c.input then when_ctrl c (Mode.stop ∷ []) else [])
      ++ (if c.output then when_ctrl c (Mode.stop ∷ []) else []),
)

-- What the parts of a pipeline do when they are built: whether each succeeds.
pub record Parts : Type 0 where
  pub source_ok : Bool
  pub type_ok : Bool
  pub monitor_ok : Bool
  pub output_ok : Bool
  pub run_ok : Bool

-- Whether an operation returned, or a `CDShowException` left it.
pub data Outcome : Type 0 where
  returned thrown : Outcome

-- `BuildCapturing`. An exception leaves the parts that were built before it.
unfoldable pub build_capturing : Parts → Cdv → Outcome × Cdv × List Mode
unfolding destroy
build_capturing p c =
    let (c0, modes) = destroy c in
    if p.source_ok
    then (let c1 = record c0 { input = true } in
        if p.type_ok
        then (if p.monitor_ok
            then (let c2 = record c1 { monitor = true; queue = true } in
                if p.run_ok
                then (
                  Outcome.returned,
                  record c2 { state = State.capture_paused; thread = true },
                  modes,
                )
                else (Outcome.thrown, c2, modes))
            else (Outcome.thrown, c1, modes))
        else (Outcome.thrown, c1, modes))
    else (Outcome.thrown, c0, modes)

-- `StartCapturing`.
unfoldable pub start_capturing : List ℕ → List ℕ → ℕ → ℤ → Cdv → Cdv × List Mode
start_capturing filename dtformat ndigits capture_time c = elim c.state [
  | State.capture_paused ↦ (
    record c {
      capture_time = capture_time;
      capture_filename = filename;
      dtformat = dtformat;
      ndigits = ndigits;
      state = State.capturing;
    },
    when_ctrl c (Mode.play ∷ []),
  )
  | _ ↦ (c, [])
]

-- `StopCapturing`.
unfoldable pub stop_capturing : Cdv → Cdv × List Mode
stop_capturing c = elim c.state [
  | State.capturing ↦ (record c { state = State.capture_paused }, when_ctrl c ctrl_pause)
  | _ ↦ (c, [])
]

-- `BuildRecording`.
unfoldable pub build_recording : Parts → Cdv → Outcome × Cdv × List Mode
unfolding destroy
build_recording p c =
    let (c0, modes) = destroy c in
    if p.source_ok
    then (let c1 = record c0 { joiner = true } in
        if p.type_ok
        then (if p.monitor_ok
            then (let c2 = record c1 { monitor = true } in
                if p.output_ok
                then (let c3 = record c2 { output = true; queue = true } in
                    if p.run_ok
                    then (
                      Outcome.returned,
                      record c3 { state = State.record_paused; thread = true },
                      modes ++ when_ctrl c (Mode.record_freeze ∷ []),
                    )
                    else (Outcome.thrown, c3, modes))
                else (Outcome.thrown, c2, modes))
            else (Outcome.thrown, c1, modes))
        else (Outcome.thrown, c1, modes))
    else (Outcome.thrown, c0, modes)

-- `StopRecording`.
unfoldable pub stop_recording : Cdv → Cdv × List Mode
stop_recording c = elim c.state [
  | State.recording ↦
      (record c { state = State.record_paused }, when_ctrl c (Mode.record_freeze ∷ []))
  | _ ↦ (c, [])
]

-- `StartRecording`.
unfoldable pub start_recording : Cdv → Cdv × List Mode
start_recording c = elim c.state [
  | State.record_paused ↦
      (record c { state = State.recording }, when_ctrl c (Mode.record_mode ∷ []))
  | _ ↦ (c, [])
]
