-- ===== src/Examples/Capturing.antt =====
-- A capture of one frame that has no recording time, from `BuildCapturing` to `Destroy`.
use win_dv.Prelude.{◌≡◌, refl, true, false, List, [], ◌∷◌, none, some, arith}
use win_dv.Prelude.Int.{pos, negsuc, ◌-ℤ◌, ◌+ℤ◌}
use win_dv.Dv.{get_dv_recording_time}
use win_dv.DvError.{reset_error_stats, accumulate_error_stats, analyze_dv_frame}
use win_dv.Cdv.{State, Settings, Cdv, Parts, build_capturing, start_capturing}
use win_dv.Cdv.Capture.{
  Effect, time_change, preview, opened, wrote, closed, Local, Arrival, Target, capture_frame,
  observe, note_time, on_frame, enter, leave, write_frame, choose_target,
}
use win_dv.Cdv.Files.{IsSane, FileInv, write_frame-FileInv}
use win_dv.Cdv.Session.{total, one_wrote, one_opened, one_closed, frames_closed}
use win_dv.Cdv.Rounds.{
  Run, begin, frame, started, configured, Session, destroyed, Session-conserves,
}
use win_dv.Cdv.Limits.{AllClosedWell}
use win_dv.Cdv.Sizes.{IsWithin, Session-AllClosedWell}
use win_dv.Cdv.States.{StepSound, capture_built, Step-Sound}

abbrev settings : Settings
settings = record {
  discontinuity_treshold = 1;
  max_avi_frames = 2;
  every_nth = 1;
  record_preview = true;
  dv_ctrl = true;
}

settings-IsSane : IsSane settings
settings-IsSane = ground arith

abbrev pub constructed : Cdv
constructed = record {
  state = State.idle;
  settings = settings;
  joiner = false;
  input = false;
  output = false;
  monitor = false;
  queue = false;
  thread = false;
  writer = none;
  capture_filename = [];
  dtformat = [];
  ndigits = 0;
  dropped = pos 0;
  counter = negsuc 0;
  time = negsuc 0;
  capture_time = pos 0;
  error_stats = reset_error_stats;
}

abbrev pub working : Parts
working = record {
  source_ok = true;
  type_ok = true;
  monitor_ok = true;
  output_ok = true;
  run_ok = true;
}

Step-Sound_example :
    StepSound constructed
      (build_capturing working constructed).2
      (build_capturing working constructed).1
Step-Sound_example =
    Step-Sound (λ t. pos 5) constructed _ _ (record { built = refl }) (capture_built working)

-- The pipeline when the capture thread starts.
abbrev paused : Cdv
paused = record constructed {
  state = State.capture_paused;
  input = true;
  monitor = true;
  queue = true;
  thread = true;
}

abbrev capturing : Cdv
capturing = record paused {
  state = State.capturing;
  capture_filename = 65 ∷ [];
  counter = pos 0;
  time = pos 0;
}

abbrev local : Local
local = record {
  n_frames = 0;
  file_counter = 0;
  dropped_base = pos 0;
  dv_time = pos 0;
  old_dv_time = pos 0;
  disk_check = 0;
  first_rec_time = pos 0;
  last_rec_time = pos 0;
  stop_reason = 0;
}

abbrev arrival : Arrival
arrival = record {
  duration = pos 400000;
  bytes = λ o. 0;
  len = 10;
  load = 0;
  driver_dropped = pos 0;
  free_bytes = none;
}

abbrev after : Cdv
after = record capturing {
  writer = some (record { dvtime = negsuc 0; written = 1 });
  counter = pos 1;
  time = pos 400000;
  error_stats = record reset_error_stats { total_frames = 1 };
}

abbrev local_after : Local
local_after = record local { n_frames = 1; file_counter = 1; dv_time = negsuc 0; disk_check = 1 }

abbrev told : List Effect
told = time_change (negsuc 0) ∷ preview ∷ opened (negsuc 0) ∷ wrote (pos 400000) ∷ []

one_frame : on_frame (λ t. pos 5) arrival (capturing, local) ≡ some ((after, local_after), told)
unfolding on_frame capture_frame observe write_frame ◌-ℤ◌ ◌+ℤ◌ accumulate_error_stats note_time
    get_dv_recording_time choose_target analyze_dv_frame
one_frame = refl

one_frame-Run : Run (IsWithin 2) (λ t. pos 5) (enter (pos 0) paused) told (after, local_after)
unfolding enter start_capturing
one_frame-Run =
    frame arrival (configured settings (omega arith) (started (65 ∷ []) [] 0 (pos 0) begin))
      one_frame

abbrev all_told : List Effect
all_told =
    time_change (negsuc 0)
    ∷ preview
    ∷ opened (negsuc 0)
    ∷ wrote (pos 400000)
    ∷ closed (record { dvtime = negsuc 0; written = 1 })
    ∷ []

one_frame-Session :
    Session
      (IsWithin 2)
      (λ t. pos 5)
      (enter (pos 0) paused)
      all_told
      (record after { writer = none })
unfolding leave
one_frame-Session = destroyed one_frame-Run

Session-conserves_example :
    (total one_opened all_told ≡ total one_closed all_told)
    × (total one_wrote all_told ≡ total frames_closed all_told)
    × ((record after { writer = none }).writer ≡ none)
Session-conserves_example =
    Session-conserves (IsWithin 2) (λ t. pos 5) (pos 0) paused all_told
      (record after { writer = none }) refl one_frame-Session

Session-AllClosedWell_example : AllClosedWell 2 all_told
Session-AllClosedWell_example =
    Session-AllClosedWell 2 (λ t. pos 5) (pos 0) paused all_told (record after { writer = none })
      (omega arith) (omega arith) (omega arith) refl one_frame-Session

-- A file that keeps every second frame, at its third frame.
abbrev halved : Settings
halved = record settings { every_nth = 2 }

abbrev third : Target
third = record {
  target = record { dvtime = pos 5; written = 1 };
  target_frames = 1;
  target_counter = 2;
  before = [];
}

write_frame-FileInv_example :
    let u = write_frame halved (pos 400000) (pos 6) third in
    FileInv halved u.target u.target_frames u.target_counter
write_frame-FileInv_example =
    write_frame-FileInv halved (pos 400000) (pos 6) third (ground arith) (ground arith)
