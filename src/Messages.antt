-- ===== src/Messages.antt =====
-- DVToolsDlg.cpp, `OnTimer`, `OnDVLowDiskSpace`, `OnDVSignalLost` and `OnDVCheckComplete`: what the
-- window says of a capture. A text is the list of its pieces; `Format` prints each of them.
pub mod Summary
use win_dv.Prelude.{ℕ, Bool, not, ◌&&◌, ltb, ◌==◌, if◌then◌else◌, List, [], ◌∷◌, ◌++◌}
use win_dv.Prelude.Int.{ℤ}
use Prim.Native.String.{String}
use win_dv.AviCheck.{CheckResult, Problem}
use win_dv.DvError.{ErrorStats}
use win_dv.Cdv.{State}

-- "%lu", "%d", and "%.1f%%" of 100.0 times a number over another.
pub data Piece : Type 0 where
  text : String → Piece
  number : ℕ → Piece
  signed : ℤ → Piece
  percent : ℕ → ℕ → Piece
  problem : List Problem → Piece

-- The parts of the summary that stand if their number is not 0.
unfoldable pub worst_part : ErrorStats → List Piece
worst_part es =
    if ltb 0 es.worst_frame_errors
    then text ", worst: #"
      ∷ number es.worst_frame_number
      ∷ text " ("
      ∷ number es.worst_frame_errors
      ∷ text " STA)"
      ∷ []
    else []

unfoldable pub audio_part : ErrorStats → List Piece
audio_part es =
    if ltb 0 es.frames_with_audio_errors
    then text ", audio: " ∷ number es.frames_with_audio_errors ∷ text " frames" ∷ []
    else []

unfoldable pub critical_part : ErrorStats → List Piece
critical_part es =
    if ltb 0 es.total_sta_f then text " [" ∷ number es.total_sta_f ∷ text " CRITICAL]" ∷ [] else []

-- `errMsg`.
unfoldable pub error_summary : ErrorStats → List Piece
error_summary es =
    if es.frames_with_video_errors == 0 && es.frames_with_audio_errors == 0
    then text " | DV: error-free" ∷ []
    else text " | DV errors: "
      ∷ number es.frames_with_video_errors
      ∷ text " frames ("
      ∷ percent es.frames_with_video_errors es.total_frames
      ∷ text ")"
      ∷ (worst_part es ++ audio_part es ++ critical_part es)

-- `OnDVCheckComplete`, of `wParam`.
unfoldable pub check_message : Bool → CheckResult → ErrorStats → List Piece
check_message ok r es =
    (if ok
      then text "AVI OK: "
        ∷ number r.frame_count
        ∷ text " frames, "
        ∷ text (if r.is_pal then "PAL" else "NTSC")
        ∷ []
      else text "AVI problem: " ∷ problem r.problems ∷ [])
    ++ (if ltb 0 es.total_frames then error_summary es else [])

abbrev pub low_space_message : ℤ → List Piece
low_space_message megabytes =
    text "WARNING: Low disk space! " ∷ signed megabytes ∷ text " MB remaining" ∷ []

abbrev pub signal_lost_message : List Piece
signal_lost_message = text "Signal lost - capture stopped." ∷ []

-- `txt` of `OnTimer`, with the number of dropped frames.
unfoldable pub status_text : State → ℤ → List Piece
status_text s dropped = elim s [
  | State.capturing ↦
      text "Capturing...  Press <Capture> for pause."
      ∷ text " ("
      ∷ signed dropped
      ∷ text " frames dropped)"
      ∷ []
  | State.capture_paused ↦ text "Paused... Press <Capture> for Capturing." ∷ []
  | State.recording ↦ text "Recording...  Press <Record> for pause." ∷ []
  | State.record_paused ↦ text "Paused... Press <Record> for recording." ∷ []
  | State.finished ↦ text "Finished." ∷ []
  | State.idle ↦ []
]

-- `txt3` of `OnTimer`, with the load of the queue.
unfoldable pub queue_text : State → ErrorStats → ℤ → List Piece
queue_text s es load = elim s [
  | State.capturing ↦
      if ltb 0 es.frames_with_video_errors && ltb 0 es.total_frames
      then text " Q:"
        ∷ signed load
        ∷ text " E:"
        ∷ number es.frames_with_video_errors
        ∷ text "/"
        ∷ percent es.frames_with_video_errors es.total_frames
        ∷ []
      else text " Q:" ∷ signed load ∷ text " E:0" ∷ []
  | State.recording ↦ text " Q:" ∷ signed load ∷ []
  | State.record_paused ↦ text " Q:" ∷ signed load ∷ []
  | _ ↦ []
]
