-- ===== src/Dialog.antt =====
-- DVToolsDlg.cpp, `CDVToolsDlg`: the buttons and tabs of the main window and the pipeline that they
-- drive. What the devices do when a pipeline is built is an argument. A button can be pressed on
-- the tab that shows it. The controls' texts are the fields here; the labels that only show numbers
-- are in Dialog/Display.antt.
pub mod Builds
pub mod Display
pub mod Layout
pub mod Events
pub mod Tabs
use win_dv.Prelude.{
  ℕ, Bool, true, false, not, ◌&&◌, ◌==◌, if◌then◌else◌, List, [], ◌∷◌, ◌++◌, ◌≡◌, ◌<◌,
}
use win_dv.Prelude.Int.{ℤ, pos}
use win_dv.Cdv.{
  State, Cdv, Mode, Parts, Outcome, destroy, build_capturing, build_recording, start_capturing,
  stop_capturing, start_recording, stop_recording,
}
use win_dv.Cdv.Capture.{is_finished}
use win_dv.AviCheck.{CheckResult}
use win_dv.Messages.{Piece, low_space_message, signal_lost_message, check_message}

-- The text of `m_status`: one that `InitVideo` sets, that of an exception, that of the timer for a
-- state and a number of dropped frames (Messages.status_text), or a message of the capturing thread.
pub data Status : Type 0 where
  initializing select_file failure : Status
  for_state : State → ℤ → Status
  message : List Piece → Status

pub record Dialog : Type 0 where
  pub sel : ℕ
  pub exit_on_finish : Bool
  pub timer : Bool
  pub status : Status
  pub file_dst : List ℕ
  pub dtformat : List ℕ
  pub suffix_digits : ℕ
  pub video : Cdv
  pub is_open : Bool

abbrev pub is_returned : Outcome → Bool
is_returned o = elim o [ Outcome.returned ↦ true | _ ↦ false ]

-- `InitVideo` before its switch.
abbrev pub blanked : Dialog → Dialog
blanked d = record d { exit_on_finish = false; timer = false; status = initializing }

-- The window with the pipeline that was built, and the timer set; or with the exception caught.
abbrev pub after_build : Dialog → Outcome × Cdv × List Mode → Dialog × List Mode
after_build d (o, c, ms) =
    if is_returned o
    then (record d { video = c; timer = true }, ms)
    else (record d { video = c; status = failure }, ms)

unfoldable pub init_video : Parts → Dialog → Dialog × List Mode
init_video p d =
    if d.sel == 0
    then after_build (blanked d) (build_capturing p d.video)
    else if d.sel == 1
    then (let (c, ms) = destroy d.video in
        (record (blanked d) { video = c; status = select_file }, ms))
    else (blanked d, [])

-- An operation of the pipeline that throws nothing.
abbrev pub with_video : Dialog → Cdv × List Mode → Dialog × List Mode
with_video d (c, ms) = (record d { video = c }, ms)

unfoldable pub on_capture : Parts → Dialog → Dialog × List Mode
on_capture p d = elim d.video.state [
  | State.capture_paused ↦
      with_video d (start_capturing d.file_dst d.dtformat d.suffix_digits (pos 0) d.video)
  | State.capturing ↦ with_video d (stop_capturing d.video)
  | _ ↦ init_video p d
]

-- What the handlers of exceptions do: `InitVideo`, and the text of the exception.
abbrev pub recover : Parts → Dialog → List Mode → Dialog × List Mode
recover p d ms = let (d', ms') = init_video p d in (record d' { status = failure }, ms ++ ms')

-- `p` is what the devices do for the recording, and `p'` for `InitVideo` if it fails.
abbrev pub build_or_recover : Parts → Dialog → Outcome × Cdv × List Mode → Dialog × List Mode
build_or_recover p' d (o, c, ms) =
    if is_returned o
    then (record d { video = c; timer = true }, ms)
    else recover p' (record d { video = c }) ms

unfoldable pub on_record : Parts → Parts → Dialog → Dialog × List Mode
on_record p p' d = elim d.video.state [
  | State.record_paused ↦ with_video d (start_recording d.video)
  | State.recording ↦ with_video d (stop_recording d.video)
  | _ ↦ build_or_recover p' d (build_recording p d.video)
]

-- `OnSelchangeToolTab`, after another tab is selected.
abbrev pub on_selchange : Parts → ℕ → Dialog → Dialog × List Mode
on_selchange p tab d = init_video p (record d { sel = tab })

unfoldable pub on_cmd_tab_change : Parts → Bool → ℕ → Dialog → Dialog × List Mode
on_cmd_tab_change p enabled tab d =
    if enabled && not (d.sel == tab) then on_selchange p tab d else (d, [])

-- `OnClose`, but for what it writes to the profile.
unfoldable pub on_close : Dialog → Dialog × List Mode
on_close d = let (c, ms) = destroy d.video in (record d { video = c; is_open = false }, ms)

-- The status of `OnTimer`.
abbrev pub refreshed : Dialog × List Mode → Dialog × List Mode
refreshed (d, ms) = (record d { status = for_state d.video.state d.video.dropped }, ms)

unfoldable pub on_timer : Dialog → Dialog × List Mode
on_timer d =
    refreshed (if is_finished d.video.state && d.exit_on_finish then on_close d else (d, []))

-- `OnDVLowDiskSpace`, `OnDVSignalLost` and `OnDVCheckComplete`, which the messages of the capturing
-- thread call; the sounds are left out.
unfoldable pub on_low_disk_space : ℤ → Dialog → Dialog
on_low_disk_space megabytes d = record d { status = message (low_space_message megabytes) }

unfoldable pub on_signal_lost : Dialog → Dialog
on_signal_lost d = record d { status = message signal_lost_message }

unfoldable pub on_check_complete : Bool → CheckResult → Dialog → Dialog
on_check_complete ok r d = record d { status = message (check_message ok r d.video.error_stats) }

-- The command "capture" of `OnInitDialog`, once its arguments are read: `exit_flag` is whether it
-- ends with the capture, `p` what the devices do when the tab is chosen, `p'` when the pipeline is
-- built again, and `p''` when `InitVideo` follows a failure.
abbrev pub capture_or_recover :
    Parts → ℤ → List ℕ → Dialog → Outcome × Cdv × List Mode → Dialog × List Mode
capture_or_recover p'' limit file d (o, c, ms) =
    if is_returned o
    then (let (c', ms') = start_capturing file d.dtformat d.suffix_digits limit c in
        (record d { video = c'; timer = true }, ms ++ ms'))
    else recover p'' (record d { video = c }) ms

abbrev pub prefixed : List Mode → Dialog × List Mode → Dialog × List Mode
prefixed ms (d, ms') = (d, ms ++ ms')

unfoldable pub command_capture :
    Parts → Parts → Parts → Bool → ℤ → List ℕ → Dialog → Dialog × List Mode
command_capture p p' p'' exit_flag limit file d =
    let (d1, ms) = on_selchange p 0 d in
    let d2 = record d1 { exit_on_finish = exit_flag; file_dst = file } in
    prefixed ms (capture_or_recover p'' limit file d2 (build_capturing p' d2.video))

-- The command "record" likewise.
abbrev pub record_or_recover : Parts → Dialog → Outcome × Cdv × List Mode → Dialog × List Mode
record_or_recover p'' d (o, c, ms) =
    if is_returned o
    then (let (c', ms') = start_recording c in (record d { video = c'; timer = true }, ms ++ ms'))
    else recover p'' (record d { video = c }) ms

unfoldable pub command_record : Parts → Parts → Parts → Bool → Dialog → Dialog × List Mode
command_record p p' p'' exit_flag d =
    let (d1, ms) = on_selchange p 1 d in
    let d2 = record d1 { exit_on_finish = exit_flag } in
    prefixed ms (record_or_recover p'' d2 (build_recording p' d2.video))
