-- ===== src/CaptureLog.antt =====
-- DShow.cpp, `CaptureStats` and `WriteCaptureLog`: one row of the CSV file about a session. A text
-- is a list of character codes. The clock, `strftime` with `localtime`, and "%.2f" of a percentage
-- are arguments, as a double is not modelled; a `long` has 32 bits.
pub mod Table
pub mod Rows
pub mod Session
use win_dv.Prelude.{
  ℕ, ◌+◌, ◌-◌, ◌/◌, ◌^◌, Bool, true, false, ltb, leb, ◌==◌, if◌then◌else◌, List, [], ◌∷◌, ◌++◌,
  Option, none, some, sub32, get_or,
}
use win_dv.Prelude.Int.{ℤ, pos, ltb_ℤ}
use win_dv.DvError.{ErrorStats}
use win_dv.Naming.{digits}
use win_dv.Checksum.{Texts, set_text, or_empty}

pub record CaptureStats : Type 0 where
  pub filename : List ℕ
  pub start_tick : ℕ
  pub tape_start : ℤ
  pub tape_end : ℤ
  pub frame_count : ℕ
  pub dropped_frames : ℕ
  pub is_pal : Bool
  pub stop_reason : ℕ
  pub check_passed : Bool
  pub check_defect : ℕ
  pub check_index : Bool
  pub error_stats : ErrorStats
  pub sha256 : List ℕ

abbrev pub header_fields : List (List ℕ)
header_fields =
    (84 ∷ 105 ∷ 109 ∷ 101 ∷ 115 ∷ 116 ∷ 97 ∷ 109 ∷ 112 ∷ [])
    ∷ (70 ∷ 105 ∷ 108 ∷ 101 ∷ 110 ∷ 97 ∷ 109 ∷ 101 ∷ [])
    ∷ (70 ∷ 111 ∷ 114 ∷ 109 ∷ 97 ∷ 116 ∷ [])
    ∷ (70 ∷ 114 ∷ 97 ∷ 109 ∷ 101 ∷ 115 ∷ [])
    ∷ (68 ∷ 114 ∷ 111 ∷ 112 ∷ 112 ∷ 101 ∷ 100 ∷ [])
    ∷ (84 ∷ 97 ∷ 112 ∷ 101 ∷ 83 ∷ 116 ∷ 97 ∷ 114 ∷ 116 ∷ [])
    ∷ (84 ∷ 97 ∷ 112 ∷ 101 ∷ 69 ∷ 110 ∷ 100 ∷ [])
    ∷ (68 ∷ 117 ∷ 114 ∷ 97 ∷ 116 ∷ 105 ∷ 111 ∷ 110 ∷ 95 ∷ 115 ∷ [])
    ∷ (83 ∷ 116 ∷ 111 ∷ 112 ∷ 82 ∷ 101 ∷ 97 ∷ 115 ∷ 111 ∷ 110 ∷ [])
    ∷ (65 ∷ 86 ∷ 73 ∷ 95 ∷ 79 ∷ 75 ∷ [])
    ∷ (70 ∷ 114 ∷ 97 ∷ 109 ∷ 101 ∷ 115 ∷ 95 ∷ 68 ∷ 101 ∷ 102 ∷ 101 ∷ 107 ∷ 116 ∷ [])
    ∷ (73 ∷ 110 ∷ 100 ∷ 101 ∷ 120 ∷ 95 ∷ 86 ∷ 111 ∷ 114 ∷ 104 ∷ 97 ∷ 110 ∷ 100 ∷ 101 ∷ 110 ∷ [])
    ∷ (70 ∷ 101 ∷ 104 ∷ 108 ∷ 101 ∷ 114 ∷ 95 ∷ 70 ∷ 114 ∷ 97 ∷ 109 ∷ 101 ∷ 115 ∷ [])
    ∷ (70 ∷ 101 ∷ 104 ∷ 108 ∷ 101 ∷ 114 ∷ 95 ∷ 66 ∷ 108 ∷ 111 ∷ 101 ∷ 99 ∷ 107 ∷ 101 ∷ 95 ∷ 86 ∷ 105
        ∷ 100 ∷ 101 ∷ 111 ∷ [])
    ∷ (70 ∷ 101 ∷ 104 ∷ 108 ∷ 101 ∷ 114 ∷ 95 ∷ 66 ∷ 108 ∷ 111 ∷ 101 ∷ 99 ∷ 107 ∷ 101 ∷ 95 ∷ 65 ∷ 117
        ∷ 100 ∷ 105 ∷ 111 ∷ [])
    ∷ (70 ∷ 101 ∷ 104 ∷ 108 ∷ 101 ∷ 114 ∷ 95 ∷ 80 ∷ 114 ∷ 111 ∷ 122 ∷ 101 ∷ 110 ∷ 116 ∷ [])
    ∷ (83 ∷ 99 ∷ 104 ∷ 108 ∷ 105 ∷ 109 ∷ 109 ∷ 115 ∷ 116 ∷ 101 ∷ 114 ∷ 95 ∷ 70 ∷ 114 ∷ 97 ∷ 109
        ∷ 101 ∷ [])
    ∷ (69 ∷ 118 ∷ 101 ∷ 110 ∷ 95 ∷ 79 ∷ 100 ∷ 100 ∷ 95 ∷ 68 ∷ 101 ∷ 108 ∷ 116 ∷ 97 ∷ [])
    ∷ (83 ∷ 72 ∷ 65 ∷ 50 ∷ 53 ∷ 54 ∷ [])
    ∷ []

-- `stopReasons`.
abbrev pub stop_reasons : List (List ℕ)
stop_reasons =
    (85 ∷ 83 ∷ 69 ∷ 82 ∷ [])
    ∷ (83 ∷ 73 ∷ 71 ∷ 78 ∷ 65 ∷ 76 ∷ 95 ∷ 76 ∷ 79 ∷ 83 ∷ 84 ∷ [])
    ∷ (76 ∷ 79 ∷ 87 ∷ 95 ∷ 68 ∷ 73 ∷ 83 ∷ 75 ∷ [])
    ∷ (84 ∷ 73 ∷ 77 ∷ 69 ∷ 68 ∷ [])
    ∷ []

unfoldable pub reason_text : ℕ → List ℕ
reason_text r = get_or stop_reasons r (85 ∷ 78 ∷ 75 ∷ 78 ∷ 79 ∷ 87 ∷ 78 ∷ [])

-- "%lu" and "%d" of a number that is not negative.
abbrev pub decimal : ℕ → List ℕ
decimal n = digits (n + 1) n

abbrev pub flag : Bool → List ℕ
flag b = if b then 49 ∷ [] else 48 ∷ []

-- `evenOddDelta`, of two DWORDs.
unfoldable pub even_odd_delta : ErrorStats → ℕ
even_odd_delta e =
    let d = sub32 e.stats_errors_even e.stats_errors_odd in if leb (2 ^ 31) d then 2 ^ 32 - d else d

-- What the row takes from outside: `strftime` of a time, the time, `GetTickCount`, and "%.2f" of
-- 100 * a / b.
pub record Clock : Type 0 where
  pub format : ℤ → List ℕ
  pub now : ℤ
  pub tick : ℕ
  pub percent : ℕ → ℕ → List ℕ

-- A time on the tape, or nothing.
abbrev pub tape_time : Clock → ℤ → List ℕ
tape_time k t = if ltb_ℤ (pos 0) t then k.format t else []

-- `errorPct`; without frames it is 0.
abbrev pub error_percent : Clock → ErrorStats → List ℕ
error_percent k e =
    if ltb 0 e.total_frames
    then k.percent e.frames_with_video_errors e.total_frames
    else k.percent 0 1

unfoldable pub row_fields : Clock → CaptureStats → List (List ℕ)
row_fields k s =
    k.format k.now
    ∷ s.filename
    ∷ (if s.is_pal then (80 ∷ 65 ∷ 76 ∷ []) else (78 ∷ 84 ∷ 83 ∷ 67 ∷ []))
    ∷ decimal s.frame_count
    ∷ decimal s.dropped_frames
    ∷ tape_time k s.tape_start
    ∷ tape_time k s.tape_end
    ∷ decimal (sub32 k.tick s.start_tick / 1000)
    ∷ reason_text s.stop_reason
    ∷ flag s.check_passed
    ∷ decimal s.check_defect
    ∷ flag s.check_index
    ∷ decimal s.error_stats.frames_with_video_errors
    ∷ decimal s.error_stats.total_video_error_blocks
    ∷ decimal s.error_stats.total_audio_error_blocks
    ∷ error_percent k s.error_stats
    ∷ decimal s.error_stats.worst_frame_number
    ∷ decimal (even_odd_delta s.error_stats)
    ∷ s.sha256
    ∷ []

-- Fields with commas between them.
abbrev pub with_commas : List (List ℕ) → List ℕ
with_commas [] = []
with_commas (f ∷ []) = f
with_commas (f ∷ g ∷ fs) = f ++ (44 ∷ with_commas (g ∷ fs))

unfoldable pub print_row : List (List ℕ) → List ℕ
print_row fields = with_commas fields ++ (10 ∷ [])

-- `can_open` is whether `fopen` succeeds; a file is new if there is none at the path.
unfoldable pub write_capture_log : (List ℕ → Bool) → Clock → Texts → List ℕ → CaptureStats → Texts
write_capture_log can_open k disk path s =
    if can_open path
    then set_text disk path (
        elim (disk path) [ none ↦ print_row header_fields | some text ↦ text ]
        ++ print_row (row_fields k s))
    else disk
