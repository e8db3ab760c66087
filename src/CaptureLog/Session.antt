-- ===== src/CaptureLog/Session.antt =====
-- DShow.cpp, the end of `CDV::CapturingThread`: what is reported of a session after its writer is
-- closed. The capture file, as `CheckAVIIntegrity` reads it and as `ReadFile` delivers it, is an
-- argument, and so is what the disk can open.
use win_dv.Prelude.{
  ℕ, ◌+◌, ◌-◌, ◌≡◌, Bool, false, if◌then◌else◌, List, [], ◌∷◌, ◌++◌, length, take, Option, none,
  some, sub32, arith,
}
use win_dv.Prelude.Int.{pos, pos_part, neg_part, ltb_ℤ}
use win_dv.Cdv.{Cdv}
use win_dv.Cdv.Capture.{Local}
use win_dv.AviCheck.{AviFile, CheckResult, empty_result}
use win_dv.AviCheck.Walk.{check_avi_integrity, is_ok}
use win_dv.AviCheck.Verdict.{check_avi_integrity-ends}
use win_dv.Checksum.{
  Reads, Texts, compute_file_sha256, write_sha256_sidecar, sidecar_path, bare_name, after_last,
}
use win_dv.CaptureLog.{CaptureStats, Clock, write_capture_log}

pub record Surroundings : Type 0 where
  pub memory : ℕ → ℕ
  pub can_open : List ℕ → Bool
  pub files : List ℕ → Option Reads
  pub avi : List ℕ → AviFile
  pub clock : Clock

-- `CheckAVIIntegrity`, on fuel that is enough.
unfoldable pub check_file : AviFile → CheckResult
check_file f = elim (check_avi_integrity (f.size + 1) f) [ none ↦ empty_result | some r ↦ r ]

-- The fuel is enough: the result is that of the check.
check_file-result : (f : AviFile) → check_avi_integrity (f.size + 1) f ≡ some (check_file f)
unfolding check_file
check_file-result f = let (r, e) = check_avi_integrity-ends f in ground (arith, e)

-- The hash, if it is wanted and the file reads; else the empty text.
abbrev pub hash_of : Option (List ℕ) → List ℕ
hash_of none = []
hash_of (some hash) = hash

abbrev pub session_hash : Surroundings → Bool → List ℕ → Option (List ℕ)
session_hash e enable path = if enable then compute_file_sha256 e.memory (e.files path) else none

-- `capStats` when the log is written.
unfoldable pub final_stats : ℕ → Bool → Cdv → Local → CheckResult → List ℕ → CaptureStats
final_stats start_tick is_pal c l check hash = record {
  filename = c.capture_filename;
  start_tick = start_tick;
  tape_start = l.first_rec_time;
  tape_end = l.last_rec_time;
  frame_count = sub32 (pos_part c.counter) (neg_part c.counter);
  dropped_frames = sub32 (pos_part c.dropped) (neg_part c.dropped);
  is_pal = is_pal;
  stop_reason = l.stop_reason;
  check_passed = is_ok check;
  check_defect = check.defect_frames;
  check_index = check.has_index;
  error_stats = c.error_stats;
  sha256 = hash;
}

-- The folder of a path, up to and with its last backslash, else ".\".
unfoldable pub folder : List ℕ → List ℕ
folder path = elim (after_last path) [
  | some rest ↦ take (length path - length rest) path
  | none ↦ 46 ∷ 92 ∷ []
]

abbrev pub log_path : List ℕ → List ℕ
log_path path =
    folder path
    ++ (87 ∷ 105 ∷ 110 ∷ 68 ∷ 86 ∷ 95 ∷ 67 ∷ 97 ∷ 112 ∷ 116 ∷ 117 ∷ 114 ∷ 101 ∷ 76 ∷ 111 ∷ 103 ∷ 46
        ∷ 99 ∷ 115 ∷ 118 ∷ [])

-- The messages to the dialog.
pub data Notice : Type 0 where
  check_complete : Bool → Notice
  time_cleared : Notice

abbrev pub with_sidecar : Surroundings → Texts → List ℕ → Option (List ℕ) → Texts
with_sidecar e disk path none = disk
with_sidecar e disk path (some hash) =
    write_sha256_sidecar e.can_open disk (sidecar_path path) hash (bare_name path) false

-- The disk afterwards, `m_lastCheckResult` if it is set, and the messages.
unfoldable pub report :
    Surroundings → Bool → ℕ → Bool → Texts → Cdv → Local → Texts × Option CheckResult × List Notice
report e enable_sha256 start_tick is_pal disk c l =
    let path = c.capture_filename in
    if ltb_ℤ (pos 0) c.counter
    then (let check = check_file (e.avi path) in
        let hash = session_hash e enable_sha256 path in
        (
          write_capture_log e.can_open e.clock (with_sidecar e disk path hash) (log_path path)
              (final_stats start_tick is_pal c l check (hash_of hash)),
          some check,
          check_complete (is_ok check) ∷ time_cleared ∷ [],
        ))
    else (disk, none, time_cleared ∷ [])
