-- ===== src/Examples/Hashing.antt =====
-- The digest of "abc", the sidecar of a file with these bytes, and a log of one session.
use win_dv.Prelude.{
  ℕ, ◌≡◌, refl, Bool, true, false, if◌then◌else◌, List, [], ◌∷◌, map, Option, none, some, arith,
  Each,
}
use win_dv.Prelude.Loops.{fold_from}
use win_dv.Prelude.Int.{pos}
use win_dv.DvError.{reset_error_stats}
use win_dv.AviCheck.{AviFile}
use win_dv.Cdv.{State, Cdv}
use win_dv.Cdv.Capture.{Local}
use win_dv.CommandLine.{same_text}
use win_dv.Sha256.{
  sha256_init, sha256_update, feed_byte, transform, schedule, first_words, block_word, round, rotr,
  ch, maj, ep0, ep1, sig0, sig1,
}
use win_dv.Sha256.Bytes.{sha256_final, sha256_hex, hash_bytes, finish}
use win_dv.Sha256.Padding.{reference}
use win_dv.Sha256.Digest.{update_all, joined, sha256_final-reference}
use win_dv.Checksum.{
  Reads, Texts, compute_file_sha256, write_sha256_sidecar, verify_file_sha256, sidecar_path,
  bare_name, or_empty,
}
use win_dv.Checksum.File.{pieces_read, compute_file_sha256-reference}
use win_dv.Checksum.Sidecar.{verify-write_sha256_sidecar}
use win_dv.CaptureLog.{CaptureStats, Clock, header_fields}
use win_dv.CaptureLog.Table.{read_table}
use win_dv.CaptureLog.Rows.{
  is_cell, is_cell-IsCell, IsPlain, IsFull, row_of, log_all, read_table-log_all,
}
use win_dv.CaptureLog.Session.{Surroundings}
use win_dv.Examples.Capturing.{constructed}

abbrev memory : ℕ → ℕ
memory i = 165

abbrev pieces : List (List ℕ)
pieces = (97 ∷ []) ∷ (98 ∷ 99 ∷ []) ∷ []

sha256_final-reference_example :
    sha256_final (update_all (sha256_init memory) pieces) ≡ reference (97 ∷ 98 ∷ 99 ∷ [])
sha256_final-reference_example = sha256_final-reference memory pieces

-- As FIPS 180-4 gives it: ba7816bf and so on.
abc_digest :
    sha256_hex (sha256_final (update_all (sha256_init memory) pieces))
    ≡ 98 ∷ 97 ∷ 55 ∷ 56 ∷ 49 ∷ 54 ∷ 98 ∷ 102 ∷ 56 ∷ 102 ∷ 48 ∷ 49 ∷ 99 ∷ 102 ∷ 101 ∷ 97 ∷ 52 ∷ 49
      ∷ 52 ∷ 49 ∷ 52 ∷ 48 ∷ 100 ∷ 101 ∷ 53 ∷ 100 ∷ 97 ∷ 101 ∷ 50 ∷ 50 ∷ 50 ∷ 51 ∷ 98 ∷ 48 ∷ 48 ∷ 51
      ∷ 54 ∷ 49 ∷ 97 ∷ 51 ∷ 57 ∷ 54 ∷ 49 ∷ 55 ∷ 55 ∷ 97 ∷ 57 ∷ 99 ∷ 98 ∷ 52 ∷ 49 ∷ 48 ∷ 102 ∷ 102
      ∷ 54 ∷ 49 ∷ 102 ∷ 50 ∷ 48 ∷ 48 ∷ 49 ∷ 53 ∷ 97 ∷ 100 ∷ []
unfolding sha256_hex sha256_final sha256_update update_all sha256_init feed_byte finish hash_bytes
    transform schedule first_words block_word round rotr ch maj ep0 ep1 sig0 sig1 fold_from
abc_digest = refl

-- The bytes come in one call, and a later call fails.
abbrev reads : Reads
reads = some (97 ∷ 98 ∷ 99 ∷ []) ∷ none ∷ some (100 ∷ []) ∷ []

abbrev hash : List ℕ
hash = sha256_hex (reference (joined (pieces_read reads)))

compute_file_sha256-reference_example : compute_file_sha256 memory (some reads) ≡ some hash
compute_file_sha256-reference_example = compute_file_sha256-reference memory reads

abbrev files : List ℕ → Option Reads
files path = some reads

-- ".\ab.avi".
abbrev path : List ℕ
path = 46 ∷ 92 ∷ 97 ∷ 98 ∷ 46 ∷ 97 ∷ 118 ∷ 105 ∷ []

abbrev anything : List ℕ → Bool
anything p = true

abbrev empty_disk : Texts
empty_disk p = none

bare : bare_name path ≡ 97 ∷ 98 ∷ 46 ∷ 97 ∷ 118 ∷ 105 ∷ []
unfolding bare_name
bare = refl

verify-write_sha256_sidecar_example :
    verify_file_sha256 memory
      (write_sha256_sidecar anything empty_disk (sidecar_path path) hash (bare_name path) false)
      files
      path
    ≡ (if same_text hash hash then 0 else 1)
unfolding bare_name
verify-write_sha256_sidecar_example =
    verify-write_sha256_sidecar anything empty_disk memory memory files files path hash hash refl
      (
        omega arith,
        (omega arith, (omega arith, (omega arith, (omega arith, (omega arith, record {}))))),
      )
      (omega arith) (omega arith) (compute_file_sha256-reference memory reads)
      (compute_file_sha256-reference memory reads)

abbrev clock : Clock
clock = record {
  format = λ t. 50 ∷ 48 ∷ [];
  now = pos 7;
  tick = 5000;
  percent = λ a b. 48 ∷ 46 ∷ 48 ∷ 48 ∷ [];
}

abbrev stats : CaptureStats
stats = record {
  filename = path;
  start_tick = 2000;
  tape_start = pos 3;
  tape_end = pos 0;
  frame_count = 25;
  dropped_frames = 1;
  is_pal = true;
  stop_reason = 0;
  check_passed = true;
  check_defect = 0;
  check_index = true;
  error_stats = reset_error_stats;
  sha256 = [];
}

stats-IsPlain : IsPlain clock stats
unfolding is_cell
stats-IsPlain = record {
  plain_format = λ t. is_cell-IsCell (50 ∷ 48 ∷ []) refl;
  plain_percent = λ a b. is_cell-IsCell (48 ∷ 46 ∷ 48 ∷ 48 ∷ []) refl;
  plain_filename = is_cell-IsCell path refl;
  plain_sha256 = record {};
}

read_table-log_all_example :
    (read_table (or_empty (log_all anything empty_disk path ((clock, stats) ∷ []) path))
      ≡ header_fields ∷ map row_of ((clock, stats) ∷ []))
    × Each IsFull (map row_of ((clock, stats) ∷ []))
read_table-log_all_example =
    read_table-log_all anything empty_disk path clock stats [] refl refl (stats-IsPlain, record {})

abbrev avi_file : AviFile
avi_file = record {
  opened = false;
  size_known = true;
  size = 0;
  bytes = λ o. 0;
  seek_ok = λ p. true;
  read_ok = λ p n. true;
  read_count = λ p n. n;
}

abbrev surroundings : Surroundings
surroundings = record {
  memory = memory;
  can_open = anything;
  files = λ p. none;
  avi = λ p. avi_file;
  clock = clock;
}

-- ".\ab", the name of a capture without its extension.
abbrev base : List ℕ
base = 46 ∷ 92 ∷ 97 ∷ 98 ∷ []

-- A session that wrote one frame.
abbrev ended : Cdv
ended = record constructed { state = State.finished; counter = pos 1; capture_filename = base }

abbrev local : Local
local = record {
  n_frames = 1;
  file_counter = 1;
  dropped_base = pos 0;
  dv_time = pos 0;
  old_dv_time = pos 0;
  disk_check = 1;
  first_rec_time = pos 0;
  last_rec_time = pos 0;
  stop_reason = 3;
}
