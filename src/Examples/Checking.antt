-- ===== src/Examples/Checking.antt =====
-- An AVI file of 124 bytes with a header, an empty list of frames and an index of one PAL frame.
use win_dv.Prelude.{ℕ, ◌+◌, ◌≡◌, refl, true, false, leb, List, [], ◌∷◌, some, arith, get_or}
use win_dv.Prelude.Loops.{count_from, fold_from}
use win_dv.AviCheck.{AviFile, CheckResult, scan_index, scan_batch, scan_entry}
use win_dv.AviCheck.Entries.{IsReadable, video_at, defect_at, scan_index-counts}
use win_dv.AviCheck.Walk.{check_avi_integrity, early_return, walk, on_chunk, walk_avix, finish}
use win_dv.AviCheck.Verdict.{Verdict, check_avi_integrity-ends, check_avi_integrity-Verdict}

abbrev sample_bytes : List ℕ
sample_bytes =
    82 ∷ 73 ∷ 70 ∷ 70 ∷ 116 ∷ 0 ∷ 0 ∷ 0 ∷ 65 ∷ 86 ∷ 73 ∷ 32 ∷ 76 ∷ 73 ∷ 83 ∷ 84 ∷ 68 ∷ 0 ∷ 0 ∷ 0
    ∷ 104 ∷ 100 ∷ 114 ∷ 108 ∷ 97 ∷ 118 ∷ 105 ∷ 104 ∷ 56 ∷ 0 ∷ 0 ∷ 0 ∷ 0 ∷ 0 ∷ 0 ∷ 0 ∷ 0 ∷ 0 ∷ 0 ∷ 0
    ∷ 0 ∷ 0 ∷ 0 ∷ 0 ∷ 0 ∷ 0 ∷ 0 ∷ 0 ∷ 1 ∷ 0 ∷ 0 ∷ 0 ∷ 0 ∷ 0 ∷ 0 ∷ 0 ∷ 0 ∷ 0 ∷ 0 ∷ 0 ∷ 0 ∷ 0 ∷ 0 ∷ 0
    ∷ 0 ∷ 0 ∷ 0 ∷ 0 ∷ 64 ∷ 2 ∷ 0 ∷ 0 ∷ 0 ∷ 0 ∷ 0 ∷ 0 ∷ 0 ∷ 0 ∷ 0 ∷ 0 ∷ 0 ∷ 0 ∷ 0 ∷ 0 ∷ 0 ∷ 0 ∷ 0 ∷ 0
    ∷ 76 ∷ 73 ∷ 83 ∷ 84 ∷ 4 ∷ 0 ∷ 0 ∷ 0 ∷ 109 ∷ 111 ∷ 118 ∷ 105 ∷ 105 ∷ 100 ∷ 120 ∷ 49 ∷ 16 ∷ 0 ∷ 0
    ∷ 0 ∷ 48 ∷ 48 ∷ 100 ∷ 99 ∷ 0 ∷ 0 ∷ 0 ∷ 0 ∷ 0 ∷ 0 ∷ 0 ∷ 0 ∷ 128 ∷ 50 ∷ 2 ∷ 0 ∷ []

abbrev sample : AviFile
sample = record {
  opened = true;
  size_known = true;
  size = 124;
  bytes = λ o. get_or sample_bytes o 0;
  seek_ok = λ p. true;
  read_ok = λ p n. leb (p + n) 124;
  read_count = λ p n. n;
}

check_avi_integrity-ends_example :
    (r : CheckResult) × (check_avi_integrity (sample.size + 1) sample ≡ some r)
check_avi_integrity-ends_example = check_avi_integrity-ends sample

abbrev sample_result : CheckResult
sample_result = record {
  valid = true;
  has_index = true;
  frame_count = 1;
  index_entries = 1;
  defect_frames = 0;
  expected_size = 148104;
  actual_size = 124;
  is_pal = true;
  problems = [];
}

sample-check : check_avi_integrity 8 sample ≡ some sample_result
unfolding check_avi_integrity early_return walk on_chunk walk_avix finish scan_index scan_batch
    fold_from scan_entry
sample-check = refl

check_avi_integrity-Verdict_example : Verdict sample_result
check_avi_integrity-Verdict_example =
    check_avi_integrity-Verdict 8 sample sample_result sample-check

sample-IsReadable : IsReadable sample 108 1
sample-IsReadable = λ q m lo hi. ground arith

scan_index-counts_example :
    let x =
      scan_index 1 sample 108 1
        (record { video_frames = 0; defects = 0; format_known = false; pal = true }) in
    (x.video_frames ≡ count_from 1 0 (video_at sample 108))
    × (x.defects ≡ count_from 1 0 (defect_at sample 108))
scan_index-counts_example = scan_index-counts sample 108 1 true (omega arith) sample-IsReadable
