-- ===== src/DvError.antt =====
-- DVError.cpp: the STA analysis of a frame and the statistics of a session. Every counter is a
-- DWORD, and its increments and sums wrap at 2^32.
pub mod Count
pub mod Stats
use win_dv.Prelude.{
  ℕ, ◌+◌, ◌*◌, ◌%◌, Bool, true, false, not, ◌&&◌, ◌||◌, ltb, ◌==◌, if◌then◌else◌, add32, shr,
  low_bits,
}
use win_dv.Prelude.Loops.{fold_from}
use win_dv.Dv.{Bytes}

pub record FrameErrorInfo : Type 0 where
  pub video_error_blocks : ℕ
  pub audio_error_blocks : ℕ
  pub video_errors_even : ℕ
  pub video_errors_odd : ℕ
  pub video_sta_f : ℕ

abbrev pub no_errors : FrameErrorInfo
no_errors = record {
  video_error_blocks = 0;
  audio_error_blocks = 0;
  video_errors_even = 0;
  video_errors_odd = 0;
  video_sta_f = 0;
}

-- SCT_VIDEO, SCT_AUDIO and AAUX_INVALID_PACK_ID.
abbrev pub sct_video : ℕ
sct_video = 4

abbrev pub sct_audio : ℕ
sct_audio = 3

abbrev pub aaux_invalid_pack_id : ℕ
aaux_invalid_pack_id = 0xFF

-- The address of block `b` of sequence `i`.
abbrev pub block_addr : ℕ → ℕ → ℕ
block_addr i b = i * 12000 + b * 80

abbrev pub sct_of : Bytes → ℕ → ℕ
sct_of s o = low_bits (shr (s o) 5) 3

abbrev pub sta_of : Bytes → ℕ → ℕ
sta_of s o = low_bits (shr (s (o + 3)) 4) 4

-- The branch for a video block with an error, of sequence `i`.
abbrev pub count_video : ℕ → ℕ → FrameErrorInfo → FrameErrorInfo
count_video i sta info = record {
  video_error_blocks = add32 info.video_error_blocks 1;
  audio_error_blocks = info.audio_error_blocks;
  video_errors_even = if i % 2 == 0 then add32 info.video_errors_even 1 else info.video_errors_even;
  video_errors_odd = if i % 2 == 0 then info.video_errors_odd else add32 info.video_errors_odd 1;
  video_sta_f = if sta == 0xF then add32 info.video_sta_f 1 else info.video_sta_f;
}

-- The body of the inner loop, for block `b` of sequence `i`.
unfoldable pub analyze_block : Bytes → ℕ → ℕ → FrameErrorInfo → FrameErrorInfo
analyze_block s i b info =
    let o = block_addr i b in
    if sct_of s o == sct_video
    then (if sta_of s o == 0 then info else count_video i (sta_of s o) info)
    else if sct_of s o == sct_audio
    then (if s (o + 3) == aaux_invalid_pack_id
        then record info { audio_error_blocks = add32 info.audio_error_blocks 1 }
        else info)
    else info

unfoldable pub analyze_seq : Bytes → ℕ → FrameErrorInfo → FrameErrorInfo
unfolding fold_from analyze_block
analyze_seq s i info = fold_from 144 6 (analyze_block s i) info

abbrev pub frame_seqs : ℕ → ℕ
frame_seqs len = if len == 144000 then 12 else 10

unfoldable pub analyze_dv_frame : Bytes → ℕ → FrameErrorInfo
unfolding fold_from
analyze_dv_frame s len =
    if not (len == 120000) && not (len == 144000)
    then no_errors
    else fold_from (frame_seqs len) 0 (analyze_seq s) no_errors

pub record ErrorStats : Type 0 where
  pub total_frames : ℕ
  pub frames_with_video_errors : ℕ
  pub frames_with_audio_errors : ℕ
  pub total_video_error_blocks : ℕ
  pub total_audio_error_blocks : ℕ
  pub worst_frame_number : ℕ
  pub worst_frame_errors : ℕ
  pub total_sta_f : ℕ
  pub stats_errors_even : ℕ
  pub stats_errors_odd : ℕ

-- `ResetErrorStats`.
abbrev pub reset_error_stats : ErrorStats
reset_error_stats = record {
  total_frames = 0;
  frames_with_video_errors = 0;
  frames_with_audio_errors = 0;
  total_video_error_blocks = 0;
  total_audio_error_blocks = 0;
  worst_frame_number = 0;
  worst_frame_errors = 0;
  total_sta_f = 0;
  stats_errors_even = 0;
  stats_errors_odd = 0;
}

unfoldable pub accumulate_error_stats : ErrorStats → FrameErrorInfo → ℕ → ErrorStats
accumulate_error_stats stats frame frame_number = record {
  total_frames = add32 stats.total_frames 1;
  frames_with_video_errors =
      if ltb 0 frame.video_error_blocks
      then add32 stats.frames_with_video_errors 1
      else stats.frames_with_video_errors;
  frames_with_audio_errors =
      if ltb 0 frame.audio_error_blocks
      then add32 stats.frames_with_audio_errors 1
      else stats.frames_with_audio_errors;
  total_video_error_blocks = add32 stats.total_video_error_blocks frame.video_error_blocks;
  total_audio_error_blocks = add32 stats.total_audio_error_blocks frame.audio_error_blocks;
  worst_frame_number =
      if ltb stats.worst_frame_errors frame.video_error_blocks
      then frame_number
      else stats.worst_frame_number;
  worst_frame_errors =
      if ltb stats.worst_frame_errors frame.video_error_blocks
      then frame.video_error_blocks
      else stats.worst_frame_errors;
  total_sta_f = add32 stats.total_sta_f frame.video_sta_f;
  stats_errors_even = add32 stats.stats_errors_even frame.video_errors_even;
  stats_errors_odd = add32 stats.stats_errors_odd frame.video_errors_odd;
}
