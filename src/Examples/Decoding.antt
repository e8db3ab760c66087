-- ===== src/Examples/Decoding.antt =====
-- A PAL frame that was recorded on 14 March 2024 at 15:09:26, with one video block that could not be
-- concealed, and two frames' statistics.
use win_dv.Prelude.{ℕ, ◌+◌, ◌*◌, ◌≡◌, refl, ◌==◌, ◌||◌, if◌then◌else◌, arith, [], ◌∷◌}
use win_dv.Prelude.Int.{ℤ, pos}
use win_dv.Dv.{Bytes, Tm, packet, rec_date, get_dv_recording_time}
use win_dv.Dv.Subcode.{IsFirst}
use win_dv.Dv.Timestamp.{get_dv_recording_time_frame}
use win_dv.DvError.{frame_seqs, analyze_dv_frame, no_errors}
use win_dv.DvError.Count.{
  sum_from, video_errors, audio_errors, even_errors, odd_errors, sta_f_errors, analyze_dv_frame_lem,
}
use win_dv.DvError.Stats.{History, session, IsWorst, session-IsWorst}

-- The subcode packets of the frame: the first holds the date, the second the time.
abbrev recorded : Bytes
recorded o =
    if o == packet 0 0 0
    then 0x62
    else if o == packet 0 0 0 + 2
    then 0x14
    else if o == packet 0 0 0 + 3
    then 0x03
    else if o == packet 0 0 0 + 4
    then 0x24
    else if o == packet 0 0 1
    then 0x63
    else if o == packet 0 0 1 + 2
    then 0x26
    else if o == packet 0 0 1 + 3
    then 0x09
    else if o == packet 0 0 1 + 4
    then 0x15
    else 0

-- A `mktime` that counts the seconds of the day.
abbrev seconds : Tm → ℤ
seconds t = pos (t.tm_hour * 3600 + t.tm_min * 60 + t.tm_sec)

date-IsFirst : IsFirst recorded 144000 0x62 (packet 0 0 0)
date-IsFirst = record {
  packet_addr = record {
    seq = 0;
    block = 0;
    sync = 0;
    seq_in = ground arith;
    block_in = omega arith;
    sync_in = omega arith;
    addr = refl;
  };
  id_byte = refl;
  lowest = λ o' at lt. ground (arith, at, lt);
}

time-IsFirst : IsFirst recorded 144000 0x63 (packet 0 0 1)
time-IsFirst = record {
  packet_addr = record {
    seq = 0;
    block = 0;
    sync = 1;
    seq_in = ground arith;
    block_in = omega arith;
    sync_in = omega arith;
    addr = refl;
  };
  id_byte = refl;
  lowest = λ o' at lt. ground (arith, at, lt);
}

get_dv_recording_time_frame_example : get_dv_recording_time seconds recorded 144000 ≡ pos 54566
unfolding rec_date
get_dv_recording_time_frame_example =
    get_dv_recording_time_frame seconds recorded 144000 (packet 0 0 0) (packet 0 0 1) refl
      date-IsFirst time-IsFirst

-- An NTSC frame with one video block that could not be concealed, in sequence 1.
abbrev damaged : Bytes
damaged o = if o == 12000 + 8 * 80 then 0x80 else if o == 12000 + 8 * 80 + 3 then 0xF0 else 0

analyze_dv_frame_lem_example :
    let n = frame_seqs 120000 in
    let total = λ (f : ℕ → ℕ). if 120000 == 120000 || 120000 == 144000 then sum_from n 0 f else 0 in
    analyze_dv_frame damaged 120000 ≡ record {
      video_error_blocks = total (video_errors damaged);
      audio_error_blocks = total (audio_errors damaged);
      video_errors_even = total (even_errors damaged);
      video_errors_odd = total (odd_errors damaged);
      video_sta_f = total (sta_f_errors damaged);
    }
analyze_dv_frame_lem_example = analyze_dv_frame_lem damaged 120000

abbrev pub two_frames : History
two_frames =
    record {
      video_error_blocks = 3;
      audio_error_blocks = 1;
      video_errors_even = 3;
      video_errors_odd = 0;
      video_sta_f = 2;
    }
    ∷ no_errors
    ∷ []

session-IsWorst_example : IsWorst two_frames 1 3
unfolding session
session-IsWorst_example = session-IsWorst two_frames (omega arith)
