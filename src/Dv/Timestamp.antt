-- ===== src/Dv/Timestamp.antt =====
-- DV.cpp, `GetDVRecordingTime`: when it fails, and what it hands to `mktime`.
use win_dv.Prelude.{
  ℕ, ◌+◌, ◌-◌, ◌*◌, ◌/◌, ◌%◌, ◌^◌, ◌≤◌, ◌<◌, ◌≡◌, ◌≢◌, ◌⊎◌, inl, inr, true, false, none, arith,
  Option-cases, Bool-cases,
}
use win_dv.Prelude.Int.{ℤ, pos, negsuc}
use win_dv.Dv.{
  Bytes, Pack, pack_at, Tm, rec_date, is_frame_size, get_ssyb_pack, get_dv_recording_time,
  seq_count,
}
use win_dv.Dv.Subcode.{
  IsPacket, IsFirst, get_ssyb_pack_first, get_ssyb_pack-some, get_ssyb_pack-congr,
}

-- A two-digit number in BCD, with `flags` in the bits of the upper nibble that the mask strips.
abbrev pub bcd_byte : ℕ → ℕ → ℕ → ℕ
bcd_byte bits flags v = v % 10 + 16 * (v / 10 + 2 ^ bits * flags)

abbrev pub date_pack : ℕ → ℕ → ℕ → ℕ → ℕ → ℕ → Pack
date_pack f1 f2 f3 year month day = record {
  id = 0x62;
  flags = f1;
  low = bcd_byte 2 f2 day;
  mid = bcd_byte 1 f3 month;
  high = bcd_byte 4 0 (year % 100);
}

abbrev pub time_pack : ℕ → ℕ → ℕ → ℕ → ℕ → ℕ → ℕ → Pack
time_pack f1 f2 f3 f4 hour min sec = record {
  id = 0x63;
  flags = f1;
  low = bcd_byte 3 f2 sec;
  mid = bcd_byte 3 f3 min;
  high = bcd_byte 2 f4 hour;
}

-- A date and time between 1950 and 2049 that is written in BCD, whatever the flag bits beside it,
-- is read back as the same date and time.
pub rec_date_round_trip :
    (f1 f2 f3 g1 g2 g3 g4 year month day hour min sec : ℕ)
    → 1950 ≤ year
    → year < 2050
    → 1 ≤ month
    → month ≤ 12
    → day ≤ 31
    → hour < 24
    → min < 60
    → sec < 60
    → rec_date (date_pack f1 f2 f3 year month day) (time_pack g1 g2 g3 g4 hour min sec) ≡ record {
      tm_sec = sec;
      tm_min = min;
      tm_hour = hour;
      tm_mday = day;
      tm_mon = pos (month - 1);
      tm_year = year - 1900;
      tm_wday = negsuc 0;
      tm_yday = negsuc 0;
      tm_isdst = negsuc 0;
    }
unfolding rec_date
rec_date_round_trip f1 f2 f3 g1 g2 g3 g4 year month day hour min sec h1 h2 h3 h4 h5 h6 h7 h8 =
    ground arith

-- The fields of any date handed to `mktime`, also from packs that hold no BCD digits, are small:
-- the decoder checks no digit, so they need not be in the ranges of a calendar.
pub rec_date_bounds :
    (date time : Pack)
    → let tm = rec_date date time in
      (tm.tm_sec ≤ 85)
      × (tm.tm_min ≤ 85)
      × (tm.tm_hour ≤ 45)
      × (tm.tm_mday ≤ 45)
      × (50 ≤ tm.tm_year)
      × (tm.tm_year ≤ 165)
unfolding rec_date
rec_date_bounds date time =
    (omega arith, omega arith, omega arith, omega arith, ground arith, ground arith)

absent :
    (s : Bytes) (len num : ℕ)
    → ((o : ℕ) → IsPacket (seq_count len) o → s o ≢ num)
    → get_ssyb_pack s len num ≡ none
absent s len num h = elim (Option-cases (get_ssyb_pack s len num)) [
  | inl missing ↦ missing
  | inr (p, found) ↦
      let (o, at, id, pack, lowest) = get_ssyb_pack-some s len num p found in absurd (h o at id)
]

module _ (mktime : Tm → ℤ) (s : Bytes) (len : ℕ) where
  -- In an NTSC or PAL frame that holds a date pack and a time pack, the result is `mktime` of the
  -- fields of those at the lowest addresses.
  pub get_dv_recording_time_frame :
      (date time : ℕ)
      → is_frame_size len ≡ true
      → IsFirst s len 0x62 date
      → IsFirst s len 0x63 time
      → get_dv_recording_time mktime s len ≡ mktime (rec_date (pack_at s date) (pack_at s time))
  unfolding get_dv_recording_time
  get_dv_recording_time_frame date time size d t =
      rw (size, get_ssyb_pack_first s len 0x62 date d, get_ssyb_pack_first s len 0x63 time t)

  -- A frame of another size, or one with no date pack or no time pack, gives -1.
  pub get_dv_recording_time_missing :
      (is_frame_size len ≡ false)
        ⊎ ((o : ℕ) → IsPacket (seq_count len) o → s o ≢ 0x62)
        ⊎ ((o : ℕ) → IsPacket (seq_count len) o → s o ≢ 0x63)
      → get_dv_recording_time mktime s len ≡ negsuc 0
  unfolding get_dv_recording_time
  get_dv_recording_time_missing (inl size) = rw size
  get_dv_recording_time_missing (inr (inl h)) = ground (arith, absent s len 0x62 h)
  get_dv_recording_time_missing (inr (inr h)) = ground (arith, absent s len 0x63 h)

-- The result depends on the bytes inside the frame only.
pub get_dv_recording_time-congr :
    (mktime : Tm → ℤ) (s t : Bytes) (len : ℕ)
    → ((o : ℕ) → o < len → s o ≡ t o)
    → get_dv_recording_time mktime s len ≡ get_dv_recording_time mktime t len
unfolding get_dv_recording_time
get_dv_recording_time-congr mktime s t len same = elim (Bool-cases (is_frame_size len)) [
  | inr other ↦ rw other
  | inl size ↦
      let read = λ (num : ℕ). get_ssyb_pack-congr s t len num (ground arith) same in
      ground (arith, read 0x62, read 0x63)
]
