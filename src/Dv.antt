-- ===== src/Dv.antt =====
-- DV.cpp: the parser of the SSYB subcode of a raw DV frame. A frame is the function that gives the
-- byte at an offset, with its length in bytes.
pub mod Subcode
pub mod Timestamp
use win_dv.Prelude.{
  ℕ, ◌+◌, ◌-◌, ◌*◌, Option, none, some, Bool, ◌||◌, leb, ltb, ◌==◌, not, if◌then◌else◌, shr,
  low_bits,
}
use win_dv.Prelude.Int.{ℤ, pos, negsuc, sub_ℕ}
use win_dv.Prelude.Loops.{first_from}

abbrev pub Bytes : Type 0
Bytes = ℕ → ℕ

-- The five bytes of a subcode pack, `pack[0]` to `pack[4]`.
pub record Pack : Type 0 where
  pub id : ℕ
  pub flags : ℕ
  pub low : ℕ
  pub mid : ℕ
  pub high : ℕ

abbrev pub pack_at : Bytes → ℕ → Pack
pack_at s o = record {
  id = s o;
  flags = s (o + 1);
  low = s (o + 2);
  mid = s (o + 3);
  high = s (o + 4);
}

-- The address of packet `k` of subcode block `j` of sequence `i`.
abbrev pub packet : ℕ → ℕ → ℕ → ℕ
packet i j k = i * 150 * 80 + 1 * 80 + j * 80 + 3 + k * 8 + 3

abbrev pub seq_count : ℕ → ℕ
seq_count len = if leb 144000 len then 12 else 10

-- The test of the innermost round.
abbrev pub match_packet : Bytes → ℕ → ℕ → Option Pack
match_packet s num o = if s o == num then some (pack_at s o) else none

-- The three loops, over the packets `k` of a block, the blocks `j` of a sequence and the
-- sequences `i`.
abbrev pub scan_block : Bytes → ℕ → ℕ → ℕ → Option Pack
scan_block s num i j = first_from 6 0 (λ k. match_packet s num (packet i j k))

abbrev pub scan_seq : Bytes → ℕ → ℕ → Option Pack
scan_seq s num i = first_from 2 0 (scan_block s num i)

unfoldable pub get_ssyb_pack : Bytes → ℕ → ℕ → Option Pack
unfolding first_from
get_ssyb_pack s len num = first_from (seq_count len) 0 (scan_seq s num)

-- `struct tm`, as it is handed to `mktime`.
pub record Tm : Type 0 where
  pub tm_sec : ℕ
  pub tm_min : ℕ
  pub tm_hour : ℕ
  pub tm_mday : ℕ
  pub tm_mon : ℤ
  pub tm_year : ℕ
  pub tm_wday : ℤ
  pub tm_yday : ℤ
  pub tm_isdst : ℤ

-- `(raw & 0xf) + 10 * ((raw >> 4) & mask)`, for a mask of `bits` ones.
abbrev pub bcd : ℕ → ℕ → ℕ
bcd bits raw = low_bits raw 4 + 10 * low_bits (shr raw 4) bits

-- The two-digit year with the pivot at 50.
abbrev pub full_year : ℕ → ℕ
full_year y = if ltb y 50 then y + 2000 else y + 1900

-- `recDate`, from the date pack and the time pack. `year` is at least 1950, so that
-- `year - 1900` does not go below 0.
unfoldable pub rec_date : Pack → Pack → Tm
rec_date pack62 pack63 = record {
  tm_sec = bcd 3 pack63.low;
  tm_min = bcd 3 pack63.mid;
  tm_hour = bcd 2 pack63.high;
  tm_mday = bcd 2 pack62.low;
  tm_mon = sub_ℕ (bcd 1 pack62.mid) 1;
  tm_year = full_year (bcd 4 pack62.high) - 1900;
  tm_wday = negsuc 0;
  tm_yday = negsuc 0;
  tm_isdst = negsuc 0;
}

abbrev pub is_frame_size : ℕ → Bool
is_frame_size len = len == 144000 || len == 120000

-- `mktime` is the C library's.
unfoldable pub get_dv_recording_time : (Tm → ℤ) → Bytes → ℕ → ℤ
get_dv_recording_time mktime buf len =
    if not (is_frame_size len) then negsuc 0 else elim (get_ssyb_pack buf len 0x62) [
      | none ↦ negsuc 0
      | some pack62 ↦ elim (get_ssyb_pack buf len 0x63) [
        | none ↦ negsuc 0
        | some pack63 ↦ mktime (rec_date pack62 pack63)
      ]
    ]
