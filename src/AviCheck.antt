-- ===== src/AviCheck.antt =====
-- AVICheck.cpp: the integrity check of an AVI file. A file is what the Windows calls answer and the
-- bytes; the handle's position is written out, since every read is at a position that the code has
-- just set or has read up to.
pub mod Walk
pub mod Entries
pub mod Verdict
use win_dv.Prelude.{
  ℕ, zero, suc, ◌+◌, ◌-◌, ◌*◌, ◌/◌, ◌%◌, Bool, true, false, not, ◌&&◌, ◌||◌, ltb, leb, ◌==◌,
  if◌then◌else◌, List, [], ◌∷◌, ◌++◌, Option, none, some, add32, u32_mod,
}
use win_dv.Prelude.Loops.{fold_from}
use win_dv.Dv.{Bytes}
use win_dv.Queue.{copy_memory}

-- `ReadFile` at a position for a number of bytes answers with a success and a count.
pub record AviFile : Type 0 where
  pub opened : Bool
  pub size_known : Bool
  pub size : ℕ
  pub bytes : Bytes
  pub seek_ok : ℕ → Bool
  pub read_ok : ℕ → ℕ → Bool
  pub read_count : ℕ → ℕ → ℕ

-- What an error message reports.
pub data Problem : Type 0 where
  access_denied size_unreadable empty_file too_small no_riff_header not_avi : Problem
  no_hdrl no_movi no_index no_frames : Problem
  wrong_sizes : ℕ → Problem
  count_mismatch : ℕ → ℕ → Problem

-- `AVICheckResult`.
pub record CheckResult : Type 0 where
  pub valid : Bool
  pub has_index : Bool
  pub frame_count : ℕ
  pub index_entries : ℕ
  pub defect_frames : ℕ
  pub expected_size : ℕ
  pub actual_size : ℕ
  pub is_pal : Bool
  pub problems : List Problem

abbrev pub empty_result : CheckResult
empty_result = record {
  valid = false;
  has_index = false;
  frame_count = 0;
  index_entries = 0;
  defect_frames = 0;
  expected_size = 0;
  actual_size = 0;
  is_pal = false;
  problems = [];
}

-- `ReadExact` at a position.
abbrev pub read_exact : AviFile → ℕ → ℕ → Bool
read_exact f p n = f.read_ok p n && f.read_count p n == n

-- `FCC`, with the four characters as numbers.
abbrev pub fcc_at : AviFile → ℕ → ℕ → ℕ → ℕ → ℕ → Bool
fcc_at f p a b c d =
    f.bytes p == a && f.bytes (p + 1) == b && f.bytes (p + 2) == c && f.bytes (p + 3) == d

-- A DWORD in a buffer, least byte first.
abbrev pub dword_at : Bytes → ℕ → ℕ
dword_at s p = s p + 256 * s (p + 1) + 65536 * s (p + 2) + 16777216 * s (p + 3)

-- `PADEVEN`, in 32 bits.
abbrev pub pad_even : ℕ → ℕ
pad_even x = (x + 1) % u32_mod / 2 * 2

-- What the scan of an index counts, and the format that it finds.
pub record Index : Type 0 where
  pub video_frames : ℕ
  pub defects : ℕ
  pub format_known : Bool
  pub pal : Bool

-- "00dc" or "00db".
abbrev pub is_video : AviFile → ℕ → Bool
is_video f e =
    f.bytes e == 48
    && f.bytes (e + 1) == 48
    && f.bytes (e + 2) == 100
    && (f.bytes (e + 3) == 99 || f.bytes (e + 3) == 98)

abbrev pub is_dv_size : ℕ → Bool
is_dv_size n = n == 120000 || n == 144000

-- The entry at position `e`.
unfoldable pub scan_entry : AviFile → ℕ → Index → Index
scan_entry f e x =
    let n = dword_at f.bytes (e + 12) in
    let known = not x.format_known && is_dv_size n in
    if is_video f e
    then record {
      video_frames = add32 x.video_frames 1;
      defects = if is_dv_size n then x.defects else add32 x.defects 1;
      format_known = x.format_known || known;
      pal = if known then n == 144000 else x.pal;
    }
    else x

-- `for (DWORD i = 0; i < batch; i++)`, on the entries that stand at `p`.
unfoldable pub scan_batch : AviFile → ℕ → ℕ → Index → Index
scan_batch f p batch x = fold_from batch 0 (λ i. scan_entry f (p + i * 16)) x

abbrev pub batch_of : ℕ → ℕ
batch_of remaining = if ltb 4096 remaining then 4096 else remaining

-- `while (remaining > 0)`. The fuel is the number of entries that remain.
unfoldable pub scan_index : ℕ → AviFile → ℕ → ℕ → Index → Index
scan_index zero f p remaining x = x
scan_index (suc fuel) f p remaining x =
    let batch = batch_of remaining in
    let rest = scan_index fuel f (p + batch * 16) (remaining - batch) (scan_batch f p batch x) in
    if ltb 0 remaining then (if read_exact f p (batch * 16) then rest else x) else x

-- What the walk over the chunks has found.
pub record Scan : Type 0 where
  pub has_hdrl : Bool
  pub has_movi : Bool
  pub has_avih : Bool
  pub avih : Bytes
  pub found_index : Bool
  pub entries : ℕ
  pub defect : ℕ
  pub scan_pal : Bool

abbrev pub no_scan : Scan
no_scan = record {
  has_hdrl = false;
  has_movi = false;
  has_avih = false;
  avih = λ o. 0;
  found_index = false;
  entries = 0;
  defect = 0;
  scan_pal = false;
}
