-- ===== src/AviCheck/Walk.antt =====
-- AVICheck.cpp, `CheckAVIIntegrity` and `FormatCheckResult`: the walks over the chunks, the checks
-- before them, and the result.
use win_dv.Prelude.{
  ℕ, zero, suc, ◌+◌, ◌*◌, ◌/◌, Bool, true, false, not, ◌&&◌, ◌||◌, ltb, leb, ◌==◌, if◌then◌else◌,
  List, [], ◌∷◌, ◌++◌, Option, none, some, min,
}
use win_dv.Queue.{copy_memory}
use win_dv.AviCheck.{
  AviFile, Problem, CheckResult, empty_result, read_exact, fcc_at, dword_at, pad_even, scan_index,
  Scan, no_scan,
}

-- The `LIST` branch for "hdrl", at the chunk at `p`. The header's bytes that `ReadFile` delivers
-- are stored even if there are too few of them.
abbrev pub read_header : AviFile → ℕ → Scan → Scan
read_header f p s =
    if read_exact f (p + 12) 8 && fcc_at f (p + 12) 97 118 105 104
    then (let size = dword_at f.bytes (p + 16) in
        let n = if ltb 56 size then 56 else size in
        record s {
          has_hdrl = true;
          has_avih = s.has_avih || read_exact f (p + 20) n;
          avih = copy_memory s.avih (λ o. f.bytes (p + 20 + o)) (min n (f.read_count (p + 20) n));
        })
    else record s { has_hdrl = true }

-- The branches on the chunk's four characters; `none` is a `break`.
unfoldable pub on_chunk : AviFile → ℕ → Scan → Option Scan
on_chunk f p s =
    let size = dword_at f.bytes (p + 4) in
    let x =
      scan_index (size / 16) f (p + 8) (size / 16)
        (record { video_frames = 0; defects = 0; format_known = false; pal = s.scan_pal }) in
    if fcc_at f p 76 73 83 84
    then (if not (read_exact f (p + 8) 4)
        then none
        else if fcc_at f (p + 8) 104 100 114 108
        then some (read_header f p s)
        else if fcc_at f (p + 8) 109 111 118 105
        then some (record s { has_movi = true })
        else some s)
    else if fcc_at f p 105 100 120 49
    then some (record s {
      found_index = true;
      entries = x.video_frames;
      defect = x.defects;
      scan_pal = x.pal;
    })
    else if fcc_at f p 105 110 100 120
    then some (record s { found_index = true })
    else some s

-- One round of the walk: the next position and what has been found.
abbrev pub walk_round : AviFile → ℕ → Scan → Option (ℕ × Scan)
walk_round f p s =
    let after = p + 8 + pad_even (dword_at f.bytes (p + 4)) in
    if not (f.seek_ok p)
    then none
    else if not (read_exact f p 8)
    then none
    else if leb after p
    then none
    else elim (on_chunk f p s) [ none ↦ none | some s' ↦ some (after, s') ]

-- `while (pos + 8 <= riffEnd)`; `none` if the fuel runs out.
unfoldable pub walk : ℕ → AviFile → ℕ → ℕ → Scan → Option (ℕ × Scan)
walk zero f riff_end p s = none
walk (suc fuel) f riff_end p s =
    if leb (p + 8) riff_end
    then elim (walk_round f p s) [ none ↦ some (p, s) | some (p', s') ↦ walk fuel f riff_end p' s' ]
    else some (p, s)

-- One round of the loop over the "RIFF" "AVIX" chunks: the next position.
abbrev pub avix_round : AviFile → ℕ → Option ℕ
avix_round f p =
    if not (f.seek_ok p)
    then none
    else if not (read_exact f p 12)
    then none
    else if not (fcc_at f p 82 73 70 70) || not (fcc_at f (p + 8) 65 86 73 88)
    then none
    else some (p + 8 + pad_even (dword_at f.bytes (p + 4)))

unfoldable pub walk_avix : ℕ → AviFile → ℕ → Option ℕ
walk_avix zero f p = none
walk_avix (suc fuel) f p =
    if leb (p + 12) f.size
    then elim (avix_round f p) [ none ↦ some p | some p' ↦ walk_avix fuel f p' ]
    else some p

abbrev pub when : Bool → Problem → List Problem
when b p = if b then p ∷ [] else []

-- From "Determine frame count" on.
unfoldable pub finish : ℕ → Scan → CheckResult
finish size s =
    let total = if s.has_avih then dword_at s.avih 16 else 0 in
    let height = dword_at s.avih 36 in
    let pal = if s.has_avih && not s.scan_pal && ltb 0 height then leb 576 height else s.scan_pal in
    let frames = if total == 0 && ltb 0 s.entries then s.entries else total in
    record {
      valid = s.has_hdrl && s.has_movi && ltb 0 frames;
      has_index = s.found_index;
      frame_count = frames;
      index_entries = s.entries;
      defect_frames = s.defect;
      expected_size =
          if ltb 0 frames then frames * ((if pal then 144000 else 120000) + 8) + 4096 else 0;
      actual_size = size;
      is_pal = pal;
      problems =
          when (not s.has_hdrl) Problem.no_hdrl
          ++ when (not s.has_movi) Problem.no_movi
          ++ when (not s.found_index) Problem.no_index
          ++ when (frames == 0) Problem.no_frames
          ++ when (ltb 0 s.defect) (Problem.wrong_sizes s.defect)
          ++ when (ltb 0 s.entries && ltb 0 frames && not (s.entries == frames))
              (Problem.count_mismatch frames s.entries);
    }

-- An early return.
abbrev pub refuse : ℕ → Problem → CheckResult
refuse size p = record empty_result { actual_size = size; problems = p ∷ [] }

-- The returns before the walk.
unfoldable pub early_return : AviFile → Option CheckResult
early_return f =
    if not f.opened
    then some (refuse 0 Problem.access_denied)
    else if not f.size_known
    then some (refuse 0 Problem.size_unreadable)
    else if f.size == 0
    then some (refuse 0 Problem.empty_file)
    else if ltb f.size 12
    then some (refuse f.size Problem.too_small)
    else if not (read_exact f 0 12)
    then some (refuse f.size Problem.no_riff_header)
    else if not (fcc_at f 0 82 73 70 70) || not (fcc_at f 8 65 86 73 32)
    then some (refuse f.size Problem.not_avi)
    else none

-- `CheckAVIIntegrity`; `none` if the fuel of a walk runs out.
unfoldable pub check_avi_integrity : ℕ → AviFile → Option CheckResult
check_avi_integrity fuel f = elim (early_return f) [
  | some r ↦ some r
  | none ↦ elim (walk fuel f (min (8 + dword_at f.bytes 4) f.size) 12 no_scan) [
    | none ↦ none
    | some (p, s) ↦ elim (walk_avix fuel f p) [ none ↦ none | some p' ↦ some (finish f.size s) ]
  ]
]

-- `FormatCheckResult`: whether its line begins with "OK" or with "FAIL".
abbrev pub is_ok : CheckResult → Bool
is_ok r = r.valid && r.defect_frames == 0 && r.has_index
