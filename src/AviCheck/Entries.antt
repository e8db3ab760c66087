-- ===== src/AviCheck/Entries.antt =====
-- AVICheck.cpp, `CheckAVIIntegrity`: the scan of an `idx1` chunk in batches of 4096 entries.
use win_dv.Prelude.{
  ℕ, zero, suc, ◌+◌, ◌-◌, ◌*◌, ◌≤◌, ◌<◌, ◌≡◌, refl, sym, ap, ◌∙◌, Bool, true, false, not, ◌&&◌, ltb,
  if◌then◌else◌, arith, u32_mod, Bool-cases, inl, inr,
}
use win_dv.Prelude.Loops.{fold_from, fold_from-add, fold_from-shift, count_from}
use win_dv.AviCheck.{
  AviFile, read_exact, dword_at, Index, is_video, is_dv_size, scan_entry, scan_batch, batch_of,
  scan_index,
}

-- Every batch of the `n` entries at `p` can be read.
abbrev pub IsReadable : AviFile → ℕ → ℕ → Type 0
IsReadable f p n = (q m : ℕ) → p ≤ q → q + m ≤ p + n * 16 → read_exact f q m ≡ true

scan_batch-join :
    (f : AviFile) (p m n : ℕ) (x : Index)
    → scan_batch f (p + m * 16) n (scan_batch f p m x) ≡ scan_batch f p (m + n) x
unfolding scan_batch
scan_batch-join f p m n x =
    fold_from-shift n 0 m m _ _ (omega arith) (λ i s. ap (λ e. scan_entry f e s) (omega arith))
      (fold_from m 0 (λ i. scan_entry f (p + i * 16)) x)
    ∙ fold_from-add m n (m + n) 0 m (λ i. scan_entry f (p + i * 16)) x (omega arith) refl

scan_batch-zero : (f : AviFile) (p : ℕ) (x : Index) → scan_batch f p 0 x ≡ x
unfolding scan_batch fold_from
scan_batch-zero f p x = refl

-- If the entries can be read, the scan in batches is one pass over all of them.
scan_index-scan_batch :
    (fuel : ℕ) (f : AviFile) (p remaining : ℕ) (x : Index)
    → remaining ≤ fuel
    → IsReadable f p remaining
    → scan_index fuel f p remaining x ≡ scan_batch f p remaining x
unfolding scan_index
scan_index-scan_batch zero f p remaining x h r =
    let none_left : remaining ≡ 0 = omega (arith, h) in rw none_left (sym (scan_batch-zero f p x))
scan_index-scan_batch (suc fuel) f p remaining x h r = elim (Bool-cases (ltb 0 remaining)) [
  | inr done ↦
      let none_left : remaining ≡ 0 = ground (arith, done) in
      rw none_left (sym (scan_batch-zero f p x))
  | inl more ↦
      let b = batch_of remaining in
      let some_read : 0 < b = ground (arith, more) in
      let within : b ≤ remaining = ground (arith, more) in
      let all : b + (remaining - b) ≡ remaining = omega arith in
      let rest =
        scan_index-scan_batch fuel f (p + b * 16) (remaining - b) (scan_batch f p b x) (omega arith)
          (λ q m lo hi. r q m (omega arith) (omega arith)) in
      rw (more, r p (b * 16) (omega arith) (omega arith))
        (rest ∙ scan_batch-join f p b (remaining - b) x ∙ ap (λ n. scan_batch f p n x) all)
]

-- Entry `i` of the index at `p` is a video frame; and one that has no frame's size.
abbrev pub video_at : AviFile → ℕ → ℕ → Bool
video_at f p i = is_video f (p + i * 16)

abbrev pub defect_at : AviFile → ℕ → ℕ → Bool
defect_at f p i = is_video f (p + i * 16) && not (is_dv_size (dword_at f.bytes (p + i * 16 + 12)))

scan_entry-counts :
    (f : AviFile) (e : ℕ) (x : Index)
    → x.video_frames + 1 < u32_mod
    → x.defects + 1 < u32_mod
    → let y = scan_entry f e x in
      (y.video_frames ≡ x.video_frames + (if is_video f e then 1 else 0))
      × (y.defects
          ≡ x.defects
            + (if is_video f e && not (is_dv_size (dword_at f.bytes (e + 12))) then 1 else 0))
unfolding scan_entry
scan_entry-counts f e x hv hd = ground arith

scan_entries-counts :
    (f : AviFile) (p n a : ℕ) (x : Index)
    → x.video_frames + n < u32_mod
    → x.defects + n < u32_mod
    → let y = fold_from n a (λ i. scan_entry f (p + i * 16)) x in
      (y.video_frames ≡ x.video_frames + count_from n a (video_at f p))
      × (y.defects ≡ x.defects + count_from n a (defect_at f p))
unfolding fold_from count_from
scan_entries-counts f p zero a x hv hd = omega arith
scan_entries-counts f p (suc n) a x hv hd =
    let (v, d) = scan_entry-counts f (p + a * 16) x (omega arith) (omega arith) in
    let (vs, ds) =
      scan_entries-counts f p n (suc a) (scan_entry f (p + a * 16) x) (ground (arith, v))
        (ground (arith, d)) in
    (omega (arith, v, vs), omega (arith, d, ds))

-- Of an index of less than 2^32 entries that can all be read, the scan counts each video entry,
-- and among these each that has the size of no DV frame.
pub scan_index-counts :
    (f : AviFile) (p n : ℕ) (pal : Bool)
    → n < u32_mod
    → IsReadable f p n
    → let x =
        scan_index n f p n
          (record { video_frames = 0; defects = 0; format_known = false; pal = pal }) in
      (x.video_frames ≡ count_from n 0 (video_at f p))
      × (x.defects ≡ count_from n 0 (defect_at f p))
unfolding scan_batch
scan_index-counts f p n pal small r =
    let fresh : Index = record { video_frames = 0; defects = 0; format_known = false; pal = pal } in
    let (v, d) = scan_entries-counts f p n 0 fresh (omega arith) (omega arith) in
    let same = scan_index-scan_batch n f p n fresh (omega arith) r in
    (
      ap (λ (y : Index). y.video_frames) same ∙ v ∙ omega arith,
      ap (λ (y : Index). y.defects) same ∙ d ∙ omega arith,
    )
