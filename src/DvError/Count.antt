-- ===== src/DvError/Count.antt =====
-- DVError.cpp, `AnalyzeDVFrame`, against an independent count of the blocks of the frame.
use win_dv.Prelude.{
  ℕ, zero, suc, ◌+◌, ◌*◌, ◌%◌, ◌≤◌, ◌<◌, ◌≡◌, Bool, not, ◌&&◌, ◌||◌, ◌==◌, if◌then◌else◌, arith,
}
use win_dv.Prelude.Loops.{count_from, fold_from}
use win_dv.Dv.{Bytes}
use win_dv.DvError.{
  FrameErrorInfo, no_errors, sct_video, sct_audio, aaux_invalid_pack_id, block_addr, sct_of, sta_of,
  analyze_block, analyze_seq, frame_seqs, analyze_dv_frame,
}

-- The sum of a function over `a, …, a + n - 1`.
unfoldable pub sum_from : ℕ → ℕ → (ℕ → ℕ) → ℕ
sum_from zero a f = 0
sum_from (suc n) a f = f a + sum_from n (suc a) f

-- A video block whose status says that it was concealed, and one that could not be.
abbrev pub is_concealed : Bytes → ℕ → ℕ → Bool
is_concealed s i b = sct_of s (block_addr i b) == sct_video && not (sta_of s (block_addr i b) == 0)

abbrev pub is_uncompensated : Bytes → ℕ → ℕ → Bool
is_uncompensated s i b = sct_of s (block_addr i b) == sct_video && sta_of s (block_addr i b) == 0xF

-- An audio block that could not be read.
abbrev pub is_unreadable : Bytes → ℕ → ℕ → Bool
is_unreadable s i b =
    sct_of s (block_addr i b) == sct_audio && s (block_addr i b + 3) == aaux_invalid_pack_id

abbrev pub one : Bool → ℕ
one b = if b then 1 else 0

-- `info'` is `info` with these counts added, and none of the five counters has wrapped.
pub record Adds (video audio even odd sta_f : ℕ) (info info' : FrameErrorInfo) : Type 0 where
  pub video_added : info'.video_error_blocks ≡ info.video_error_blocks + video
  pub audio_added : info'.audio_error_blocks ≡ info.audio_error_blocks + audio
  pub even_added : info'.video_errors_even ≡ info.video_errors_even + even
  pub odd_added : info'.video_errors_odd ≡ info.video_errors_odd + odd
  pub sta_f_added : info'.video_sta_f ≡ info.video_sta_f + sta_f

-- Every counter is at most `n`.
pub record Within (n : ℕ) (info : FrameErrorInfo) : Type 0 where
  pub video_in : info.video_error_blocks ≤ n
  pub audio_in : info.audio_error_blocks ≤ n
  pub even_in : info.video_errors_even ≤ n
  pub odd_in : info.video_errors_odd ≤ n
  pub sta_f_in : info.video_sta_f ≤ n

abbrev even_part : ℕ → ℕ → ℕ
even_part i n = if i % 2 == 0 then n else 0

abbrev odd_part : ℕ → ℕ → ℕ
odd_part i n = if i % 2 == 0 then 0 else n

analyze_block-Adds :
    (s : Bytes) (i b : ℕ) (info : FrameErrorInfo)
    → Within 5000 info
    → Adds
        (one (is_concealed s i b))
        (one (is_unreadable s i b))
        (even_part i (one (is_concealed s i b)))
        (odd_part i (one (is_concealed s i b)))
        (one (is_uncompensated s i b))
        info
        (analyze_block s i b info)
unfolding analyze_block
analyze_block-Adds s i b info w = ground arith

analyze_block-Within :
    (s : Bytes) (i b m : ℕ) (info : FrameErrorInfo)
    → m < 5000
    → Within m info
    → Within (suc m) (analyze_block s i b info)
unfolding analyze_block
analyze_block-Within s i b m info h w = ground arith

Adds-trans :
    (v v' a a' e e' o o' f f' : ℕ) (x y z : FrameErrorInfo)
    → Adds v a e o f x y
    → Adds v' a' e' o' f' y z
    → Adds (v + v') (a + a') (e + e') (o + o') (f + f') x z
Adds-trans v v' a a' e e' o o' f f' x y z p q = omega arith

parity-add :
    (i m n : ℕ)
    → (even_part i m + even_part i n ≡ even_part i (m + n))
      × (odd_part i m + odd_part i n ≡ odd_part i (m + n))
parity-add i m n = ground arith

-- The blocks of one sequence: none of the counters wraps in between.
module _ (s : Bytes) (i : ℕ) where
  abbrev pub concealed : ℕ → ℕ → ℕ
  concealed n a = count_from n a (is_concealed s i)

  abbrev pub unreadable : ℕ → ℕ → ℕ
  unreadable n a = count_from n a (is_unreadable s i)

  abbrev pub uncompensated : ℕ → ℕ → ℕ
  uncompensated n a = count_from n a (is_uncompensated s i)

  abbrev SeqAdds : ℕ → ℕ → FrameErrorInfo → FrameErrorInfo → Type 0
  SeqAdds n a x y =
      Adds (concealed n a) (unreadable n a) (even_part i (concealed n a))
        (odd_part i (concealed n a)) (uncompensated n a) x y

  blocks-Adds :
      (n a m : ℕ) (info : FrameErrorInfo)
      → m + n ≤ 5000
      → Within m info
      → SeqAdds n a info (fold_from n a (analyze_block s i) info)
  unfolding fold_from count_from
  blocks-Adds zero a m info h w = ground arith
  blocks-Adds (suc n) a m info h w =
      let next = analyze_block s i a info in
      let parity = parity-add i (one (is_concealed s i a)) (concealed n (suc a)) in
      let added =
        Adds-trans _ _ _ _ _ _ _ _ _ _ info next (fold_from n (suc a) (analyze_block s i) next)
          (analyze_block-Adds s i a info (omega arith))
          (blocks-Adds n (suc a) (suc m) next (omega arith)
            (analyze_block-Within s i a m info (omega arith) w)) in
      record {
        video_added = added.video_added;
        audio_added = added.audio_added;
        even_added = omega (arith, parity);
        odd_added = omega (arith, parity);
        sta_f_added = added.sta_f_added;
      }

  blocks-Within :
      (n a m : ℕ) (info : FrameErrorInfo)
      → m + n ≤ 5000
      → Within m info
      → Within (m + n) (fold_from n a (analyze_block s i) info)
  unfolding fold_from
  blocks-Within zero a m info h w = omega arith
  blocks-Within (suc n) a m info h w = omega (
    arith,
    blocks-Within n (suc a) (suc m) (analyze_block s i a info) (omega arith)
        (analyze_block-Within s i a m info (omega arith) w),
  )

-- The sequences of the frame.
module _ (s : Bytes) where
  abbrev pub video_errors : ℕ → ℕ
  video_errors i = concealed s i 144 6

  abbrev pub audio_errors : ℕ → ℕ
  audio_errors i = unreadable s i 144 6

  abbrev pub sta_f_errors : ℕ → ℕ
  sta_f_errors i = uncompensated s i 144 6

  abbrev pub even_errors : ℕ → ℕ
  even_errors i = even_part i (video_errors i)

  abbrev pub odd_errors : ℕ → ℕ
  odd_errors i = odd_part i (video_errors i)

  seqs-Adds :
      (n a m : ℕ) (info : FrameErrorInfo)
      → m + n * 144 ≤ 5000
      → Within m info
      → Adds
          (sum_from n a video_errors)
          (sum_from n a audio_errors)
          (sum_from n a even_errors)
          (sum_from n a odd_errors)
          (sum_from n a sta_f_errors)
          info
          (fold_from n a (analyze_seq s) info)
  unfolding fold_from analyze_seq sum_from
  seqs-Adds zero a m info h w = ground arith
  seqs-Adds (suc n) a m info h w =
      let next = analyze_seq s a info in
      Adds-trans _ _ _ _ _ _ _ _ _ _ info next (fold_from n (suc a) (analyze_seq s) next)
        (blocks-Adds s a 144 6 m info (omega arith) w)
        (seqs-Adds n (suc a) (m + 144) next (omega arith)
          (blocks-Within s a 144 6 m info (omega arith) w))

-- What `AnalyzeDVFrame` says of a frame of a valid size is the number of the concealed video blocks,
-- of the unreadable audio blocks, of the concealed blocks in even and in odd sequences and of the
-- uncompensated ones, over the blocks 6 to 149 of all sequences; no counter wraps. Of a buffer of
-- another size it says zero.
pub analyze_dv_frame_lem :
    (s : Bytes) (len : ℕ)
    → let n = frame_seqs len in
      let total = λ (f : ℕ → ℕ). if len == 120000 || len == 144000 then sum_from n 0 f else 0 in
      analyze_dv_frame s len ≡ record {
        video_error_blocks = total (video_errors s);
        audio_error_blocks = total (audio_errors s);
        video_errors_even = total (even_errors s);
        video_errors_odd = total (odd_errors s);
        video_sta_f = total (sta_f_errors s);
      }
unfolding analyze_dv_frame
analyze_dv_frame_lem s len =
    let counts = seqs-Adds s (frame_seqs len) 0 0 no_errors (ground arith) (omega arith) in
    ground (arith, counts)

count_from-le :
    (n a : ℕ) (p q : ℕ → Bool)
    → ((i : ℕ) → one (p i) + one (q i) ≤ 1)
    → count_from n a p + count_from n a q ≤ n
unfolding count_from
count_from-le zero a p q h = omega arith
count_from-le (suc n) a p q h = omega (arith, h a, count_from-le n (suc a) p q h)

count_from_mono :
    (n a : ℕ) (p q : ℕ → Bool)
    → ((i : ℕ) → one (p i) ≤ one (q i))
    → count_from n a p ≤ count_from n a q
unfolding count_from
count_from_mono zero a p q h = omega arith
count_from_mono (suc n) a p q h = omega (arith, h a, count_from_mono n (suc a) p q h)

sums :
    (s : Bytes) (n a : ℕ)
    → (sum_from n a (even_errors s) + sum_from n a (odd_errors s) ≡ sum_from n a (video_errors s))
      × (sum_from n a (sta_f_errors s) ≤ sum_from n a (video_errors s))
      × (sum_from n a (video_errors s) + sum_from n a (audio_errors s) ≤ n * 144)
unfolding sum_from
sums s zero a = omega arith
sums s (suc n) a =
    let parity : even_errors s a + odd_errors s a ≡ video_errors s a = ground arith in
    let sta_f : sta_f_errors s a ≤ video_errors s a =
      count_from_mono 144 6 (is_uncompensated s a) (is_concealed s a) (λ b. ground arith) in
    let both : video_errors s a + audio_errors s a ≤ 144 =
      count_from-le 144 6 (is_concealed s a) (is_unreadable s a) (λ b. ground arith) in
    omega (arith, sums s n (suc a), parity, sta_f, both)

-- For every buffer the counts of even and odd sequences add up to the video count, the
-- uncompensated blocks are among the video errors, and video and audio errors together are at most
-- the 1728 blocks that a PAL frame has after its headers.
pub analyze_dv_frame_consistent :
    (s : Bytes) (len : ℕ)
    → let info = analyze_dv_frame s len in
      (info.video_errors_even + info.video_errors_odd ≡ info.video_error_blocks)
      × (info.video_sta_f ≤ info.video_error_blocks)
      × (info.video_error_blocks + info.audio_error_blocks ≤ 1728)
analyze_dv_frame_consistent s len =
    rw (analyze_dv_frame_lem s len) (ground (arith, sums s 12 0, sums s 10 0))
