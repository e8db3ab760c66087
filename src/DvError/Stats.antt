-- ===== src/DvError/Stats.antt =====
-- DVError.cpp, `AccumulateErrorStats`, over a session as DShow.cpp calls it: the number of a frame
-- is the number of the frames before it.
use win_dv.Prelude.{
  ℕ, ◌+◌, ◌%◌, ◌≤◌, ◌<◌, ◌≡◌, refl, ◌⊎◌, inl, inr, if◌then◌else◌, ◌==◌, ltb, arith, List, [], ◌∷◌,
  Option, none, some, length, u32_mod, Bool-cases,
}
use win_dv.DvError.{FrameErrorInfo, ErrorStats, reset_error_stats, accumulate_error_stats}

-- The frames of a session, the newest first.
abbrev pub History : Type 0
History = List FrameErrorInfo

-- The statistics that the capturing thread has after these frames.
unfoldable pub session : History → ErrorStats
unfolding accumulate_error_stats
session [] = reset_error_stats
session (f ∷ h) = accumulate_error_stats (session h) f (session h).total_frames

-- Frame number `k` of a session.
abbrev pub frame_at : History → ℕ → Option FrameErrorInfo
frame_at [] k = none
frame_at (f ∷ h) k = if k == length h then some f else frame_at h k

unfoldable pub sum_over : (FrameErrorInfo → ℕ) → History → ℕ
sum_over f [] = 0
sum_over f (x ∷ h) = f x + sum_over f h

abbrev pub is_positive : ℕ → ℕ
is_positive n = if ltb 0 n then 1 else 0

session-frames : (h : History) → length h < u32_mod → (session h).total_frames ≡ length h
unfolding session accumulate_error_stats
session-frames [] b = refl
session-frames (f ∷ h) b = omega (arith, session-frames h (omega arith))

pub sum_over-positive :
    (g : FrameErrorInfo → ℕ) (h : History) → sum_over (λ f. is_positive (g f)) h ≤ length h
unfolding sum_over
sum_over-positive g [] = omega arith
sum_over-positive g (x ∷ h) = ground (arith, sum_over-positive g h)

-- The totals of a session as sums over its frames, of block counts as 32-bit numbers.
abbrev pub SessionTotals : History → Type 0
SessionTotals h =
    let stats = session h in
    (stats.total_frames ≡ length h)
    × (stats.frames_with_video_errors ≡ sum_over (λ f. is_positive f.video_error_blocks) h)
    × (stats.frames_with_audio_errors ≡ sum_over (λ f. is_positive f.audio_error_blocks) h)
    × (stats.total_video_error_blocks ≡ sum_over (λ f. f.video_error_blocks) h % u32_mod)
    × (stats.total_audio_error_blocks ≡ sum_over (λ f. f.audio_error_blocks) h % u32_mod)
    × (stats.total_sta_f ≡ sum_over (λ f. f.video_sta_f) h % u32_mod)
    × (stats.stats_errors_even ≡ sum_over (λ f. f.video_errors_even) h % u32_mod)
    × (stats.stats_errors_odd ≡ sum_over (λ f. f.video_errors_odd) h % u32_mod)

-- In a session of less than 2^32 frames the numbers of frames, of frames with video errors and of
-- frames with audio errors are exact, and the totals of blocks are the sums over the frames modulo
-- 2^32.
pub session_totals : (h : History) → length h < u32_mod → SessionTotals h
unfolding session accumulate_error_stats sum_over
session_totals [] b = omega arith
session_totals (x ∷ h) b =
    let ih = session_totals h (omega arith) in
    (
      omega (arith, ih),
      ground (arith, ih, sum_over-positive (λ f. f.video_error_blocks) h),
      ground (arith, ih, sum_over-positive (λ f. f.audio_error_blocks) h),
      omega (arith, ih),
      omega (arith, ih),
      omega (arith, ih),
      omega (arith, ih),
      omega (arith, ih),
    )

-- Frame `number` is the first of those with the most video errors, which are `errors`.
pub record IsWorst (h : History) (number errors : ℕ) : Type 0 where
  pub most : (k : ℕ) (f : FrameErrorInfo) → frame_at h k ≡ some f → f.video_error_blocks ≤ errors
  pub reached :
      ((errors ≡ 0) × (number ≡ 0))
      ⊎ ((f : FrameErrorInfo) × (frame_at h number ≡ some f) × (f.video_error_blocks ≡ errors))
  pub first :
      (k : ℕ) (f : FrameErrorInfo)
      → k < number
      → frame_at h k ≡ some f
      → f.video_error_blocks < errors

frame_at-below : (h : History) (k : ℕ) (f : FrameErrorInfo) → frame_at h k ≡ some f → k < length h
frame_at-below [] k f e = cc
frame_at-below (x ∷ h) k f e = ground (arith, frame_at-below h k f)

module _ (x : FrameErrorInfo) (h : History) (number errors : ℕ) (w : IsWorst h number errors) where
  IsWorst-new : errors < x.video_error_blocks → IsWorst (x ∷ h) (length h) x.video_error_blocks
  IsWorst-new more = record {
    most = λ k f e. ground (arith, w.most k f);
    reached = inr (x, ground arith, refl);
    first = λ k f lt e. ground (arith, w.most k f);
  }

  IsWorst-old : ¬ (errors < x.video_error_blocks) → IsWorst (x ∷ h) number errors
  IsWorst-old no_more = record {
    most = λ k f e. ground (arith, w.most k f);
    reached = elim w.reached [
      | inl none_yet ↦ inl none_yet
      | inr (f, e, same) ↦ inr (f, ground (arith, frame_at-below h number f e), same)
    ];
    first = λ k f lt e. ground (arith, w.first k f, old_number);
  }
    where
      old_number : (number ≡ 0) ⊎ (number < length h)
      old_number = elim w.reached [
        | inl none_yet ↦ inl none_yet.1
        | inr (f, e, same) ↦ inr (frame_at-below h number f e)
      ]

-- The worst frame of a session of less than 2^32 frames is the first of those with the most video
-- errors; there need be none if no frame has a video error.
pub session-IsWorst :
    (h : History)
    → length h < u32_mod
    → IsWorst h (session h).worst_frame_number (session h).worst_frame_errors
unfolding session accumulate_error_stats
session-IsWorst [] b = record {
  most = λ k f e. cc;
  reached = inl (refl, refl);
  first = λ k f lt e. cc;
}
session-IsWorst (x ∷ h) b =
    let w = session-IsWorst h (omega arith) in
    let worse = ltb (session h).worst_frame_errors x.video_error_blocks in
    elim (Bool-cases worse) [
      | inl more ↦ rw (more, session-frames h (omega arith)) (IsWorst-new x h _ _ w (ground arith))
      | inr no_more ↦ rw no_more (IsWorst-old x h _ _ w (ground arith))
    ]
