-- ===== src/Output/Timeline.antt =====
-- DShow.cpp, `COutputGraph::HandleFrame` and `CMonitor::Resize`: the times of the samples of a
-- stream, and the place of the preview.
use win_dv.Prelude.{ℕ, ◌+◌, ◌*◌, ◌≤◌, ◌<◌, ◌≡◌, ◌⊎◌, List, [], ◌∷◌, ◌++◌, Option, arith}
use win_dv.Prelude.Int.{ℤ}
use win_dv.Dv.{Bytes}
use win_dv.Output.{Sample, Buffers, handle_frame, resize}

-- A frame that is handed over, with what DirectShow answers.
pub record Handed : Type 0 where
  pub buffers : Buffers
  pub duration : ℤ
  pub frame : Option Bytes
  pub len : ℕ

-- The frames of a stream one after another: the samples and the last `m_time`.
unfoldable pub handle_frames : List Handed → ℤ → ℤ × List Sample
handle_frames [] time = (time, [])
handle_frames (h ∷ hs) time =
    let (o, time', out) = handle_frame h.buffers h.duration h.frame h.len time in
    let (last, more) = handle_frames hs time' in (last, out ++ more)

-- Samples that follow one another without gap or overlap from one time to another.
unfoldable pub Abutting : ℤ → List Sample → ℤ → Type 0
Abutting a [] b = a ≡ b
Abutting a (s ∷ ss) b = (s.start ≡ a) × Abutting s.stop ss b

-- In a control smaller than 2^29 pixels either way the preview lies inside the control, centred to
-- a pixel, and fills its width or its height to a pixel at a ratio of 4 to 3.
pub resize_fits :
    (cx cy : ℕ)
    → cx < 536870912
    → cy < 536870912
    → let v = resize cx cy in
      (2 * v.left + v.width ≤ cx)
      × (2 * v.top + v.height ≤ cy)
      × (cx ≤ 2 * v.left + v.width + 1)
      × (cy ≤ 2 * v.top + v.height + 1)
      × (3 * v.width ≤ 4 * v.height + 4)
      × (4 * v.height ≤ 3 * v.width + 4)
      × ((v.width ≡ cx) ⊎ (v.height ≡ cy))
unfolding resize
resize_fits cx cy hx hy = ground arith
