-- ===== src/Output.antt =====
-- DShow.cpp, `COutputGraph::HandleFrame` and `CMonitor::Resize`: frames on their way to a sink, and
-- the window of the preview. What DirectShow answers is an argument.
pub mod Timeline
pub mod Preview
use win_dv.Prelude.{
  ℕ, ◌+◌, ◌-◌, ◌*◌, ◌/◌, ◌%◌, Bool, true, false, not, ltb, if◌then◌else◌, List, [], ◌∷◌, Option,
  none, some, sub32, mul32,
}
use win_dv.Prelude.Int.{ℤ, pos, ◌+ℤ◌, eqb_ℤ}
use win_dv.Dv.{Bytes}
use win_dv.Cdv.{Outcome}

-- A sample that is delivered: its content, the times `m_time` and `newTime`, and whether they were
-- set on it.
pub record Sample : Type 0 where
  pub content : Bytes
  pub content_len : ℕ
  pub start : ℤ
  pub stop : ℤ
  pub timed : Bool

-- Whether a buffer and its pointer can be had.
pub record Buffers : Type 0 where
  pub got_buffer : Bool
  pub got_pointer : Bool

-- `HandleFrame` on `m_time`; no data is the end of the stream.
unfoldable pub handle_frame : Buffers → ℤ → Option Bytes → ℕ → ℤ → Outcome × ℤ × List Sample
handle_frame b duration none len time = (Outcome.returned, time, [])
handle_frame b duration (some data_bytes) len time =
    let new = time +ℤ duration in
    if not b.got_buffer
    then (Outcome.thrown, time, [])
    else if not b.got_pointer
    then (Outcome.returned, time, [])
    else (
      Outcome.returned,
      new,
      record {
        content = data_bytes;
        content_len = len;
        start = time;
        stop = new;
        timed = not (eqb_ℤ duration (pos 0));
      }
          ∷ [],
    )

-- The window that `CMonitor::Resize` sets, in a control of a width and a height.
pub record Window : Type 0 where
  pub left : ℕ
  pub top : ℕ
  pub width : ℕ
  pub height : ℕ

unfoldable pub resize : ℕ → ℕ → Window
resize cx cy =
    let w = mul32 cy 4 / 3 in
    let h = mul32 cx 3 / 4 in
    let w' = if ltb cx w then cx else w in
    let h' = if ltb cy h then cy else h in
    record { left = sub32 cx w' / 2; top = sub32 cy h' / 2; width = w'; height = h' }
