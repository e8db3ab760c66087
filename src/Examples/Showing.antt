-- ===== src/Examples/Showing.antt =====
-- Two frames to a sink, the preview in a wide control, and a preview that shows one frame.
use win_dv.Prelude.{◌+◌, ◌*◌, ◌≤◌, ◌≡◌, refl, ◌⊎◌, true, false, some, arith}
use win_dv.Prelude.Int.{pos}
use win_dv.Output.{resize}
use win_dv.Output.Timeline.{Handed, resize_fits}
use win_dv.Output.Preview.{
  Phase, Monitor, show_frame, got, shown, woken, Reach, here, next, opened, delivers_filled,
  refused_stuck,
}

abbrev frame : Handed
frame = record {
  buffers = record { got_buffer = true; got_pointer = true };
  duration = pos 400000;
  frame = some (λ o. o);
  len = 144000;
}

abbrev lost : Handed
lost = record frame { buffers = record { got_buffer = true; got_pointer = false } }

resize_fits_example :
    let v = resize 1000 300 in
    (2 * v.left + v.width ≤ 1000)
    × (2 * v.top + v.height ≤ 300)
    × (1000 ≤ 2 * v.left + v.width + 1)
    × (300 ≤ 2 * v.top + v.height + 1)
    × (3 * v.width ≤ 4 * v.height + 4)
    × (4 * v.height ≤ 3 * v.width + 4)
    × ((v.width ≡ 1000) ⊎ (v.height ≡ 300))
resize_fits_example = resize_fits 1000 300 (omega arith) (omega arith)

abbrev showing : Monitor
showing = record {
  exposed = false;
  filled = true;
  ev = false;
  alive = true;
  phase = Phase.delivering;
}

showing-Reach : Reach opened showing
unfolding show_frame
showing-Reach = next (next (next here (got refl)) (shown true)) (woken refl refl refl)

delivers_filled_example : showing.filled ≡ true
delivers_filled_example = delivers_filled showing-Reach refl refl

abbrev exposing : Monitor
exposing = record {
  exposed = true;
  filled = false;
  ev = false;
  alive = true;
  phase = Phase.waiting;
}

-- The next frame comes in vain.
refused_stuck_example :
    (show_frame true (show_frame false exposing) ≡ show_frame false exposing)
    × ((show_frame true (show_frame false exposing)).phase ≡ Phase.waiting)
unfolding show_frame
refused_stuck_example =
    refused_stuck {m = exposing} (next here (got refl)) refl refl (next here (shown true)) refl
