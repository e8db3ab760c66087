-- ===== src/Graphs/Frames.antt =====
-- DShow.cpp: frames on their way from an input pin through the queue to an output pin.
use win_dv.Prelude.{
  ℕ, ◌-◌, ◌≤◌, ◌<◌, ◌≡◌, refl, ◌∙◌, true, ltb, if◌then◌else◌, [], ◌∷◌, ◌++◌, Option, none, some,
  arith, length,
}
use mathlib.Core.Option
use win_dv.Prelude.Int.{ℤ, ◌-ℤ◌}
use win_dv.Dv.{Bytes}
use win_dv.Queue.{DvQueue, filled}
use win_dv.Queue.Spec
use win_dv.Queue.Spec.{Frame, bytes_from, frame_of}
use win_dv.Queue.Invariant.{IsValid}
use win_dv.Queue.Refine.{contents, length-contents, put_refines}
use win_dv.Graphs.{Hr}
use win_dv.Graphs.Pins.{
  MediaType, MediaSample, Allocation, input_media_type, receive, decide_buffer_size, enqueue,
}

input_media_type-size :
    (h : Hr) (mt t : MediaType) → input_media_type h mt ≡ some t → 144000 ≤ t.sample_size
unfolding input_media_type
input_media_type-size h mt t e = ground (arith, e)

-- What the queue is handed by the pin.
abbrev pub received : DvQueue → MediaSample → Option DvQueue
received q m = elim (receive Hr.s_ok m) [ none ↦ none | some c ↦ enqueue q c ]

frame_of-whole :
    (size : ℕ) (d : ℤ) (s : Bytes) (len : ℕ)
    → len ≤ size
    → frame_of size d s len ≡ record { duration = d; bytes = bytes_from len 0 s }
frame_of-whole size d s len fits =
    let short : (if ltb size len then size else len) ≡ len = ground arith in rw short refl

filled-fits :
    (q : DvQueue) (d : ℤ) (s : Bytes) (len depth : ℕ) (t : MediaType) (request : Allocation)
    → q.data_size ≡ t.sample_size
    → (filled q d s len).len ≤ (decide_buffer_size t depth request).buffer_size
unfolding decide_buffer_size
filled-fits q d s len depth t request e = ground (arith, e)

-- A sample of at most 144000 bytes that is received while the queue has room is put at the end of
-- the queue whole, with the difference of its times as its duration; and whatever is put there fits
-- into the buffers that an output pin asks for. The slots of the queue and the output pin have the
-- sample size of the media type that the input graph gives.
pub received-contents :
    (h : Hr) (mt t : MediaType) (m : MediaSample) (q : DvQueue) (request : Allocation) (depth : ℕ)
    → input_media_type h mt ≡ some t
    → q.data_size ≡ t.sample_size
    → IsValid q
    → q.load < q.queue_size - 1
    → m.actual_len ≤ 144000
    → (Option.map contents (received q m)
        ≡ some (
            contents q
            ++ (record { duration = m.stop -ℤ m.start; bytes = bytes_from m.actual_len 0 m.bytes }
                ∷ [])))
      × ((d : ℤ) (s : Bytes) (len : ℕ)
          → (filled q d s len).len ≤ (decide_buffer_size t depth request).buffer_size)
unfolding receive enqueue Spec.put
received-contents h mt t m q request depth given size valid room short =
    let large = input_media_type-size h mt t given in
    let whole = frame_of-whole q.data_size (m.stop -ℤ m.start) m.bytes m.actual_len (omega arith) in
    let open_slot : ltb (length (contents q)) (q.queue_size - 1) ≡ true =
      ground (arith, length-contents q) in
    (
      put_refines q (m.stop -ℤ m.start) m.bytes m.actual_len valid ∙ rw (open_slot, whole) refl,
      λ d s len. filled-fits q d s len depth t request size,
    )
