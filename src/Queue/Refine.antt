-- ===== src/Queue/Refine.antt =====
-- DShow.cpp, `CDVQueue`: the ring and the bounded queue of Queue/Spec.antt.
use win_dv.Prelude.{
  ℕ, zero, suc, ◌+◌, ◌-◌, ◌%◌, ◌≤◌, ◌<◌, ◌≡◌, refl, ap, ap₂, some, ◌⊎◌, inl, inr, arith, ltb, List,
  [], ◌∷◌, ◌++◌, length, Bool-cases, true, lt→ltb,
}
use mathlib.Core.Option
use native.Mathlib.Numerals.{add-one}
use win_dv.Prelude.Int.{ℤ}
use win_dv.Dv.{Bytes}
use win_dv.Queue.{Buffer, DvQueue, Got, put, get, update, copy_memory, filled}
use win_dv.Queue.Invariant.{IsValid, mod-round}
use win_dv.Queue.Spec
use win_dv.Queue.Spec.{Frame, bytes_from, frame_of}

abbrev pub view : Buffer → Frame
view b = record { duration = b.duration; bytes = bytes_from b.len 0 b.bytes }

-- The frames of the `k` slots from `h` on, round a ring of `n`.
unfoldable pub queued : (ℕ → Buffer) → ℕ → ℕ → ℕ → List Frame
queued slots n h zero = []
queued slots n h (suc k) = view (slots h) ∷ queued slots n ((h + 1) % n) k

abbrev pub contents : DvQueue → List Frame
contents q = queued q.slots q.queue_size q.head q.load

length-queued : (slots : ℕ → Buffer) (n h k : ℕ) → length (queued slots n h k) ≡ k
unfolding queued
length-queued slots n h zero = refl
length-queued slots n h (suc k) = ap suc (length-queued slots n ((h + 1) % n) k)

pub length-contents : (q : DvQueue) → length (contents q) ≡ q.load
length-contents q = length-queued q.slots q.queue_size q.head q.load

bytes_from-copy :
    (n a m : ℕ) (dst src : Bytes)
    → a + n ≤ m
    → bytes_from n a (copy_memory dst src m) ≡ bytes_from n a src
bytes_from-copy zero a m dst src h = refl
bytes_from-copy (suc n) a m dst src h =
    ap₂ ◌∷◌ (ground arith) (bytes_from-copy n (suc a) m dst src (omega arith))

view-filled :
    (q : DvQueue) (d : ℤ) (s : Bytes) (len : ℕ)
    → view (filled q d s len) ≡ frame_of q.data_size d s len
view-filled q d s len =
    ap (λ b. record { duration = d; bytes = b })
      (bytes_from-copy _ 0 _ (q.slots q.tail).bytes s (omega arith))

-- A slot just past the window extends it.
queued-snoc :
    (slots : ℕ → Buffer) (n h k t : ℕ) (b : Buffer)
    → h < n
    → t < n
    → k < n
    → (t ≡ h + k) ⊎ (t + n ≡ h + k)
    → queued (update slots t b) n h (suc k) ≡ queued slots n h k ++ (view b ∷ [])
unfolding queued
queued-snoc slots n h zero t b hh ht hk past = ground arith
queued-snoc slots n h (suc k) t b hh ht hk past =
    let there = mod-round n h hh in
    let rest =
      queued-snoc slots n ((h + 1) % n) k t b (ground arith) ht (omega arith) (ground arith) in
    ap₂ ◌∷◌ (ground arith) rest

extended :
    (q : DvQueue) (d : ℤ) (s : Bytes) (len : ℕ)
    → IsValid q
    → queued (update q.slots q.tail (filled q d s len)) q.queue_size q.head (q.load + 1)
      ≡ contents q ++ (frame_of q.data_size d s len ∷ [])
extended q d s len v =
    rw (add-one, ← view-filled q d s len)
      (queued-snoc q.slots q.queue_size q.head q.load q.tail (filled q d s len) v.head_in v.tail_in
        v.load_in v.tail_past)

-- In a valid ring, `Put` fails exactly when the bounded queue is full, and otherwise adds the frame at its end, cut
-- to the size of a slot.
pub put_refines :
    (q : DvQueue) (d : ℤ) (s : Bytes) (len : ℕ)
    → IsValid q
    → Option.map contents (put q d s len)
      ≡ Spec.put (q.queue_size - 1) (contents q) (frame_of q.data_size d s len)
unfolding put Spec.put
put_refines q d s len v = elim (Bool-cases (ltb q.load (q.queue_size - 1))) [
  | inl room ↦ rw (length-contents q, room) (ap some (extended q d s len v))
  | inr full ↦ rw (length-contents q, full)
]

-- The frame that a reader of `Get`'s result finds.
abbrev pub got_frame : DvQueue → Got → Frame
got_frame q g = record {
  duration = g.got_duration;
  bytes = bytes_from g.got_len 0 (q.slots g.slot).bytes;
}

get_refines_from :
    (q : DvQueue) (k : ℕ)
    → q.load ≡ k
    → Option.map (λ (g, q'). (got_frame q' g, contents q')) (get q) ≡ Spec.get (contents q)
unfolding get Spec.get queued
get_refines_from q zero e = rw e
get_refines_from q (suc k) e =
    let back : q.load - 1 ≡ k = omega arith in
    let some_left : ltb 0 q.load ≡ true = lt→ltb _ _ (omega arith) in rw (some_left, back) (rw e)

-- `Get` fails exactly when the queue is empty, and otherwise takes its oldest frame, which the slot
-- that it hands out holds.
pub get_refines :
    (q : DvQueue)
    → Option.map (λ (g, q'). (got_frame q' g, contents q')) (get q) ≡ Spec.get (contents q)
get_refines q = get_refines_from q q.load refl
