-- ===== src/Examples/Queueing.antt =====
-- A ring of two frames of four bytes, used as `CDVQueue` is.
use win_dv.Prelude.{ℕ, ◌-◌, ◌≡◌, refl, ◌⊎◌, inl, true, false, some, arith}
use mathlib.Core.Option
use win_dv.Prelude.Int.{pos}
use win_dv.Dv.{Bytes}
use win_dv.Queue.{Buffer, DvQueue, new, stored, put, oldest, taken, get}
use win_dv.Queue.Invariant.{IsValid, new-IsValid, put-IsValid, same, another, get-slot_kept}
use win_dv.Queue.Spec
use win_dv.Queue.Spec.{frame_of}
use win_dv.Queue.Refine.{contents, got_frame, put_refines, get_refines}
use win_dv.Queue.Threads.{
  Producer, Consumer, Threads, Reach, start, here, next, get_call, get_empty, get_wait, put_call,
  put_go_on, put_store, consumer_woken, producer_woken, no_deadlock, put_full, get_wake, get_take,
}

abbrev memory : ℕ → Buffer
memory i = record { duration = pos 0; len = 0; bytes = λ o. 0 }

abbrev counting : Bytes
counting o = o

abbrev ring_0 : DvQueue
ring_0 = stored (new memory 2 4) (pos 7) counting 9

abbrev ring_1 : DvQueue
ring_1 = stored ring_0 (pos 8) counting 3

ring_0-put : put (new memory 2 4) (pos 7) counting 9 ≡ some ring_0
unfolding put new
ring_0-put = refl

ring_0-IsValid : IsValid ring_0
ring_0-IsValid =
    put-IsValid (new memory 2 4) ring_0 (pos 7) counting 9 (new-IsValid memory 2 4) ring_0-put

put_refines_example :
    Option.map contents (put ring_0 (pos 8) counting 3)
    ≡ Spec.put
        (ring_0.queue_size - 1)
        (contents ring_0)
        (frame_of ring_0.data_size (pos 8) counting 3)
put_refines_example = put_refines ring_0 (pos 8) counting 3 ring_0-IsValid

ring_0-get : get ring_0 ≡ some (oldest ring_0, taken ring_0)
unfolding get new
ring_0-get = refl

ring_0-refilled :
    put (taken ring_0) (pos 8) counting 3 ≡ some (stored (taken ring_0) (pos 8) counting 3)
unfolding put new
ring_0-refilled = refl

get-slot_kept_example :
    (stored (taken ring_0) (pos 8) counting 3).slots (oldest ring_0).slot
    ≡ ring_0.slots (oldest ring_0).slot
get-slot_kept_example =
    get-slot_kept ring_0 (taken ring_0) (stored (taken ring_0) (pos 8) counting 3) (oldest ring_0)
      ring_0-IsValid ring_0-get (another (pos 8) counting 3 same ring_0-refilled)

get_refines_example :
    Option.map (λ (g, q'). (got_frame q' g, contents q')) (get ring_1) ≡ Spec.get (contents ring_1)
get_refines_example = get_refines ring_1

-- The consumer finds the ring empty and goes to sleep; the producer puts a frame in, and then one
-- more than there is room for.
abbrev asleep : Threads
asleep = record (start memory 1 4) { consumer = Consumer.sleeping }

asleep-Reach : Reach (start memory 1 4) asleep
unfolding new get
asleep-Reach = next (next (next here (get_call refl)) (get_empty refl refl)) (get_wait refl refl)

abbrev ring_full : DvQueue
ring_full = stored (new memory 1 4) (pos 7) counting 9

abbrev fed : Threads
fed = record asleep { ring = ring_full; ev_get = true }

fed-Reach : Reach (start memory 1 4) fed
unfolding new put
fed-Reach =
    next (next (next asleep-Reach (put_call refl)) (put_go_on refl refl))
      (put_store (pos 7) counting 9 refl refl)

abbrev both_wait : Threads
both_wait = record fed { producer = Producer.waiting }

both_wait-Reach : Reach (start memory 1 4) both_wait
unfolding new put
both_wait-Reach =
    next (next (next fed-Reach (put_call refl)) (put_go_on refl refl))
      (put_full (pos 7) counting 9 refl refl)

consumer_woken_example : fed.ev_get ≡ true
unfolding new
consumer_woken_example = consumer_woken memory 1 4 fed-Reach refl (inl (omega arith))

abbrev drained : Threads
drained = record both_wait {
  ring = taken ring_full;
  ev_put = true;
  ev_get = false;
  consumer = Consumer.idle;
}

drained-Reach : Reach (start memory 1 4) drained
unfolding new get
drained-Reach = next (next both_wait-Reach (get_wake refl refl)) (get_take refl refl)

producer_woken_example : drained.ev_put ≡ true
unfolding new
producer_woken_example = producer_woken memory 1 4 drained-Reach refl (inl (omega arith))

no_deadlock_example : (both_wait.ev_put ≡ true) ⊎ (both_wait.ev_get ≡ true)
no_deadlock_example = no_deadlock memory 1 4 (omega arith) both_wait-Reach refl refl
