-- ===== src/Queue/Threads.antt =====
-- DShow.cpp, `CDVQueue::Put`, `Get` and `GetWithTimeout` as two threads: the streaming thread that
-- puts frames in, and the worker that takes them out. A step is one locked part, one test of
-- `m_end`, or one wait that ends. Both events reset themselves when a wait ends (`CEvent` with its
-- defaults). `Put(-1, NULL, 0)` is a step of any thread.
use win_dv.Prelude.{ℕ, ◌-◌, ◌<◌, ◌≡◌, refl, ◌∙◌, ◌⊎◌, Bool, true, false, some, none, arith}
use win_dv.Prelude.Int.{ℤ}
use win_dv.Dv.{Bytes}
use win_dv.Queue.{Buffer, DvQueue, Got, new, put, get}
use win_dv.Queue.Invariant.{IsValid, new-IsValid, put-IsValid, get-IsValid, put-load, get-load}

-- Where the producer stands: outside `Put`, at the loop's test of `m_end`, past it, or waiting on
-- `m_evPut`.
pub data Producer : Type 0 where
  free testing locking waiting : Producer

-- Where the consumer stands: outside `Get`, before the locked part, at the test of `m_end` after it
-- found the ring empty, or waiting on `m_evGet`.
pub data Consumer : Type 0 where
  idle taking ending sleeping : Consumer

pub record Threads : Type 0 where
  pub ring : DvQueue
  pub ended : Bool
  pub ev_put : Bool
  pub ev_get : Bool
  pub producer : Producer
  pub consumer : Consumer

-- The steps.
pub data Step (t : Threads) : Threads → Type 0 where
  -- `Put` of a frame is called, and tests `m_end` before each round.
  put_call : t.producer ≡ Producer.free → Step t (record t { producer = Producer.testing })
  put_ended :
      t.producer ≡ Producer.testing
      → t.ended ≡ true
      → Step t (record t { producer = Producer.free })
  put_go_on :
      t.producer ≡ Producer.testing
      → t.ended ≡ false
      → Step t (record t { producer = Producer.locking })
  -- The locked part finds room: the frame is stored and `m_evGet` set.
  put_store :
      (d : ℤ) (s : Bytes) (len : ℕ) {q : DvQueue}
      → t.producer ≡ Producer.locking
      → put t.ring d s len ≡ some q
      → Step t (record t { ring = q; ev_get = true; producer = Producer.free })
  -- It finds the ring full, and the producer waits until `m_evPut` is set.
  put_full :
      (d : ℤ) (s : Bytes) (len : ℕ)
      → t.producer ≡ Producer.locking
      → put t.ring d s len ≡ none
      → Step t (record t { producer = Producer.waiting })
  put_wake :
      t.producer ≡ Producer.waiting
      → t.ev_put ≡ true
      → Step t (record t { ev_put = false; producer = Producer.testing })
  -- `Put` of the end: the flag and both events are set.
  put_end : Step t (record t { ended = true; ev_get = true; ev_put = true })
  -- `Get` is called; its locked part finds a frame, takes it and sets `m_evPut`, or finds none.
  get_call : t.consumer ≡ Consumer.idle → Step t (record t { consumer = Consumer.taking })
  get_take :
      {g : Got} {q : DvQueue}
      → t.consumer ≡ Consumer.taking
      → get t.ring ≡ some (g, q)
      → Step t (record t { ring = q; ev_put = true; consumer = Consumer.idle })
  get_empty :
      t.consumer ≡ Consumer.taking
      → get t.ring ≡ none
      → Step t (record t { consumer = Consumer.ending })
  get_ended :
      t.consumer ≡ Consumer.ending → t.ended ≡ true → Step t (record t { consumer = Consumer.idle })
  get_wait :
      t.consumer ≡ Consumer.ending
      → t.ended ≡ false
      → Step t (record t { consumer = Consumer.sleeping })
  get_wake :
      t.consumer ≡ Consumer.sleeping
      → t.ev_get ≡ true
      → Step t (record t { ev_get = false; consumer = Consumer.taking })
  -- The wait of `GetWithTimeout` runs out, and it returns with nothing.
  get_timeout : t.consumer ≡ Consumer.sleeping → Step t (record t { consumer = Consumer.idle })

pub data Reach (s : Threads) : Threads → Type 0 where
  here : Reach s s
  next : {t u : Threads} → Reach s t → Step t u → Reach s u

-- Both threads outside, over a ring that the constructor made.
abbrev pub start : (ℕ → Buffer) → ℕ → ℕ → Threads
start memory size data_size = record {
  ring = new memory size data_size;
  ended = false;
  ev_put = false;
  ev_get = false;
  producer = Producer.free;
  consumer = Consumer.idle;
}

-- A thread that waits, or is about to, on an event that is not set has nothing to wait for but
-- the other thread.
pub record Safe (t : Threads) : Type 0 where
  pub valid : IsValid t.ring
  pub sleeper :
      t.consumer ≡ Consumer.sleeping → t.ev_get ≡ false → (t.ring.load ≡ 0) × (t.ended ≡ false)
  pub near_sleep : t.consumer ≡ Consumer.ending → t.ev_get ≡ false → t.ring.load ≡ 0
  pub waiter :
      t.producer ≡ Producer.waiting
      → t.ev_put ≡ false
      → (t.ring.load ≡ t.ring.queue_size - 1) × (t.ended ≡ false)
  pub near_wait : t.producer ≡ Producer.locking → t.ev_put ≡ false → t.ended ≡ false

start-Safe : (memory : ℕ → Buffer) (size data_size : ℕ) → Safe (start memory size data_size)
start-Safe memory size data_size = let v = new-IsValid memory size data_size in ground arith

-- Every step keeps that.
pub Step-Safe : {t u : Threads} → Safe t → Step t u → Safe u
Step-Safe s (put_call at) = ground arith
Step-Safe s (put_ended at h) = ground arith
Step-Safe s (put_go_on at h) = ground arith
Step-Safe {t} s (put_store d b len {q = q} at h) =
    let v = put-IsValid t.ring q d b len s.valid h in ground (arith, put-load t.ring d b len)
Step-Safe {t} s (put_full d b len at h) = ground (arith, put-load t.ring d b len)
Step-Safe s (put_wake at h) = ground arith
Step-Safe s put_end = ground arith
Step-Safe s (get_call at) = ground arith
Step-Safe {t} s (get_take {g = g} {q = q} at h) =
    let v = get-IsValid t.ring q g s.valid h in ground (arith, get-load t.ring)
Step-Safe {t} s (get_empty at h) = ground (arith, get-load t.ring)
Step-Safe s (get_ended at h) = ground arith
Step-Safe s (get_wait at h) = ground arith
Step-Safe s (get_wake at h) = ground arith
Step-Safe s (get_timeout at) = ground arith

Reach-Safe : {s t : Threads} → Safe s → Reach s t → Safe t
Reach-Safe safe here = safe
Reach-Safe safe (next r st) = Step-Safe (Reach-Safe safe r) st

Step-size : {t u : Threads} → Step t u → u.ring.queue_size ≡ t.ring.queue_size
Step-size {t} (put_store d b len at h) = ground (arith, put-load t.ring d b len)
Step-size {t} (get_take at h) = ground (arith, get-load t.ring)
Step-size _ = refl

Reach-size : {s t : Threads} → Reach s t → t.ring.queue_size ≡ s.ring.queue_size
Reach-size here = refl
Reach-size (next r st) = Step-size st ∙ Reach-size r

module _ (memory : ℕ → Buffer) (size data_size : ℕ) where
  -- Whatever the order of the steps from an empty ring, a consumer that sleeps while there is a
  -- frame, or after the stream has ended, is woken: the event that it waits on is set.
  pub consumer_woken :
      {t : Threads}
      → Reach (start memory size data_size) t
      → t.consumer ≡ Consumer.sleeping
      → (0 < t.ring.load) ⊎ (t.ended ≡ true)
      → t.ev_get ≡ true
  consumer_woken r at why =
      let safe = Reach-Safe (start-Safe memory size data_size) r in ground arith

  -- Whatever the order of the steps from an empty ring, a producer that waits while there is room,
  -- or after the stream has ended, is woken: the event that it waits on is set.
  pub producer_woken :
      {t : Threads}
      → Reach (start memory size data_size) t
      → t.producer ≡ Producer.waiting
      → (t.ring.load < t.ring.queue_size - 1) ⊎ (t.ended ≡ true)
      → t.ev_put ≡ true
  producer_woken r at why =
      let safe = Reach-Safe (start-Safe memory size data_size) r in ground arith

  -- With room for one frame the two threads never wait for one another.
  pub no_deadlock :
      {t : Threads}
      → 0 < size
      → Reach (start memory size data_size) t
      → t.producer ≡ Producer.waiting
      → t.consumer ≡ Consumer.sleeping
      → (t.ev_put ≡ true) ⊎ (t.ev_get ≡ true)
  unfolding new
  no_deadlock h r p c =
      let safe = Reach-Safe (start-Safe memory size data_size) r in ground (arith, Reach-size r)
