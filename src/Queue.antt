-- ===== src/Queue.antt =====
-- DShow.cpp, `CDVQueue`: the ring of frames between the streaming thread and the worker. The parts
-- of `Put` and `Get` that hold the lock are one step each; the threads that wait between such steps
-- are in Queue/Threads.antt. The ring's numbers are `int`s; below 2^31 slots none of their sums
-- wraps, since each stays at most the number of slots (Queue/Invariant.antt).
pub mod Invariant
pub mod Refine
pub mod Spec
pub mod Threads
use win_dv.Prelude.{
  ℕ, ◌+◌, ◌-◌, ◌%◌, ◌<◌, Bool, true, false, ltb, ◌==◌, if◌then◌else◌, Option, none, some,
}
use win_dv.Prelude.Int.{ℤ}
use win_dv.Dv.{Bytes}

-- `Buffer`: one slot of the ring.
pub record Buffer : Type 0 where
  pub duration : ℤ
  pub len : ℕ
  pub bytes : Bytes

-- `m_queue[i]` is `slots i`.
pub record DvQueue : Type 0 where
  pub slots : ℕ → Buffer
  pub data_size : ℕ
  pub queue_size : ℕ
  pub head : ℕ
  pub tail : ℕ
  pub load : ℕ

abbrev pub update {ℓ} : {A : Type ℓ} → (ℕ → A) → ℕ → A → ℕ → A
update f i v j = if i == j then v else f j

-- `CopyMemory(dst, src, n)`.
abbrev pub copy_memory : Bytes → Bytes → ℕ → Bytes
copy_memory dst src n i = if ltb i n then src i else dst i

-- The constructor, on memory that holds anything.
unfoldable pub new : (ℕ → Buffer) → ℕ → ℕ → DvQueue
new memory size data_size = record {
  slots = memory;
  data_size = data_size;
  queue_size = size + 1;
  head = 0;
  tail = 0;
  load = 0;
}

-- The slot that `Put` writes, with `len` clamped to the size of a slot.
abbrev pub filled : DvQueue → ℤ → Bytes → ℕ → Buffer
filled q duration src len =
    let len' = if ltb q.data_size len then q.data_size else len in
    record { duration = duration; len = len'; bytes = copy_memory (q.slots q.tail).bytes src len' }

-- The ring after a frame is stored at the tail.
abbrev pub stored : DvQueue → ℤ → Bytes → ℕ → DvQueue
stored q duration src len = record q {
  slots = update q.slots q.tail (filled q duration src len);
  tail = (q.tail + 1) % q.queue_size;
  load = q.load + 1;
}

-- The locked part of `Put`; `none` if the ring is full.
unfoldable pub put : DvQueue → ℤ → Bytes → ℕ → Option DvQueue
put q duration src len =
    if ltb q.load (q.queue_size - 1) then some (stored q duration src len) else none

-- What `Get` hands out: `*data` points into the slot.
pub record Got : Type 0 where
  pub got_duration : ℤ
  pub got_len : ℕ
  pub slot : ℕ

abbrev pub oldest : DvQueue → Got
oldest q = record {
  got_duration = (q.slots q.head).duration;
  got_len = (q.slots q.head).len;
  slot = q.head;
}

-- The ring after the slot at the head is given up.
abbrev pub taken : DvQueue → DvQueue
taken q = record q { head = (q.head + 1) % q.queue_size; load = q.load - 1 }

-- The locked part of `Get` and `GetWithTimeout`; `none` if the ring is empty.
unfoldable pub get : DvQueue → Option (Got × DvQueue)
get q = if ltb 0 q.load then some (oldest q, taken q) else none
