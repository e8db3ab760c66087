-- ===== src/Queue/Invariant.antt =====
-- DShow.cpp, `CDVQueue`: the geometry of the ring, and the slot that was handed out last.
use win_dv.Prelude.{
  ℕ, ◌+◌, ◌-◌, ◌%◌, ◌≤◌, ◌<◌, ◌≡◌, ◌∙◌, refl, some, none, Bool-cases, ◌⊎◌, inl, inr, arith, ltb,
  if◌then◌else◌, dec_lt,
}
use native.Mathlib.Nat.{mod-eq_of_lt, mod-eq-sub-mod}
use win_dv.Prelude.Int.{ℤ}
use win_dv.Dv.{Bytes}
use win_dv.Queue.{Buffer, DvQueue, Got, new, stored, put, oldest, taken, get}

-- The tail is `load` slots past the head, round the ring.
pub record IsValid (q : DvQueue) : Type 0 where
  pub head_in : q.head < q.queue_size
  pub tail_in : q.tail < q.queue_size
  pub load_in : q.load < q.queue_size
  pub tail_past : (q.tail ≡ q.head + q.load) ⊎ (q.tail + q.queue_size ≡ q.head + q.load)

-- One step round a ring of `n` slots.
pub mod-round : (n i : ℕ) → i < n → (i + 1) % n ≡ (if ltb (i + 1) n then i + 1 else 0)
mod-round n i h = elim (dec_lt (i + 1) n) [
  | yes lo ↦ ground (arith, mod-eq_of_lt lo)
  | no hi ↦
      let full : i + 1 ≡ n = omega arith in
      ground (
        arith,
        full,
        mod-eq-sub-mod {n = n} {m = n} (omega arith),
        mod-eq_of_lt {n = 0} {m = n} (omega arith),
      )
]

-- The constructor makes a valid, empty ring.
pub new-IsValid : (memory : ℕ → Buffer) (size data_size : ℕ) → IsValid (new memory size data_size)
unfolding new
new-IsValid memory size data_size = ground arith

-- The geometry of the ring, and not its memory.
pub put-IsValid :
    (q q' : DvQueue) (d : ℤ) (s : Bytes) (len : ℕ)
    → IsValid q
    → put q d s len ≡ some q'
    → IsValid q'
unfolding put
put-IsValid q q' d s len v e = ground (arith, mod-round q.queue_size q.tail)

pub get-IsValid : (q q' : DvQueue) (g : Got) → IsValid q → get q ≡ some (g, q') → IsValid q'
unfolding get
get-IsValid q q' g v e = ground (arith, mod-round q.queue_size q.head)

-- What the locked parts do to the load.
pub put-load :
    (q : DvQueue) (d : ℤ) (s : Bytes) (len : ℕ)
    → ((put q d s len ≡ none) × (q.queue_size - 1 ≤ q.load))
      ⊎ ((q' : DvQueue) × (put q d s len ≡ some q')
          × (q.load < q.queue_size - 1)
          × (q'.load ≡ q.load + 1)
          × (q'.queue_size ≡ q.queue_size))
unfolding put
put-load q d s len = elim (Bool-cases (ltb q.load (q.queue_size - 1))) [
  | inl room ↦ inr (stored q d s len, rw room, ground arith, refl, refl)
  | inr full ↦ inl (ground arith, ground arith)
]

pub get-load :
    (q : DvQueue)
    → ((get q ≡ none) × (q.load ≡ 0))
      ⊎ ((g : Got) × (q' : DvQueue) × (get q ≡ some (g, q'))
          × (0 < q.load)
          × (q'.load ≡ q.load - 1)
          × (q'.queue_size ≡ q.queue_size))
unfolding get
get-load q = elim (Bool-cases (ltb 0 q.load)) [
  | inl some_left ↦ inr (oldest q, taken q, rw some_left, ground arith, refl, refl)
  | inr empty ↦ inl (ground arith, ground arith)
]

-- Any number of frames put in without a `Get` between.
pub data Puts (q : DvQueue) : DvQueue → Type 0 where
  same : Puts q q
  another :
      {q' q'' : DvQueue} (d : ℤ) (s : Bytes) (len : ℕ)
      → Puts q q'
      → put q' d s len ≡ some q''
      → Puts q q''

-- The slot just before the head.
abbrev Before : DvQueue → ℕ → Type 0
Before q i = (i + 1 ≡ q.head) ⊎ ((i + 1 ≡ q.queue_size) × (q.head ≡ 0))

put-Before :
    (q q' : DvQueue) (d : ℤ) (s : Bytes) (len i : ℕ)
    → IsValid q
    → put q d s len ≡ some q'
    → Before q i
    → Before q' i × (q'.slots i ≡ q.slots i)
unfolding put
put-Before q q' d s len i v e b = ground arith

Puts-Before :
    {q q' : DvQueue} (i : ℕ)
    → IsValid q
    → Before q i
    → Puts q q'
    → IsValid q' × Before q' i × (q'.slots i ≡ q.slots i)
Puts-Before i v b same = (v, b, refl)
Puts-Before i v b (another {q'} {q''} d s len ps e) =
    let (v', b', eq) = Puts-Before i v b ps in
    let (b'', eq') = put-Before q' q'' d s len i v' e b' in
    (put-IsValid q' q'' d s len v' e, b'', eq' ∙ eq)

get-Before :
    (q q' : DvQueue) (g : Got)
    → IsValid q
    → get q ≡ some (g, q')
    → Before q' g.slot × (q'.slots g.slot ≡ q.slots g.slot)
unfolding get
get-Before q q' g v e = ground (arith, mod-round q.queue_size q.head)

-- The slot that `Get` points to in a valid ring is the same however many frames the producer puts in before the
-- consumer calls `Get` again.
pub get-slot_kept :
    (q q' q'' : DvQueue) (g : Got)
    → IsValid q
    → get q ≡ some (g, q')
    → Puts q' q''
    → q''.slots g.slot ≡ q.slots g.slot
get-slot_kept q q' q'' g v e ps =
    let (behind, kept) = get-Before q q' g v e in
    let (v', b', eq) = Puts-Before g.slot (get-IsValid q q' g v e) behind ps in eq ∙ kept
