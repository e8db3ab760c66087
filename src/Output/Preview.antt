-- ===== src/Output/Preview.antt =====
-- DShow.cpp, `CMonitor::HandleFrame` and `CMonitor::MonitoringThread`: the preview as two threads
-- that share `m_sample` and `m_ev`, which resets itself when a wait ends. Setting or clearing
-- `m_sample` together with what stands beside it is one step. The sleeps of the thread are left
-- out.
use win_dv.Prelude.{
  ◌≡◌, refl, sym, ap, ◌∙◌, subst, ◌⊎◌, inl, inr, Bool, true, false, not, if◌then◌else◌, if-cases,
  arith,
}

-- Where the thread stands: before `GetDeliveryBuffer`, waiting on `m_ev`, before `Deliver`, or
-- past its end.
pub data Phase : Type 0 where
  getting waiting delivering over : Phase

-- `exposed` is whether `m_sample` is set, `filled` whether the buffer of the thread holds a frame,
-- `alive` whether `m_VW` is set.
pub record Monitor : Type 0 where
  pub exposed : Bool
  pub filled : Bool
  pub ev : Bool
  pub alive : Bool
  pub phase : Phase

-- `HandleFrame` on a frame, and whether the pointer of the exposed buffer can be had. If it can
-- not, the buffer is given up; else it is filled, and the thread is told.
unfoldable pub show_frame : Bool → Monitor → Monitor
show_frame got_pointer m =
    if not m.exposed
    then m
    else if not got_pointer
    then record m { exposed = false }
    else record m { exposed = false; filled = true; ev = true }

pub data Step (m : Monitor) : Monitor → Type 0 where
  -- The thread gets a buffer and exposes it, or fails to and tries again.
  got :
      m.phase ≡ Phase.getting
      → Step m (record m { exposed = true; filled = false; phase = Phase.waiting })
  failed : m.phase ≡ Phase.getting → Step m m
  shown : (got_pointer : Bool) → Step m (show_frame got_pointer m)
  -- The wait of the thread ends.
  closed :
      m.phase ≡ Phase.waiting
      → m.ev ≡ true
      → m.alive ≡ false
      → Step m (record m { ev = false; phase = Phase.over })
  woken :
      m.phase ≡ Phase.waiting
      → m.ev ≡ true
      → m.alive ≡ true
      → Step m (record m { ev = false; phase = Phase.delivering })
  delivered : m.phase ≡ Phase.delivering → Step m (record m { phase = Phase.getting })
  -- The destructor.
  destroyed : Step m (record m { alive = false; ev = true })

pub data Reach (s : Monitor) : Monitor → Type 0 where
  here : Reach s s
  next : {m n : Monitor} → Reach s m → Step m n → Reach s n

-- When the thread starts.
abbrev pub opened : Monitor
opened = record { exposed = false; filled = false; ev = false; alive = true; phase = Phase.getting }

-- While the monitor is alive, a buffer is exposed only while the thread waits for it to be filled,
-- and the event is set only for a buffer that is.
record Inv (m : Monitor) : Type 0 where
  exposed_waits : m.alive ≡ true → m.exposed ≡ true → m.phase ≡ Phase.waiting
  set_filled :
      m.alive ≡ true
      → m.ev ≡ true
      → (m.filled ≡ true) × (m.exposed ≡ false) × (m.phase ≡ Phase.waiting)
  delivering_filled : m.alive ≡ true → m.phase ≡ Phase.delivering → m.filled ≡ true

show_frame-Inv : (m : Monitor) (got_pointer : Bool) → Inv m → Inv (show_frame got_pointer m)
unfolding show_frame
show_frame-Inv m got_pointer inv =
    if-cases Inv (not m.exposed) _ _ (λ hidden. inv)
      (λ exposed.
        if-cases Inv (not got_pointer) _ _ (λ lost. ground (arith, exposed))
          (λ got_it. ground (arith, exposed)))

Step-Inv : {m n : Monitor} → Inv m → Step m n → Inv n
Step-Inv inv (got at) = ground arith
Step-Inv inv (failed at) = inv
Step-Inv {m} inv (shown got_pointer) = show_frame-Inv m got_pointer inv
Step-Inv inv (closed at h gone) = ground arith
Step-Inv inv (woken at h alive) = ground arith
Step-Inv inv (delivered at) = ground arith
Step-Inv inv destroyed = ground arith

Reach-Inv : {m : Monitor} → Reach opened m → Inv m
Reach-Inv here = ground arith
Reach-Inv (next r st) = Step-Inv (Reach-Inv r) st

-- Whatever the order of the steps, what the preview delivers before it is destroyed is a buffer
-- that a frame has filled since it was got.
pub delivers_filled :
    {m : Monitor} → Reach opened m → m.alive ≡ true → m.phase ≡ Phase.delivering → m.filled ≡ true
delivers_filled r alive at = let inv = Reach-Inv r in inv.delivering_filled alive at

-- What no step but the destructor's changes: the thread waits, its buffer is not exposed and the
-- event is not set.
record IsStuck (m : Monitor) : Type 0 where
  waits : m.phase ≡ Phase.waiting
  hidden : m.exposed ≡ false
  unset : m.ev ≡ false

IsStuck-Step : {m n : Monitor} → IsStuck m → Step m n → (n ≡ m) ⊎ (n.alive ≡ false)
unfolding show_frame
IsStuck-Step stuck (got at) = absurd (ground (arith, stuck.waits))
IsStuck-Step stuck (failed at) = inl refl
IsStuck-Step stuck (shown got_pointer) = inl (rw stuck.hidden refl)
IsStuck-Step stuck (closed at h gone) = absurd (ground (arith, stuck.unset))
IsStuck-Step stuck (woken at h alive) = absurd (ground (arith, stuck.unset))
IsStuck-Step stuck (delivered at) = absurd (ground (arith, stuck.waits))
IsStuck-Step stuck destroyed = inr refl

-- What is destroyed stays so.
alive_before : {m n : Monitor} → Step m n → n.alive ≡ true → m.alive ≡ true
unfolding show_frame
alive_before (got at) e = e
alive_before (failed at) e = e
alive_before {m} (shown got_pointer) e = ground (arith, e)
alive_before (closed at h gone) e = e
alive_before (woken at h alive) e = e
alive_before (delivered at) e = e
alive_before destroyed e = absurd (ground (arith, e))

stays_stuck : {s m : Monitor} → IsStuck s → Reach s m → m.alive ≡ true → m ≡ s
stays_stuck stuck here alive = refl
stays_stuck {s} stuck (next {m = m} {n = n} r st) alive =
    let same : m ≡ s = stays_stuck stuck r (alive_before st alive) in
    elim (IsStuck-Step (subst IsStuck (sym same) stuck) st) [
      | inl unchanged ↦ unchanged ∙ same
      | inr gone ↦ absurd (ground (arith, gone, alive))
    ]

-- Once `HandleFrame` gives up an exposed buffer because its pointer cannot be had, the monitor
-- stays as it is, whatever comes, until it is destroyed, and its thread waits: no frame is shown
-- any more.
pub refused_stuck :
    {m n : Monitor}
    → Reach opened m
    → m.alive ≡ true
    → m.exposed ≡ true
    → Reach (show_frame false m) n
    → n.alive ≡ true
    → (n ≡ show_frame false m) × (n.phase ≡ Phase.waiting)
unfolding show_frame
refused_stuck {m} {n} before alive exposed after still =
    let inv = Reach-Inv before in
    let waits = inv.exposed_waits alive exposed in
    let stuck : IsStuck (show_frame false m) = rw exposed (record {
      waits = waits;
      hidden = refl;
      unset = ground (arith, inv.set_filled alive, exposed);
    }) in
    let same = stays_stuck stuck after still in
    (same, ap (λ (k : Monitor). k.phase) same ∙ stuck.waits)
