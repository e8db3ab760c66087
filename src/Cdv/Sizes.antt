-- ===== src/Cdv/Sizes.antt =====
-- DShow.cpp, `CDV::CapturingThread`: the sizes of the files of a whole session.
use win_dv.Prelude.{
  ◌≡◌, sym, ℕ, ◌<◌, ◌≤◌, u32_mod, arith, Bool, true, false, List, ◌++◌, none, subst, ensured,
}
use win_dv.Prelude.Int.{ℤ}
use win_dv.Dv.{Tm}
use win_dv.Cdv.{Settings, Cdv, start_capturing, stop_capturing}
use win_dv.Cdv.Capture.{Effect, Local, on_nothing, enter, leave}
use win_dv.Cdv.Rounds.{
  Run, begin, frame, nothing, started, stopped, configured, Session, destroyed, lost,
}
use win_dv.Cdv.Limits.{
  AllClosedWell, AllClosedWell-append, close_writer-AllClosedWell, OpenInv, ThreadInv, RoundInv,
  on_frame-RoundInv, on_nothing-RoundInv,
}

start_capturing-keeps :
    (most : ℕ) (name dtformat : List ℕ) (ndigits : ℕ) (limit : ℤ) (c : Cdv) (l : Local)
    → ThreadInv most (c, l)
    → ThreadInv most ((start_capturing name dtformat ndigits limit c).0, l)
unfolding start_capturing
start_capturing-keeps most name dtformat ndigits limit c l inv = ground (arith, inv)

stop_capturing-keeps :
    (most : ℕ) (c : Cdv) (l : Local)
    → ThreadInv most (c, l)
    → ThreadInv most ((stop_capturing c).0, l)
unfolding stop_capturing
stop_capturing-keeps most c l inv = ground (arith, inv)

on_nothing-keeps :
    (most : ℕ) (ended : Bool) (c : Cdv) (l : Local) (u : Cdv × Local) (fs : List Effect)
    (left : Bool)
    → ThreadInv most (c, l)
    → on_nothing ended (c, l) ≡ (u, fs, left)
    → RoundInv most (u, fs)
on_nothing-keeps most ended c l u fs left inv e =
    subst (λ (r : (Cdv × Local) × List Effect × Bool). RoundInv most (r.0, r.1)) e
      (on_nothing-RoundInv most ended c l inv)

-- Settings whose limit of frames is at most `most`.
abbrev pub IsWithin : ℕ → Settings → Type 0
IsWithin most s = s.max_avi_frames ≤ most

module _ (most : ℕ) (one : 0 < most) (small : most < u32_mod) where
  enter-ThreadInv :
      (d : ℤ) (c : Cdv) → IsWithin most c.settings → c.writer ≡ none → ThreadInv most (enter d c)
  unfolding enter
  enter-ThreadInv d c limit e =
      (limit, subst (λ o. OpenInv most o (enter d c).1) (sym e) (record {}))

  Run-Inv :
      (mktime : Tm → ℤ) (t : Cdv × Local) (es : List Effect) (u : Cdv × Local)
      → ThreadInv most t
      → Run (IsWithin most) mktime t es u
      → RoundInv most (u, es)
  unfolding AllClosedWell
  Run-Inv mktime t _ _ inv begin = (inv, record {})
  Run-Inv mktime t _ _ inv (frame {es = es} {fs = fs} {t = (c, l)} {u = u} a r e) =
      let (before, ps) = Run-Inv mktime t es (c, l) inv r in
      let (after, qs) =
        ensured (RoundInv most) (on_frame-RoundInv most one small mktime a c l before) e in
      (after, AllClosedWell-append most es fs ps qs)
  Run-Inv mktime t _ _ inv (nothing {es = es} {fs = fs} {t = (c, l)} {u = u} ended r e) =
      let (before, ps) = Run-Inv mktime t es (c, l) inv r in
      let (after, qs) = on_nothing-keeps most ended c l u fs false before e in
      (after, AllClosedWell-append most es fs ps qs)
  Run-Inv mktime t _ _ inv (started {es = es} {c = c} {l = l} name dtformat ndigits limit r) =
      let (before, ps) = Run-Inv mktime t es (c, l) inv r in
      (start_capturing-keeps most name dtformat ndigits limit c l before, ps)
  Run-Inv mktime t _ _ inv (stopped {es = es} {c = c} {l = l} r) =
      let (before, ps) = Run-Inv mktime t es (c, l) inv r in
      (stop_capturing-keeps most c l before, ps)
  Run-Inv mktime t _ _ inv (configured {es = es} {c = c} {l = l} settings limit r) =
      let ((old, inner), ps) = Run-Inv mktime t es (c, l) inv r in ((limit, inner), ps)

-- While no limit of frames that is set before or during a session of the capture thread is above
-- `most`, which is at least one and fits 32 bits, every file that the session closes, be it at a
-- split, at a pause, at a timeout or at the end, holds at least one frame and at most `most`.
pub Session-AllClosedWell :
    (most : ℕ) (mktime : Tm → ℤ) (d : ℤ) (c : Cdv) (es : List Effect) (c' : Cdv)
    → 0 < most
    → most < u32_mod
    → IsWithin most c.settings
    → c.writer ≡ none
    → Session (IsWithin most) mktime (enter d c) es c'
    → AllClosedWell most es
unfolding leave
Session-AllClosedWell most mktime d c _ _ one small limit closed_before
      (destroyed {es = es} {c = c1} {l = l} r) =
    let inv = enter-ThreadInv most one small d c limit closed_before in
    let ((kept, inner), ps) = Run-Inv most one small mktime _ es (c1, l) inv r in
    AllClosedWell-append most es _ ps (close_writer-AllClosedWell most c1.writer l inner)
Session-AllClosedWell most mktime d c _ _ one small limit closed_before
      (lost {es = es} {fs = fs} {t = (c1, l1)} {u = (c2, l2)} ended r e) =
    let inv = enter-ThreadInv most one small d c limit closed_before in
    let (before, ps) = Run-Inv most one small mktime _ es (c1, l1) inv r in
    let ((kept, inner), qs) = on_nothing-keeps most ended c1 l1 (c2, l2) fs true before e in
    AllClosedWell-append most (es ++ fs) _ (AllClosedWell-append most es fs ps qs)
      (close_writer-AllClosedWell most c2.writer l2 inner)
