-- ===== src/Cdv/Rounds.antt =====
-- DShow.cpp, `CDV::CapturingThread`: a whole session of the capture thread, round after round with
-- the dialog's `StartCapturing` and `StopCapturing` between them.
use win_dv.Prelude.{
  ℕ, ◌≡◌, refl, Bool, true, false, not, ◌&&◌, List, [], ◌++◌, Option, none, some, arith, Ensures,
  ensured, Ensures-map_some, Ensures-mono, if-cases, subst,
}
use win_dv.Prelude.Int.{ℤ}
use win_dv.Dv.{Tm}
use win_dv.Cdv.{Writer, Settings, Cdv, start_capturing, stop_capturing}
use win_dv.Cdv.Capture.{
  Effect, Local, Arrival, capture_frame, skip_frame, observe, following, on_frame, on_nothing,
  enter, leave, close_writer, is_capturing,
}
use win_dv.Cdv.Session.{
  total, one_wrote, one_opened, one_closed, frames_closed, Balanced, Balanced-append, RoundBalanced,
  note_time-Balanced, capture_frame-Balanced, skip_frame-Balanced, close_writer-Balanced,
}

-- The rounds so far, from the state that the thread started in, and their effects. The queue's
-- answers, the driver and the dialog are free; between two rounds the dialog may start and stop the
-- capture, and `OnConfig` may put other settings, of those that `P` admits.
pub data Run (P : Settings → Type 0) (mktime : Tm → ℤ) (s : Cdv × Local)
    : List Effect → Cdv × Local → Type 0 where
  begin : Run P mktime s [] s
  frame :
      {es fs : List Effect} {t u : Cdv × Local} (a : Arrival)
      → Run P mktime s es t
      → on_frame mktime a t ≡ some (u, fs)
      → Run P mktime s (es ++ fs) u
  nothing :
      {es fs : List Effect} {t u : Cdv × Local} (ended : Bool)
      → Run P mktime s es t
      → on_nothing ended t ≡ (u, fs, false)
      → Run P mktime s (es ++ fs) u
  started :
      {es : List Effect} {c : Cdv} {l : Local} (name dtformat : List ℕ) (ndigits : ℕ) (limit : ℤ)
      → Run P mktime s es (c, l)
      → Run P mktime s es ((start_capturing name dtformat ndigits limit c).0, l)
  stopped :
      {es : List Effect} {c : Cdv} {l : Local}
      → Run P mktime s es (c, l)
      → Run P mktime s es ((stop_capturing c).0, l)
  configured :
      {es : List Effect} {c : Cdv} {l : Local} (settings : Settings)
      → P settings
      → Run P mktime s es (c, l)
      → Run P mktime s es (record c { settings = settings }, l)

-- A session: the loop is left because `Destroy` has set `Idle`, or because the signal is lost.
pub data Session (P : Settings → Type 0) (mktime : Tm → ℤ) (s : Cdv × Local)
    : List Effect → Cdv → Type 0 where
  destroyed :
      {es : List Effect} {c : Cdv} {l : Local}
      → Run P mktime s es (c, l)
      → Session P mktime s (es ++ (leave c).1) (leave c).0
  lost :
      {es fs : List Effect} {t u : Cdv × Local} (ended : Bool)
      → Run P mktime s es t
      → on_nothing ended t ≡ (u, fs, true)
      → Session P mktime s ((es ++ fs) ++ (leave u.0).1) (leave u.0).0

-- A round has what both its branches have after the common part.
pub on_frame_cases {ℓ} :
    (P : (Cdv × Local) × List Effect → Type ℓ) (mktime : Tm → ℤ) (a : Arrival) (c : Cdv) (l : Local)
    → let (s, delta, es) = observe mktime a (c, l) in
      (is_capturing c.state ≡ true → Ensures (λ r. P (following es r)) (capture_frame a delta s))
      → (is_capturing c.state ≡ false → P (following es (skip_frame a s)))
      → Ensures P (on_frame mktime a (c, l))
unfolding on_frame
on_frame_cases P mktime a c l wrote skipped =
    if-cases (Ensures P) (is_capturing c.state) _ _ (λ e. Ensures-map_some P _ _ (wrote e)) skipped

observe-Balanced :
    (mktime : Tm → ℤ) (a : Arrival) (c : Cdv) (l : Local)
    → Balanced c.writer (observe mktime a (c, l)).2 c.writer
unfolding observe total
observe-Balanced mktime a c l =
    Balanced-append c.writer c.writer c.writer _ _ (note_time-Balanced c.writer _ l)
      (ground (arith))

on_frame-Balanced :
    (mktime : Tm → ℤ) (a : Arrival) (c : Cdv) (l : Local)
    → Ensures (RoundBalanced c.writer) (on_frame mktime a (c, l))
unfolding observe
on_frame-Balanced mktime a c l =
    on_frame_cases (RoundBalanced c.writer) mktime a c l
      (λ e.
        Ensures-mono (RoundBalanced c.writer) _ _
          (λ r p. Balanced-append _ _ _ _ _ (observe-Balanced mktime a c l) p)
          (capture_frame-Balanced a _ _ _))
      (λ e. Balanced-append _ _ _ _ _ (observe-Balanced mktime a c l) (skip_frame-Balanced a _ _))

on_nothing-Balanced :
    (ended : Bool) (c : Cdv) (l : Local) (u : Cdv × Local) (fs : List Effect) (left : Bool)
    → on_nothing ended (c, l) ≡ (u, fs, left)
    → Balanced c.writer fs (u.0).writer
unfolding on_nothing total
on_nothing-Balanced ended c l u fs left e =
    subst (λ (u, fs, left). Balanced c.writer fs (u.0).writer) e
      (if-cases (λ (v, gs, gone). Balanced c.writer gs (v.0).writer)
        (not ended && is_capturing c.state) _ _ (λ h. ground arith) (λ h. ground arith))

start_writer :
    (name dtformat : List ℕ) (ndigits : ℕ) (limit : ℤ) (c : Cdv)
    → c.writer ≡ (start_capturing name dtformat ndigits limit c).0.writer
unfolding start_capturing
start_writer name dtformat ndigits limit c = ground arith

stop_writer : (c : Cdv) → c.writer ≡ (stop_capturing c).0.writer
unfolding stop_capturing
stop_writer c = ground arith

Run-Balanced :
    (P : Settings → Type 0) (mktime : Tm → ℤ) (s : Cdv × Local) (es : List Effect) (t : Cdv × Local)
    → Run P mktime s es t
    → Balanced (s.0).writer es (t.0).writer
unfolding total
Run-Balanced P mktime s _ _ begin = ground arith
Run-Balanced P mktime s _ _ (frame {es = es} {fs = fs} {t = (c, l)} {u = u} a r e) =
    Balanced-append _ _ _ es fs (Run-Balanced P mktime s es (c, l) r)
      (ensured (RoundBalanced c.writer) (on_frame-Balanced mktime a c l) e)
Run-Balanced P mktime s _ _ (nothing {es = es} {fs = fs} {t = (c, l)} {u = u} ended r e) =
    Balanced-append _ _ _ es fs (Run-Balanced P mktime s es (c, l) r)
      (on_nothing-Balanced ended c l u fs false e)
Run-Balanced P mktime s _ _ (started {es = es} {c = c} {l = l} name dtformat ndigits limit r) =
    subst (λ w. Balanced (s.0).writer es w) (start_writer name dtformat ndigits limit c)
      (Run-Balanced P mktime s es (c, l) r)
Run-Balanced P mktime s _ _ (stopped {es = es} {c = c} {l = l} r) =
    subst (λ w. Balanced (s.0).writer es w) (stop_writer c) (Run-Balanced P mktime s es (c, l) r)
Run-Balanced P mktime s _ _ (configured {es = es} {c = c} {l = l} settings ok r) =
    Run-Balanced P mktime s es (c, l) r

-- What `leave` adds to a run that is balanced.
leave-closes :
    (c : Cdv) (es : List Effect)
    → Balanced none es c.writer
    → let all = es ++ (leave c).1 in
      (total one_opened all ≡ total one_closed all)
      × (total one_wrote all ≡ total frames_closed all)
      × ((leave c).0.writer ≡ none)
unfolding leave
leave-closes c es p = (omega (arith, q.files), omega (arith, q.frames), refl)
  where
    q : Balanced none (es ++ close_writer c.writer) none
    q = Balanced-append none c.writer none es _ p (close_writer-Balanced c.writer)

from_enter :
    (d : ℤ) (c : Cdv) (es : List Effect) (after : Option Writer)
    → c.writer ≡ none
    → Balanced ((enter d c).0).writer es after
    → Balanced none es after
unfolding enter
from_enter d c es after e p = subst (λ o. Balanced o es after) e p

-- A session of the capture thread that begins with no file open, however its frames, timeouts,
-- starts, stops and new settings follow one another, closes every file that it opens, and the
-- frames in the files closed are together exactly the frames handed to a writer.
pub Session-conserves :
    (P : Settings → Type 0) (mktime : Tm → ℤ) (d : ℤ) (c : Cdv) (es : List Effect) (c' : Cdv)
    → c.writer ≡ none
    → Session P mktime (enter d c) es c'
    → (total one_opened es ≡ total one_closed es)
      × (total one_wrote es ≡ total frames_closed es)
      × (c'.writer ≡ none)
Session-conserves P mktime d c _ _ closed_before (destroyed {es = es} {c = c1} {l = l} r) =
    leave-closes c1 es (from_enter d c es _ closed_before (Run-Balanced P mktime _ es _ r))
Session-conserves P mktime d c _ _ closed_before
      (lost {es = es} {fs = fs} {t = (c1, l1)} {u = u} ended r e) =
    leave-closes u.0 (es ++ fs) (
      from_enter d c _ _ closed_before (
        Balanced-append _ _ _ es fs (Run-Balanced P mktime _ es (c1, l1) r)
          (on_nothing-Balanced ended c1 l1 u fs true e)))
