-- ===== src/Cdv/Sending.antt =====
-- DShow.cpp, `CDV::RecordingThread`: the frames sent to the camcorder over a whole playback.
use win_dv.Prelude.{
  ℕ, ◌≡◌, refl, sym, ◌∙◌, subst, ◌⊎◌, inl, inr, Bool, List, [], ◌∷◌, ◌++◌, Option, none, some,
  arith, append-nil, if-cases, if◌then◌else◌,
}
use win_dv.Prelude.Int.{ℤ}
use win_dv.Dv.{Tm}
use win_dv.Cdv.{Cdv, start_recording, stop_recording}
use win_dv.Cdv.Playback.{
  Clip, PlayEffect, told, shown, sent, Playback, enter_playback, is_recording, play_clip,
  play_round,
}

-- The frames sent among some effects.
unfoldable pub sent_clips : List PlayEffect → List Clip
sent_clips [] = []
sent_clips (told t ∷ es) = sent_clips es
sent_clips (shown c ∷ es) = sent_clips es
sent_clips (sent c ∷ es) = c ∷ sent_clips es

-- The frame that a round takes from the queue, if it calls `Get`.
abbrev pub taken_clip : Bool → Option Clip → List Clip
taken_clip called none = []
taken_clip called (some clip) = if called then clip ∷ [] else []

-- A playback: the frames sent, the frames taken after the first, and the thread's state. The
-- dialog's `StartRecording` and `StopRecording` come between the rounds.
pub data Play (mktime : Tm → ℤ) (first : Clip) (c0 : Cdv)
    : List Clip → List Clip → Cdv × Playback → Type 0 where
  begin : Play mktime first c0 [] [] (enter_playback first c0)
  round :
      {xs ys : List Clip} {s t : Cdv × Playback} {es : List PlayEffect} {called : Bool}
      (ended : Bool) (load : ℕ) (next : Option Clip)
      → Play mktime first c0 xs ys s
      → play_round mktime ended load next s ≡ (t, es, called)
      → Play mktime first c0 (xs ++ sent_clips es) (ys ++ taken_clip called next) t
  started :
      {xs ys : List Clip} {c : Cdv} {p : Playback}
      → Play mktime first c0 xs ys (c, p)
      → Play mktime first c0 xs ys ((start_recording c).0, p)
  stopped :
      {xs ys : List Clip} {c : Cdv} {p : Playback}
      → Play mktime first c0 xs ys (c, p)
      → Play mktime first c0 xs ys ((stop_recording c).0, p)

-- The first list has the frames of the second, in their order, each once or more.
pub data Repeats : List Clip → List Clip → Type 0 where
  empty : Repeats [] []
  another :
      (xs ys : List Clip) (c : Clip) → Repeats xs ys → Repeats (xs ++ (c ∷ [])) (ys ++ (c ∷ []))
  again :
      (xs ys : List Clip) (c : Clip)
      → Repeats xs (ys ++ (c ∷ []))
      → Repeats (xs ++ (c ∷ [])) (ys ++ (c ∷ []))

-- The frames got so far end with the thread's own; the frames sent repeat those, or all but it.
pub record Sent (xs got : List Clip) (clip : Clip) : Type 0 where
  pub before : List Clip
  pub ends : got ≡ before ++ (clip ∷ [])
  pub repeats : Repeats xs before ⊎ Repeats xs (before ++ (clip ∷ []))

sent_clips-play_clip :
    (mktime : Tm → ℤ) (ended : Bool) (load : ℕ) (c : Cdv) (p : Playback)
    → sent_clips (play_clip mktime ended load c p).1 ≡ p.clip ∷ []
unfolding play_clip sent_clips
sent_clips-play_clip mktime ended load c p = ground arith

Sent-send : (xs got : List Clip) (clip : Clip) → Sent xs got clip → Repeats (xs ++ (clip ∷ [])) got
Sent-send xs got clip s =
    subst (Repeats (xs ++ (clip ∷ []))) (sym s.ends)
      (elim s.repeats [ inl r ↦ another xs s.before clip r | inr r ↦ again xs s.before clip r ])

module _ (xs got : List Clip) (clip : Clip) (s : Sent xs got clip) where
  Sent-same : Sent (xs ++ (clip ∷ [])) (got ++ []) clip
  Sent-same = record {
    before = s.before;
    ends = append-nil got ∙ s.ends;
    repeats = inr (subst (Repeats (xs ++ (clip ∷ []))) s.ends (Sent-send xs got clip s));
  }

  Sent-next : (new : Clip) → Sent (xs ++ (clip ∷ [])) (got ++ (new ∷ [])) new
  Sent-next new = record { before = got; ends = refl; repeats = inl (Sent-send xs got clip s) }

abbrev RoundSent :
    List Clip → List Clip → Option Clip → (Cdv × Playback) × List PlayEffect × Bool → Type 0
RoundSent xs got next ((c, p), es, called) =
    Sent (xs ++ sent_clips es) (got ++ taken_clip called next) p.clip

-- One round on: it sends the frame that the thread has, and has the frame that it takes, if any.
play_round-Sent :
    (mktime : Tm → ℤ) (ended : Bool) (load : ℕ) (next : Option Clip) (c : Cdv) (p : Playback)
    (xs got : List Clip)
    → Sent xs got p.clip
    → RoundSent xs got next (play_round mktime ended load next (c, p))
unfolding play_round
play_round-Sent mktime ended load none c p xs got s =
    let same =
      subst (λ cs. Sent (xs ++ cs) (got ++ []) p.clip)
        (sym (sent_clips-play_clip mktime ended load c p)) (Sent-same xs got p.clip s) in
    if-cases (RoundSent xs got none) (is_recording c.state) _ _ (λ e. same) (λ e. same)
play_round-Sent mktime ended load (some clip) c p xs got s =
    let sends = sym (sent_clips-play_clip mktime ended load c p) in
    if-cases (RoundSent xs got (some clip)) (is_recording c.state) _ _
      (λ e.
        subst (λ cs. Sent (xs ++ cs) (got ++ (clip ∷ [])) clip) sends
          (Sent-next xs got p.clip s clip))
      (λ e. subst (λ cs. Sent (xs ++ cs) (got ++ []) p.clip) sends (Sent-same xs got p.clip s))

-- Over any playback the frames sent to the camcorder are the frames got from the queue, in their
-- order, each once or more, except that the last one got may not have been sent yet: none is left
-- out and none comes out of order, however recording is started and stopped between the rounds.
pub Play-Sent :
    (mktime : Tm → ℤ) (first : Clip) (c0 : Cdv) (xs ys : List Clip) (s : Cdv × Playback)
    → Play mktime first c0 xs ys s
    → Sent xs (first ∷ ys) (s.1).clip
unfolding enter_playback
Play-Sent mktime first c0 _ _ _ begin = record { before = []; ends = refl; repeats = inl empty }
Play-Sent mktime first c0 _ _ _
      (round {xs = xs} {ys = ys} {s = (c, p)} {t = t} {es = es} {called = called} ended load next r
        e) =
    subst (RoundSent xs (first ∷ ys) next) e (
      play_round-Sent mktime ended load next c p xs (first ∷ ys)
        (Play-Sent mktime first c0 xs ys (c, p) r))
Play-Sent mktime first c0 _ _ _ (started {xs = xs} {ys = ys} {c = c} {p = p} r) =
    Play-Sent mktime first c0 xs ys (c, p) r
Play-Sent mktime first c0 _ _ _ (stopped {xs = xs} {ys = ys} {c = c} {p = p} r) =
    Play-Sent mktime first c0 xs ys (c, p) r
