-- ===== src/Cdv/Playback.antt =====
-- DShow.cpp, `CDV::RecordingThread`: the loop that sends the frames of the AVI files to the
-- camcorder, one round for each answer of the queue.
use win_dv.Prelude.{
  ℕ, ◌/◌, ltb, Bool, true, false, ◌||◌, ◌&&◌, if◌then◌else◌, List, [], ◌∷◌, ◌++◌, Option, none,
  some,
}
use win_dv.Prelude.Int.{ℤ, pos, ◌+ℤ◌, eqb_ℤ}
use win_dv.Dv.{Bytes, Tm, get_dv_recording_time}
use win_dv.Cdv.{State, Cdv}
use win_dv.Cdv.Capture.{queue_slots}

-- A frame as `CDVQueue::Get` hands it out.
pub record Clip : Type 0 where
  pub duration : ℤ
  pub bytes : Bytes
  pub len : ℕ

-- What the thread does that others see: messages to the dialog, the preview, and the frames that
-- go to the camcorder.
pub data PlayEffect : Type 0 where
  told : ℤ → PlayEffect
  shown : Clip → PlayEffect
  sent : Clip → PlayEffect

-- The thread's own variables: `duration`, `buffer` and `len`, and `dvTime`.
pub record Playback : Type 0 where
  pub clip : Clip
  pub dv_time : ℤ

-- The first `Get`, before the loop.
unfoldable pub enter_playback : Clip → Cdv → Cdv × Playback
enter_playback first c =
    (record c { counter = pos 0; time = pos 0 }, record { clip = first; dv_time = pos 0 })

abbrev pub is_recording : State → Bool
is_recording s = elim s [ State.recording ↦ true | _ ↦ false ]

-- What a round tells the dialog, shows and sends. `ended` and `load` are the queue's.
unfoldable pub play_clip : (Tm → ℤ) → Bool → ℕ → Cdv → Playback → ℤ × List PlayEffect
play_clip mktime ended load c p =
    let new = get_dv_recording_time mktime p.clip.bytes p.clip.len in
    (
      new,
      (if eqb_ℤ p.dv_time new then [] else told new ∷ [])
          ++ (if c.settings.record_preview && (ended || ltb (queue_slots / 2) load)
              then shown p.clip ∷ []
              else [])
          ++ (sent p.clip ∷ []),
    )

-- One round of `while (m_state)`. `next` is the answer of the `Get` at its end, `none` for false;
-- the last part is whether that `Get` is called.
unfoldable pub play_round :
    (Tm → ℤ) → Bool → ℕ → Option Clip → Cdv × Playback → (Cdv × Playback) × List PlayEffect × Bool
play_round mktime ended load next (c, p) =
    let (new, es) = play_clip mktime ended load c p in
    let p' = record p { dv_time = new } in
    if is_recording c.state
    then (let c' = record c { counter = c.counter +ℤ pos 1; time = c.time +ℤ p.clip.duration } in
        elim next [
          | some clip ↦ ((c', record p' { clip = clip }), es, true)
          | none ↦ ((record c' { state = State.finished }, p'), es, true)
        ])
    else ((c, p'), es, false)
