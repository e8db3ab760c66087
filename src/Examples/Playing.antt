-- ===== src/Examples/Playing.antt =====
-- A playback of which one round is paused and one records.
use win_dv.Prelude.{ℕ, ◌≡◌, refl, true, false, [], ◌∷◌, some}
use win_dv.Prelude.Int.{pos, negsuc, ◌+ℤ◌}
use win_dv.Dv.{get_dv_recording_time}
use win_dv.Cdv.{State, Cdv, start_recording}
use win_dv.Cdv.Playback.{Clip, told, sent, Playback, enter_playback, play_clip, play_round}
use win_dv.Cdv.Sending.{sent_clips, Play, begin, round, started, Sent, Play-Sent}
use win_dv.Examples.Capturing.{constructed}

abbrev clip : ℕ → Clip
clip n = record { duration = pos 400000; bytes = λ o. n; len = 10 }

abbrev paused : Cdv
paused = record constructed { state = State.record_paused; counter = pos 0; time = pos 0 }

abbrev recorded : Cdv
recorded = record paused { state = State.recording; counter = pos 1; time = pos 400000 }

abbrev held : Playback
held = record { clip = clip 1; dv_time = negsuc 0 }

abbrev moved : Playback
moved = record { clip = clip 2; dv_time = negsuc 0 }

paused_round :
    play_round (λ t. pos 5) false 3 (some (clip 2)) (enter_playback (clip 1) paused)
    ≡ ((paused, held), told (negsuc 0) ∷ sent (clip 1) ∷ [], false)
unfolding play_round play_clip enter_playback get_dv_recording_time
paused_round = refl

recording_round :
    play_round (λ t. pos 5) false 3 (some (clip 2)) ((start_recording paused).0, held)
    ≡ ((recorded, moved), sent (clip 1) ∷ [], true)
unfolding play_round play_clip start_recording get_dv_recording_time ◌+ℤ◌
recording_round = refl

two_rounds :
    Play (λ t. pos 5) (clip 1) paused (clip 1 ∷ clip 1 ∷ []) (clip 2 ∷ []) (recorded, moved)
unfolding sent_clips
two_rounds =
    round false 3 (some (clip 2)) (started (round false 3 (some (clip 2)) begin paused_round))
      recording_round

Play-Sent_example : Sent (clip 1 ∷ clip 1 ∷ []) (clip 1 ∷ clip 2 ∷ []) (clip 2)
Play-Sent_example =
    Play-Sent (λ t. pos 5) (clip 1) paused (clip 1 ∷ clip 1 ∷ []) (clip 2 ∷ []) (recorded, moved)
      two_rounds
