-- ===== src/Examples/Reporting.antt =====
-- The messages after a session of two frames.
use win_dv.Prelude.{◌≡◌, refl, [], ◌∷◌}
use win_dv.DvError.{accumulate_error_stats}
use win_dv.DvError.Stats.{session}
use win_dv.Messages.{text, number, percent, error_summary, worst_part, audio_part, critical_part}
use win_dv.Examples.Decoding.{two_frames}

-- One of two frames, the second, has errors.
summary_text :
    error_summary (session two_frames)
    ≡ text " | DV errors: "
      ∷ number 1
      ∷ text " frames ("
      ∷ percent 1 2
      ∷ text ")"
      ∷ text ", worst: #"
      ∷ number 1
      ∷ text " ("
      ∷ number 3
      ∷ text " STA)"
      ∷ text ", audio: "
      ∷ number 1
      ∷ text " frames"
      ∷ text " ["
      ∷ number 2
      ∷ text " CRITICAL]"
      ∷ []
unfolding error_summary session accumulate_error_stats worst_part audio_part critical_part
summary_text = refl
