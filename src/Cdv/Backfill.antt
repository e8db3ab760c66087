-- ===== src/Cdv/Backfill.antt =====
-- DShow.cpp, `CDV::CapturingThread`: the recording time that names a file, and its backfill.
use win_dv.Prelude.{ℕ, ◌+◌, ◌≡◌, ◌⊎◌, List, Option, Ensures}
use win_dv.Prelude.Int.{pos}
use win_dv.Cdv.{Writer, Cdv}
use win_dv.Cdv.Capture.{Effect, Local}

-- How the file that is open after a round is named: after the frame that it is opened for, or as
-- it was before, unless that was the time 0.
abbrev pub IsNamedBy : Option Writer → ℕ → (Cdv × Local) × List Effect → Type 0
IsNamedBy o counter ((c, l), es) =
    Ensures
      (λ w'.
        ((l.file_counter ≡ 1) × (w'.dvtime ≡ l.dv_time))
        ⊎ Ensures
            (λ w. (l.file_counter ≡ counter + 1) × ((w.dvtime ≡ pos 0) ⊎ (w'.dvtime ≡ w.dvtime))) o)
      c.writer
