-- ===== src/Examples/Pressing.antt =====
-- The window after the capture tab is chosen, and an hour as it is shown.
use win_dv.Prelude.{arith, ◌≡◌, refl, true, false, [], ◌∷◌}
use win_dv.Dialog.{Dialog, Status}
use win_dv.Dialog.Events.{IsSound}
use win_dv.Dialog.Display.{time_text}
use win_dv.Naming.{digits}
use win_dv.Examples.Capturing.{constructed}

abbrev pub window : Dialog
window = record {
  sel = 1;
  exit_on_finish = false;
  timer = false;
  status = Status.initializing;
  file_dst = 97 ∷ [];
  dtformat = [];
  suffix_digits = 2;
  video = constructed;
  is_open = true;
}

pub window-IsSound : IsSound window
window-IsSound = record {
  tab = omega arith;
  fitting = refl;
  ticking = refl;
  built = record { built = refl };
}

-- "1:00:05.2".
an_hour : time_text 36052345678 ≡ 49 ∷ 58 ∷ 48 ∷ 48 ∷ 58 ∷ 48 ∷ 53 ∷ 46 ∷ 50 ∷ []
unfolding time_text digits
an_hour = refl
