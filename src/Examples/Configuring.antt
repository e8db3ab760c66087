-- ===== src/Examples/Configuring.antt =====
-- A sheet of settings, and a history of formats.
use win_dv.Prelude.{ℕ, Bool, true, false, ◌&&◌, ◌==◌, List, [], ◌∷◌, none, ◌≡◌, refl, arith}
use win_dv.Profile.{lower}
use win_dv.Config.{new_history, on_config, split_lines, combo_items, join_lines, delete_first}
use win_dv.Config.Sane.{IsSane, untouched, on_config-IsSane}
use win_dv.Examples.Closing.{chosen}

-- A comparison without case.
abbrev same_text : List ℕ → List ℕ → Bool
same_text [] [] = true
same_text [] (d ∷ t) = false
same_text (c ∷ s) [] = false
same_text (c ∷ s) (d ∷ t) = (lower c == lower d) && same_text s t

-- "%H" is chosen in place of "%M", and "%M" stays in the list.
history-moved : new_history same_text (37 ∷ 77 ∷ []) (37 ∷ 72 ∷ []) (37 ∷ 72 ∷ []) ≡ 37 ∷ 77 ∷ []
unfolding new_history split_lines combo_items join_lines delete_first
history-moved = refl

-- "%Y" is chosen in place of "%y": "%y" is lost, and "%Y" stays.
history-case : new_history same_text (37 ∷ 121 ∷ []) (37 ∷ 89 ∷ []) (37 ∷ 89 ∷ []) ≡ 37 ∷ 89 ∷ []
unfolding new_history split_lines combo_items join_lines delete_first
history-case = refl

chosen-IsSane : IsSane chosen
chosen-IsSane = record {
  treshold = omega arith;
  nth_low = omega arith;
  nth_high = omega arith;
  frames_low = omega arith;
  frames_high = omega arith;
  timeout_high = omega arith;
  timeout_whole = refl;
}

on_config-IsSane_example :
    IsSane (on_config same_text (record { capture = none; recorded = none } ∷ []) chosen)
    × (on_config same_text
          (untouched chosen ∷ record { capture = none; recorded = none } ∷ [])
          chosen
        ≡ record chosen {
          dtformat_history =
              new_history same_text chosen.dtformat chosen.dtformat_history chosen.dtformat;
        })
on_config-IsSane_example =
    on_config-IsSane same_text (record { capture = none; recorded = none } ∷ []) chosen
      chosen-IsSane (omega arith)
