-- ===== src/Profile/Restored.antt =====
-- DVToolsDlg.cpp: what is written when the dialog closes is restored at the next start.
use win_dv.Prelude.{◌^◌, ◌<◌, true, ltb, if◌then◌else◌, List, [], ◌∷◌, Option, none, some, ◌≡◌}
use win_dv.Profile.{Key, Write, Store, Settings, same_key, profile_writes, write_all}

-- The last call for a key.
abbrev last_write : List (Key × Write) → Key → Option (Key × Write)
last_write [] k = none
last_write ((k', w) ∷ ws) k = elim (last_write ws k) [
  | none ↦ if same_key k' k then some (k', w) else none
  | some call ↦ some call
]

-- Settings that a profile can keep, of a window that has a width and a height.
pub record IsStorable (st : Store) (s : Settings) : Type 0 where
  pub x : s.x < 2 ^ 32
  pub y : s.y < 2 ^ 32
  pub width : s.width < 2 ^ 32
  pub height : s.height < 2 ^ 32
  pub selected_tool : s.selected_tool < 2 ^ 32
  pub discontinuity_treshold : s.discontinuity_treshold < 2 ^ 32
  pub max_avi_frames : s.max_avi_frames < 2 ^ 32
  pub every_nth : s.every_nth < 2 ^ 32
  pub auto_stop_timeout : s.auto_stop_timeout < 2 ^ 32
  pub suffix_digits : s.suffix_digits < 2 ^ 32
  pub wide : ltb 0 s.width ≡ true
  pub high : ltb 0 s.height ≡ true
  pub directory : st.IsKept s.directory
  pub source_device : st.IsKept s.source_device
  pub target_device : st.IsKept s.target_device
  pub source_file : st.IsKept s.source_file
  pub target_file : st.IsKept s.target_file
  pub dtformat : st.IsKept s.dtformat
  pub dtformat_history : st.IsKept s.dtformat_history
  pub avi_prefix : st.IsKept s.avi_prefix
  pub avi_suffix : st.IsKept s.avi_suffix

module _ (st : Store) (s : Settings) (p : st.Disk) where
  -- The profile after `OnClose`.
  abbrev closed : st.Disk
  closed = write_all st (profile_writes s) p
