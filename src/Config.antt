-- ===== src/Config.antt =====
-- DVToolsDlg.cpp, `OnConfig`, and CaptureCfg.cpp: the sheet of settings. A press of OK comes with
-- what the pages show; a page that was not opened shows nothing and is not checked. How Windows
-- compares the entries of a list is a parameter.
pub mod Sane
use win_dv.Prelude.{
  ℕ, ◌+◌, ◌*◌, ◌/◌, ◌%◌, ◌^◌, ◌-◌, Bool, true, false, ◌&&◌, leb, ltb, ◌==◌, if◌then◌else◌, take,
  List, [], ◌∷◌, ◌++◌, Option, none, some,
}
use win_dv.Profile.{Settings}
use win_dv.FileList.{extended}

-- `CCaptureCfg`, as its page shows it.
pub record CapturePage : Type 0 where
  pub type12 : ℕ
  pub discontinuity_treshold : ℕ
  pub max_avi_frames : ℕ
  pub every_nth : ℕ
  pub dtformat : List ℕ
  pub ndigits : ℕ
  pub auto_stop_enabled : Bool
  pub auto_stop_seconds : ℕ
  pub enable_sha256 : Bool

-- `CRecordCfg`.
pub record RecordPage : Type 0 where
  pub avi_prefix : List ℕ
  pub avi_suffix : List ℕ
  pub record_preview : Bool

-- The pages as `OnConfig` fills them.
unfoldable pub capture_page : Settings → CapturePage
capture_page s = record {
  type12 = if s.type2_avi then 1 else 0;
  discontinuity_treshold = s.discontinuity_treshold;
  max_avi_frames = s.max_avi_frames;
  every_nth = s.every_nth;
  dtformat = s.dtformat;
  ndigits = s.suffix_digits;
  auto_stop_enabled = ltb 0 s.auto_stop_timeout;
  auto_stop_seconds = if ltb 0 s.auto_stop_timeout then s.auto_stop_timeout / 1000 else 5;
  enable_sha256 = s.enable_sha256;
}

unfoldable pub record_page : Settings → RecordPage
record_page s = record {
  avi_prefix = s.avi_prefix;
  avi_suffix = s.avi_suffix;
  record_preview = s.record_preview;
}

-- The page once it is open: a list with the digits 0 to 4 shows no other number, which is read back
-- as -1.
unfoldable pub opened_page : CapturePage → CapturePage
opened_page q = record q { ndigits = if leb q.ndigits 4 then q.ndigits else 2 ^ 32 - 1 }

-- The limits in `DoDataExchange`.
unfoldable pub is_accepted : CapturePage → Bool
is_accepted q =
    leb q.discontinuity_treshold 1000000
    && (leb 1 q.every_nth && leb q.every_nth 1000000)
    && (leb 10 q.max_avi_frames && leb q.max_avi_frames (2 ^ 32 - 1))
    && (leb 1 q.auto_stop_seconds && leb q.auto_stop_seconds 60)

abbrev longer : ℕ → List (List ℕ) → List (List ℕ)
longer c [] = (c ∷ []) ∷ []
longer c (line ∷ lines) = (c ∷ line) ∷ lines

-- The loop of `CCaptureCfg::OnInitDialog` over the history, with a line feed after each entry.
unfoldable pub split_lines : List ℕ → List (List ℕ)
split_lines [] = []
split_lines (c ∷ cs) = let lines = split_lines cs in if c == 10 then [] ∷ lines else longer c lines

-- The entries of the list: the format, the history, and an empty one after a format.
unfoldable pub combo_items : List ℕ → List ℕ → List (List ℕ)
combo_items [] history = [] ∷ split_lines history
combo_items (c ∷ cs) history = (c ∷ cs) ∷ (split_lines history ++ ([] ∷ []))

-- The loop of `CCaptureCfg::OnOK`: the entries that are not empty.
unfoldable pub join_lines : List (List ℕ) → List ℕ → List ℕ
join_lines [] text = text
join_lines ([] ∷ items) text = join_lines items text
join_lines ((c ∷ cs) ∷ items) text = join_lines items (extended (10 ∷ []) text (c ∷ cs))

-- `FindStringExact` and `DeleteString`.
unfoldable pub delete_first : (List ℕ → List ℕ → Bool) → List ℕ → List (List ℕ) → List (List ℕ)
delete_first same t [] = []
delete_first same t (item ∷ items) =
    let rest = delete_first same t items in if same t item then items else item ∷ rest

-- `CCaptureCfg::OnOK`: the history after a format is chosen from the list of the old one.
unfoldable pub new_history : (List ℕ → List ℕ → Bool) → List ℕ → List ℕ → List ℕ → List ℕ
new_history same old history chosen =
    join_lines (take 10 (delete_first same chosen (combo_items old history))) []

-- A press of OK.
pub record Press : Type 0 where
  pub capture : Option CapturePage
  pub recorded : Option RecordPage

abbrev pub passes : Option CapturePage → Bool
passes none = true
passes (some q) = is_accepted q

-- The part of `OnConfig` after the sheet, for the capture page.
unfoldable pub put_capture : CapturePage → List ℕ → Settings → Settings
put_capture q history s = record s {
  type2_avi = q.type12 == 1;
  discontinuity_treshold = q.discontinuity_treshold;
  max_avi_frames = q.max_avi_frames;
  every_nth = q.every_nth;
  dtformat = q.dtformat;
  dtformat_history = history;
  suffix_digits = q.ndigits;
  auto_stop_timeout = if q.auto_stop_enabled then (q.auto_stop_seconds * 1000) % 2 ^ 32 else 0;
  enable_sha256 = q.enable_sha256;
}

unfoldable pub put_record : RecordPage → Settings → Settings
put_record q s = record s {
  avi_prefix = q.avi_prefix;
  avi_suffix = q.avi_suffix;
  record_preview = q.record_preview;
}

-- The copies back; of a page that was not opened they are the values it was filled with.
abbrev pub captured : (List ℕ → List ℕ → Bool) → Option CapturePage → Settings → Settings
captured same none s = put_capture (capture_page s) s.dtformat_history s
captured same (some q) s =
    put_capture q (new_history same s.dtformat s.dtformat_history q.dtformat) s

abbrev pub recorded_back : Option RecordPage → Settings → Settings
recorded_back none s = put_record (record_page s) s
recorded_back (some q) s = put_record q s

abbrev pub copied : (List ℕ → List ℕ → Bool) → Press → Settings → Settings
copied same a s = recorded_back a.recorded (captured same a.capture s)

-- `OnConfig`: the first press of OK that the limits accept closes the sheet; with none it was
-- cancelled.
unfoldable pub on_config : (List ℕ → List ℕ → Bool) → List Press → Settings → Settings
on_config same [] s = s
on_config same (a ∷ presses) s =
    let later = on_config same presses s in if passes a.capture then copied same a s else later
