-- ===== src/Config/Sane.antt =====
-- DVToolsDlg.cpp and CaptureCfg.cpp: the sheet keeps the settings within their limits.
use win_dv.Prelude.{
  ℕ, ◌*◌, ◌/◌, ◌%◌, ◌^◌, ◌-◌, ◌<◌, ◌≤◌, Bool, true, false, ltb, List, [], ◌∷◌, Option, none, some,
  ◌≡◌, refl, arith, leb→le, le→leb, lt→ltb, Bool-cases, inl, inr, zero, suc, ap, ◌==◌,
  if◌then◌else◌,
}
use win_dv.Profile.{Settings}
use win_dv.Config.{
  new_history, passes, CapturePage, RecordPage, capture_page, record_page, is_accepted, put_capture,
  put_record, Press, opened_page, copied, captured, recorded_back, on_config,
}

-- The settings are within the limits of the pages, and the time-out is none or a whole number of
-- seconds.
pub record IsSane (s : Settings) : Type 0 where
  pub treshold : s.discontinuity_treshold ≤ 1000000
  pub nth_low : 1 ≤ s.every_nth
  pub nth_high : s.every_nth ≤ 1000000
  pub frames_low : 10 ≤ s.max_avi_frames
  pub frames_high : s.max_avi_frames < 2 ^ 32
  pub timeout_high : s.auto_stop_timeout ≤ 60000
  pub timeout_whole : s.auto_stop_timeout % 1000 ≡ 0

-- What the limits say.
is_accepted-bounds :
    (q : CapturePage)
    → is_accepted q ≡ true
    → (q.discontinuity_treshold ≤ 1000000)
      × (1 ≤ q.every_nth)
      × (q.every_nth ≤ 1000000)
      × (10 ≤ q.max_avi_frames)
      × (q.max_avi_frames ≤ 2 ^ 32 - 1)
      × (1 ≤ q.auto_stop_seconds)
      × (q.auto_stop_seconds ≤ 60)
unfolding is_accepted
is_accepted-bounds q ok = (
  ground (arith, ok, leb→le q.discontinuity_treshold 1000000),
  ground (arith, ok, leb→le 1 q.every_nth),
  ground (arith, ok, leb→le q.every_nth 1000000),
  ground (arith, ok, leb→le 10 q.max_avi_frames),
  ground (arith, ok, leb→le q.max_avi_frames (2 ^ 32 - 1)),
  ground (arith, ok, leb→le 1 q.auto_stop_seconds),
  ground (arith, ok, leb→le q.auto_stop_seconds 60),
)

timeout-bounds :
    (b : Bool) (n : ℕ)
    → n ≤ 60
    → ((if b then (n * 1000) % 2 ^ 32 else 0) ≤ 60000)
      × ((if b then (n * 1000) % 2 ^ 32 else 0) % 1000 ≡ 0)
timeout-bounds true n le = (omega arith, omega arith)
timeout-bounds false n le = (omega arith, omega arith)

put_capture-IsSane :
    (q : CapturePage) (history : List ℕ) (s : Settings)
    → is_accepted q ≡ true
    → IsSane (put_capture q history s)
unfolding put_capture
put_capture-IsSane q history s ok =
    let (treshold, nth_low, nth_high, frames_low, frames_high, low, high) =
      is_accepted-bounds q ok in
    let (timeout_high, timeout_whole) =
      timeout-bounds q.auto_stop_enabled q.auto_stop_seconds high in
    record {
      treshold = treshold;
      nth_low = nth_low;
      nth_high = nth_high;
      frames_low = frames_low;
      frames_high = omega arith;
      timeout_high = timeout_high;
      timeout_whole = timeout_whole;
    }

put_record-IsSane : (q : RecordPage) (s : Settings) → IsSane s → IsSane (put_record q s)
unfolding put_record
put_record-IsSane q s sane = record {
  treshold = sane.treshold;
  nth_low = sane.nth_low;
  nth_high = sane.nth_high;
  frames_low = sane.frames_low;
  frames_high = sane.frames_high;
  timeout_high = sane.timeout_high;
  timeout_whole = sane.timeout_whole;
}

flag-radio : (b : Bool) → ((if b then 1 else 0) == 1) ≡ b
flag-radio true = refl
flag-radio false = refl

-- A time-out in milliseconds, as the page shows it in seconds and as it is copied back.
abbrev seconds : ℕ → ℕ
seconds t = if ltb 0 t then t / 1000 else 5

seconds-timeout :
    (t : ℕ) → t ≤ 60000 → t % 1000 ≡ 0 → (if ltb 0 t then (seconds t * 1000) % 2 ^ 32 else 0) ≡ t
seconds-timeout zero high whole = refl
seconds-timeout (suc t) high whole = rw (lt→ltb 0 (suc t) (omega arith)) (omega arith)

seconds-bounds : (t : ℕ) → t ≤ 60000 → t % 1000 ≡ 0 → (1 ≤ seconds t) × (seconds t ≤ 60)
seconds-bounds zero high whole = (omega arith, omega arith)
seconds-bounds (suc t) high whole = rw (lt→ltb 0 (suc t) (omega arith)) (omega arith, omega arith)

-- The copies out and back change nothing but the history.
put_capture-capture_page :
    (history : List ℕ) (s : Settings)
    → IsSane s
    → put_capture (capture_page s) history s ≡ record s { dtformat_history = history }
unfolding put_capture capture_page
put_capture-capture_page history s sane =
    rw
      (
        flag-radio s.type2_avi,
        seconds-timeout s.auto_stop_timeout sane.timeout_high sane.timeout_whole,
      )
      refl

capture_page-is_accepted : (s : Settings) → IsSane s → is_accepted (capture_page s) ≡ true
unfolding is_accepted capture_page
capture_page-is_accepted s sane =
    let (low, high) = seconds-bounds s.auto_stop_timeout sane.timeout_high sane.timeout_whole in
    rw
      (
        le→leb s.discontinuity_treshold 1000000 sane.treshold,
        le→leb 1 s.every_nth sane.nth_low,
        le→leb s.every_nth 1000000 sane.nth_high,
        le→leb 10 s.max_avi_frames sane.frames_low,
        le→leb s.max_avi_frames (2 ^ 32 - 1) (let f = sane.frames_high in omega arith),
        le→leb 1 (seconds s.auto_stop_timeout) low,
        le→leb (seconds s.auto_stop_timeout) 60 high,
      )
      refl

captured-IsSane :
    (same : List ℕ → List ℕ → Bool) (q : Option CapturePage) (s : Settings)
    → IsSane s
    → passes q ≡ true
    → IsSane (captured same q s)
captured-IsSane same none s sane ok =
    put_capture-IsSane (capture_page s) s.dtformat_history s (capture_page-is_accepted s sane)
captured-IsSane same (some q) s sane ok = put_capture-IsSane q _ s ok

recorded_back-IsSane :
    (q : Option RecordPage) (s : Settings) → IsSane s → IsSane (recorded_back q s)
recorded_back-IsSane none s sane = put_record-IsSane (record_page s) s sane
recorded_back-IsSane (some q) s sane = put_record-IsSane q s sane

copied-IsSane :
    (same : List ℕ → List ℕ → Bool) (a : Press) (s : Settings)
    → IsSane s
    → passes a.capture ≡ true
    → IsSane (copied same a s)
copied-IsSane same a s sane ok =
    recorded_back-IsSane a.recorded _ (captured-IsSane same a.capture s sane ok)

on_config-kept :
    (same : List ℕ → List ℕ → Bool) (presses : List Press) (s : Settings)
    → IsSane s
    → IsSane (on_config same presses s)
unfolding on_config
on_config-kept same [] s sane = sane
on_config-kept same (a ∷ presses) s sane = elim (Bool-cases (passes a.capture)) [
  | inl ok ↦ rw (ok) (copied-IsSane same a s sane ok)
  | inr refused ↦ rw (refused) (on_config-kept same presses s sane)
]

opened_page-capture_page :
    (s : Settings) → s.suffix_digits ≤ 4 → opened_page (capture_page s) ≡ capture_page s
unfolding opened_page capture_page
opened_page-capture_page s few = rw (le→leb s.suffix_digits 4 few) refl

-- The pages as they are opened.
abbrev pub untouched : Settings → Press
untouched s = record {
  capture = some (opened_page (capture_page s));
  recorded = some (record_page s);
}

-- Settings within the limits of the pages stay so whatever is entered and however often OK is
-- refused; and pages that are opened and left as they are are accepted and change nothing but the
-- history of formats, which is made again from the list, if the digits of the number are at most 4.
pub on_config-IsSane :
    (same : List ℕ → List ℕ → Bool) (presses : List Press) (s : Settings)
    → IsSane s
    → s.suffix_digits ≤ 4
    → IsSane (on_config same presses s)
      × (on_config same (untouched s ∷ presses) s ≡ record s {
        dtformat_history = new_history same s.dtformat s.dtformat_history s.dtformat;
      })
unfolding on_config put_record record_page capture_page
on_config-IsSane same presses s sane few =
    let history = new_history same s.dtformat s.dtformat_history s.dtformat in
    (
      on_config-kept same presses s sane,
      rw (opened_page-capture_page s few, capture_page-is_accepted s sane)
          (ap (put_record (record_page s)) (put_capture-capture_page history s sane)),
    )
