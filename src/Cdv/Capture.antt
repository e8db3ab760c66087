-- ===== src/Cdv/Capture.antt =====
-- DShow.cpp, `CDV::CapturingThread`: one round of its loop for each answer of the queue, and what
-- it does after the loop. `m_state` is read where the code reads it; the dialog's operations come
-- between the rounds.
use win_dv.Prelude.{
  ℕ, ◌+◌, ◌*◌, ◌/◌, ◌%◌, Bool, true, false, not, ◌&&◌, ◌||◌, ltb, leb, ◌==◌, if◌then◌else◌, List,
  [], ◌∷◌, ◌++◌, Option, none, some, map_some, add32, u32_mod,
}
use win_dv.Prelude.Int.{ℤ, pos, pos_part, neg_part, ◌+ℤ◌, ◌-ℤ◌, ltb_ℤ, leb_ℤ, eqb_ℤ}
use win_dv.Dv.{Bytes, Tm, get_dv_recording_time}
use win_dv.DvError.{accumulate_error_stats, analyze_dv_frame, reset_error_stats}
use win_dv.Cdv.{State, Writer, Settings, Cdv}

-- What the thread does that others see: messages to the dialog, the preview, and the files.
pub data Effect : Type 0 where
  time_change : ℤ → Effect
  preview : Effect
  opened : ℤ → Effect
  wrote : ℤ → Effect
  closed : Writer → Effect
  low_disk_space : ℕ → Effect
  signal_lost : Effect

-- The thread's own variables.
pub record Local : Type 0 where
  pub n_frames : ℕ
  pub file_counter : ℕ
  pub dropped_base : ℤ
  pub dv_time : ℤ
  pub old_dv_time : ℤ
  pub disk_check : ℕ
  pub first_rec_time : ℤ
  pub last_rec_time : ℤ
  pub stop_reason : ℕ

-- A frame from the queue, with what the round sees of its surroundings: the load of the queue, the
-- driver's count of dropped frames, and the free bytes of the disk if they can be had.
pub record Arrival : Type 0 where
  pub duration : ℤ
  pub bytes : Bytes
  pub len : ℕ
  pub load : ℕ
  pub driver_dropped : ℤ
  pub free_bytes : Option ℕ

-- `m_queueSize` of the queue that `BuildCapturing` makes.
abbrev pub queue_slots : ℕ
queue_slots = 101

-- Before the loop. `driver_dropped` is the driver's count at that time.
unfoldable pub enter : ℤ → Cdv → Cdv × Local
enter driver_dropped c = (
  record c { counter = pos 0; time = pos 0; error_stats = reset_error_stats },
  record {
    n_frames = 0;
    file_counter = 0;
    dropped_base = driver_dropped;
    dv_time = pos 0;
    old_dv_time = pos 0;
    disk_check = 0;
    first_rec_time = pos 0;
    last_rec_time = pos 0;
    stop_reason = 0;
  },
)

-- `|a - b|`.
abbrev pub distance : ℤ → ℤ → ℕ
distance a b = let d = a -ℤ b in pos_part d + neg_part d

-- The recording time of a frame: the new variables, `deltaDVTime` and the message.
unfoldable pub note_time : ℤ → Local → Local × ℕ × List Effect
note_time new l =
    if eqb_ℤ l.dv_time new
    then (l, 0, [])
    else (let valid = ltb_ℤ (pos 0) new in
        (
          record l {
            dv_time = new;
            old_dv_time = if valid then new else l.old_dv_time;
            first_rec_time =
                if valid && eqb_ℤ l.first_rec_time (pos 0) then new else l.first_rec_time;
            last_rec_time = if valid then new else l.last_rec_time;
          },
          if valid && ltb_ℤ (pos 0) l.old_dv_time then distance new l.old_dv_time else 0,
          time_change new ∷ [],
        ))

abbrev pub is_capturing : State → Bool
is_capturing s = elim s [ State.capturing ↦ true | _ ↦ false ]

abbrev pub is_finished : State → Bool
is_finished s = elim s [ State.finished ↦ true | _ ↦ false ]

-- `delete m_aviWriter`, if one is open.
abbrev pub close_writer : Option Writer → List Effect
close_writer none = []
close_writer (some w) = closed w ∷ []

-- Whether the file that is open is closed before this frame.
abbrev pub must_split : Settings → Local → ℕ → Bool
must_split s l delta =
    leb s.max_avi_frames l.n_frames
    || (ltb 0 s.discontinuity_treshold && ltb s.discontinuity_treshold delta)

-- The writer that this frame goes to, with the counters of its file.
pub record Target : Type 0 where
  pub target : Writer
  pub target_frames : ℕ
  pub target_counter : ℕ
  pub before : List Effect

abbrev pub fresh_target : ℤ → List Effect → Target
fresh_target dv_time before = record {
  target = record { dvtime = dv_time; written = 0 };
  target_frames = 0;
  target_counter = 0;
  before = before ++ (opened dv_time ∷ []);
}

unfoldable pub choose_target : Settings → Option Writer → Local → ℕ → Target
choose_target s none l delta = fresh_target l.dv_time []
choose_target s (some w) l delta =
    if must_split s l delta then fresh_target l.dv_time (closed w ∷ []) else record {
      target = w;
      target_frames = l.n_frames;
      target_counter = l.file_counter;
      before = [];
    }

-- Frame decimation, and the DV time of a file whose first frames had none.
unfoldable pub write_frame : Settings → ℤ → ℤ → Target → Target
write_frame s duration dv_time t =
    let due = t.target_counter % s.every_nth == 0 in
    record {
      target = record {
        dvtime =
            if not (eqb_ℤ dv_time (pos 0)) && eqb_ℤ t.target.dvtime (pos 0)
            then dv_time
            else t.target.dvtime;
        written = if due then t.target.written + 1 else t.target.written;
      };
      target_frames = if due then add32 t.target_frames 1 else t.target_frames;
      target_counter = t.target_counter + 1;
      before = if due then t.before ++ (wrote duration ∷ []) else t.before;
    }

-- The disk check, every 1500 frames.
abbrev pub disk_message : ℕ → Option ℕ → List Effect
disk_message n none = []
disk_message n (some free) =
    let free_mb = free / (1024 * 1024) % u32_mod in
    if leb 1500 n && ltb free_mb 500 then low_disk_space free_mb ∷ [] else []

-- Whether the time limit of the capture has been reached.
abbrev pub is_due : ℤ → ℤ → Bool
is_due limit time = not (eqb_ℤ limit (pos 0)) && leb_ℤ limit time

-- The branch for `m_state == Capturing`; `none` is the division by zero at `m_everyNth == 0`.
unfoldable pub capture_frame : Arrival → ℕ → Cdv × Local → Option ((Cdv × Local) × List Effect)
capture_frame a delta (c, l) =
    let t =
      write_frame c.settings a.duration l.dv_time (choose_target c.settings c.writer l delta) in
    let time = c.time +ℤ a.duration in
    let due = is_due c.capture_time time in
    let n = l.disk_check + 1 in
    if c.settings.every_nth == 0
    then none
    else some (
      (
        record c {
          writer = some t.target;
          counter = c.counter +ℤ pos 1;
          time = time;
          capture_time = if due then pos 0 else c.capture_time;
          state = if due then State.finished else c.state;
          dropped = a.driver_dropped -ℤ l.dropped_base;
        },
        record l {
          n_frames = t.target_frames;
          file_counter = t.target_counter;
          stop_reason = if due then 3 else l.stop_reason;
          disk_check = if leb 1500 n then 0 else n;
        },
      ),
      t.before ++ disk_message n a.free_bytes,
    )

-- The other branch, for a pipeline that is paused or finished.
unfoldable pub skip_frame : Arrival → Cdv × Local → (Cdv × Local) × List Effect
skip_frame a (c, l) = (
  (
    record c {
      writer = none;
      dropped = if is_finished c.state then c.dropped else pos 0;
      counter = if is_finished c.state then c.counter else pos 0;
      time = if is_finished c.state then c.time else pos 0;
    },
    record l { dropped_base = a.driver_dropped },
  ),
  close_writer c.writer,
)

-- What a round does with a frame before it looks at the state: the recording time, the error
-- statistics, and the preview while the queue is less than half full. The number is
-- `deltaDVTime`.
unfoldable pub observe : (Tm → ℤ) → Arrival → Cdv × Local → (Cdv × Local) × ℕ × List Effect
observe mktime a (c, l) =
    let (l', delta, msgs) = note_time (get_dv_recording_time mktime a.bytes a.len) l in
    let stats =
      accumulate_error_stats c.error_stats (analyze_dv_frame a.bytes a.len)
        c.error_stats.total_frames in
    (
      (record c { error_stats = stats }, l'),
      delta,
      msgs ++ (if ltb a.load (queue_slots / 2) then preview ∷ [] else []),
    )

-- The result of the part of a round that follows others' effects.
abbrev pub following : List Effect → (Cdv × Local) × List Effect → (Cdv × Local) × List Effect
following es (s, fs) = (s, es ++ fs)

-- A round that got a frame.
unfoldable pub on_frame : (Tm → ℤ) → Arrival → Cdv × Local → Option ((Cdv × Local) × List Effect)
on_frame mktime a (c, l) =
    let (s, delta, es) = observe mktime a (c, l) in
    if is_capturing c.state
    then map_some (following es) (capture_frame a delta s)
    else some (following es (skip_frame a s))

-- A round that got none. `ended` is `m_end`; the third part is whether the loop is left.
unfoldable pub on_nothing : Bool → Cdv × Local → (Cdv × Local) × List Effect × Bool
on_nothing ended (c, l) =
    if not ended && is_capturing c.state
    then (
      (record c { state = State.finished }, record l { stop_reason = 1 }),
      signal_lost ∷ [],
      true,
    )
    else ((c, l), [], false)

-- After the loop: the writer is closed.
unfoldable pub leave : Cdv → Cdv × List Effect
leave c = (record c { writer = none }, close_writer c.writer)
