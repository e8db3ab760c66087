-- ===== src/Cdv/Session.antt =====
-- DShow.cpp, `CDV::CapturingThread`: a whole session of the capture thread, round after round with
-- the dialog's operations between them, and what it adds up to.
use win_dv.Prelude.{
  ℕ, ◌+◌, ◌≡◌, List, [], ◌∷◌, ◌++◌, Option, none, some, arith, Ensures, Ensures-if, ◌==◌,
}
use win_dv.Prelude.Int.{ℤ}
use win_dv.Cdv.{Writer, Settings, Cdv}
use win_dv.Cdv.Capture.{
  Effect, opened, wrote, closed, Local, Arrival, Target, choose_target, write_frame, capture_frame,
  skip_frame, close_writer, note_time, disk_message,
}

-- The sum of a weight of the effects.
unfoldable pub total : (Effect → ℕ) → List Effect → ℕ
total weight [] = 0
total weight (e ∷ es) = weight e + total weight es

pub total-append :
    (weight : Effect → ℕ) (es fs : List Effect)
    → total weight (es ++ fs) ≡ total weight es + total weight fs
unfolding total
total-append weight [] fs = omega arith
total-append weight (e ∷ es) fs = omega (arith, total-append weight es fs)

-- One for a frame written, a file opened and a file closed; and the frames of a file closed.
abbrev pub one_wrote : Effect → ℕ
one_wrote e = elim e [ wrote d ↦ 1 | _ ↦ 0 ]

abbrev pub one_opened : Effect → ℕ
one_opened e = elim e [ opened d ↦ 1 | _ ↦ 0 ]

abbrev pub one_closed : Effect → ℕ
one_closed e = elim e [ closed w ↦ 1 | _ ↦ 0 ]

abbrev pub frames_closed : Effect → ℕ
frames_closed e = elim e [ closed w ↦ w.written | _ ↦ 0 ]

-- The frames and the files that are open.
abbrev pub open_frames : Option Writer → ℕ
open_frames none = 0
open_frames (some w) = w.written

abbrev pub open_files : Option Writer → ℕ
open_files none = 0
open_files (some w) = 1

-- The frames written go to files that are closed or still open, and so do the files opened.
pub record Balanced (before : Option Writer) (es : List Effect) (after : Option Writer)
    : Type 0 where
  pub frames : open_frames before + total one_wrote es ≡ total frames_closed es + open_frames after
  pub files : open_files before + total one_opened es ≡ total one_closed es + open_files after

pub Balanced-append :
    (a b c : Option Writer) (es fs : List Effect)
    → Balanced a es b
    → Balanced b fs c
    → Balanced a (es ++ fs) c
Balanced-append a b c es fs p q = ground (
  arith,
  p,
  q,
  total-append one_wrote es fs,
  total-append frames_closed es fs,
  total-append one_opened es fs,
  total-append one_closed es fs,
)

choose_target-Balanced :
    (s : Settings) (o : Option Writer) (l : Local) (delta : ℕ)
    → let t = choose_target s o l delta in Balanced o t.before (some t.target)
unfolding choose_target total
choose_target-Balanced s none l delta = ground arith
choose_target-Balanced s (some w) l delta = ground arith

write_frame-Balanced :
    (s : Settings) (o : Option Writer) (duration dv_time : ℤ) (t : Target)
    → Balanced o t.before (some t.target)
    → let u = write_frame s duration dv_time t in Balanced o u.before (some u.target)
unfolding write_frame total
write_frame-Balanced s o duration dv_time t p = ground (
  arith,
  p,
  total-append one_wrote t.before (wrote duration ∷ []),
  total-append frames_closed t.before (wrote duration ∷ []),
  total-append one_opened t.before (wrote duration ∷ []),
  total-append one_closed t.before (wrote duration ∷ []),
)

-- Messages and the preview change no file.
disk_message-Balanced :
    (o : Option Writer) (n : ℕ) (free : Option ℕ) → Balanced o (disk_message n free) o
unfolding total
disk_message-Balanced o n none = ground arith
disk_message-Balanced o n (some free) = ground arith

pub note_time-Balanced :
    (o : Option Writer) (new : ℤ) (l : Local)
    → let (l', delta, msgs) = note_time new l in Balanced o msgs o
unfolding note_time total
note_time-Balanced o new l = ground arith

pub close_writer-Balanced : (o : Option Writer) → Balanced o (close_writer o) none
unfolding total
close_writer-Balanced none = ground arith
close_writer-Balanced (some w) = ground arith

-- The writer before a round and the writer after it.
abbrev pub RoundBalanced : Option Writer → (Cdv × Local) × List Effect → Type 0
RoundBalanced before ((c, l), es) = Balanced before es c.writer

pub capture_frame-Balanced :
    (a : Arrival) (delta : ℕ) (c : Cdv) (l : Local)
    → Ensures (RoundBalanced c.writer) (capture_frame a delta (c, l))
unfolding capture_frame
capture_frame-Balanced a delta c l =
    Ensures-if (RoundBalanced c.writer) (c.settings.every_nth == 0) _ (λ nonzero.
      Balanced-append c.writer _ _ _ _
        (write_frame-Balanced c.settings c.writer a.duration l.dv_time
          (choose_target c.settings c.writer l delta)
          (choose_target-Balanced c.settings c.writer l delta))
        (disk_message-Balanced _ (l.disk_check + 1) a.free_bytes))

pub skip_frame-Balanced :
    (a : Arrival) (c : Cdv) (l : Local) → RoundBalanced c.writer (skip_frame a (c, l))
unfolding skip_frame
skip_frame-Balanced a c l = close_writer-Balanced c.writer
