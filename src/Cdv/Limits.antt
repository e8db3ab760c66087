-- ===== src/Cdv/Limits.antt =====
-- DShow.cpp, `CDV::CapturingThread`: the size of the files of a session, while no limit of frames
-- that is set is above `most`.
use win_dv.Prelude.{
  ℕ, ltb, leb, ◌/◌, ◌%◌, u32_mod, ◌*◌, ◌+◌, ◌≤◌, ◌<◌, ◌≡◌, ◌⊎◌, inl, inr, refl, Bool, not, ◌&&◌,
  ◌==◌, List, [], ◌∷◌, ◌++◌, Option, none, some, arith, ap, Bool-cases, Ensures, Ensures-mono,
  Ensures-if, if-cases,
}
use Prim.{Unit}
use native.Mathlib.Nat.{div-add-mod'}
use win_dv.Prelude.Int.{ℤ, eqb_ℤ}
use win_dv.Dv.{Tm}
use win_dv.Cdv.{Writer, Settings, Cdv}
use win_dv.Cdv.Capture.{
  Effect, wrote, closed, Local, queue_slots, Arrival, Target, choose_target, write_frame,
  capture_frame, skip_frame, observe, on_frame, on_nothing, close_writer, note_time, must_split,
  disk_message, is_capturing,
}
use win_dv.Cdv.Rounds.{on_frame_cases}

-- A file is closed with at least one frame and at most `most`.
abbrev pub IsClosedWell : ℕ → Effect → Type 0
IsClosedWell most e = elim e [ closed w ↦ (0 < w.written) × (w.written ≤ most) | _ ↦ Unit ]

unfoldable pub AllClosedWell : ℕ → List Effect → Type 0
AllClosedWell most [] = Unit
AllClosedWell most (e ∷ es) = IsClosedWell most e × AllClosedWell most es

pub AllClosedWell-append :
    (most : ℕ) (es fs : List Effect)
    → AllClosedWell most es
    → AllClosedWell most fs
    → AllClosedWell most (es ++ fs)
unfolding AllClosedWell
AllClosedWell-append most [] fs p q = q
AllClosedWell-append most (e ∷ es) fs (p, ps) q = (p, AllClosedWell-append most es fs ps q)

-- The file that is open has the frames that the thread has counted.
abbrev pub OpenInv : ℕ → Option Writer → Local → Type 0
OpenInv most o l = Ensures (λ w. (w.written ≡ l.n_frames) × (l.n_frames ≤ most) × (0 < w.written)) o

abbrev pub ThreadInv : ℕ → Cdv × Local → Type 0
ThreadInv most (c, l) = (c.settings.max_avi_frames ≤ most) × OpenInv most c.writer l

abbrev pub RoundInv : ℕ → (Cdv × Local) × List Effect → Type 0
RoundInv most (t, es) = ThreadInv most t × AllClosedWell most es

pub close_writer-AllClosedWell :
    (most : ℕ) (o : Option Writer) (l : Local)
    → OpenInv most o l
    → AllClosedWell most (close_writer o)
unfolding AllClosedWell
close_writer-AllClosedWell most none l h = record {}
close_writer-AllClosedWell most (some w) l (counted, bounded, some_frame) =
    ((some_frame, omega (arith, counted, bounded)), record {})

-- The file that a frame goes to, before it is written: it has room, and a file without a frame has
-- been offered none.
abbrev TargetInv : ℕ → Target → Type 0
TargetInv most t =
    (t.target.written ≡ t.target_frames)
    × (t.target_frames < most)
    × ((t.target_counter ≡ 0) ⊎ (0 < t.target_frames))

choose_target-TargetInv :
    (s : Settings) (most : ℕ) (o : Option Writer) (l : Local) (delta : ℕ)
    → s.max_avi_frames ≤ most
    → 0 < most
    → OpenInv most o l
    → TargetInv most (choose_target s o l delta)
unfolding choose_target
choose_target-TargetInv s most none l delta limit one inv = (refl, one, inl refl)
choose_target-TargetInv s most (some w) l delta limit one inv =
    if-cases (TargetInv most) (must_split s l delta) _ _ (λ split. (refl, one, inl refl))
      (λ same. (inv.0, ground (arith, same, limit), inr (omega (arith, inv))))

choose_target-AllClosedWell :
    (s : Settings) (most : ℕ) (o : Option Writer) (l : Local) (delta : ℕ)
    → OpenInv most o l
    → AllClosedWell most (choose_target s o l delta).before
unfolding choose_target AllClosedWell
choose_target-AllClosedWell s most none l delta inv = (record {}, record {})
choose_target-AllClosedWell s most (some w) l delta inv =
    if-cases (λ (t : Target). AllClosedWell most t.before) (must_split s l delta) _ _
      (λ e. ((inv.2, omega (arith, inv)), (record {}, record {}))) (λ e. record {})

zero-mod : (n : ℕ) → 0 % n ≡ 0
zero-mod n = omega (arith, div-add-mod' 0 n)

-- After a frame is written, or left out by the decimation, which keeps the first of a file.
write_frame-OpenInv :
    (s : Settings) (most : ℕ) (duration dv_time : ℤ) (t : Target)
    → most < u32_mod
    → TargetInv most t
    → let u = write_frame s duration dv_time t in
      (u.target.written ≡ u.target_frames) × (u.target_frames ≤ most) × (0 < u.target.written)
unfolding write_frame
write_frame-OpenInv s most duration dv_time t small (counted, room, first) =
    elim (Bool-cases (t.target_counter % s.every_nth == 0)) [
      | inl due ↦ (
        ground (arith, due, counted, room, small),
        ground (arith, due, room, small),
        ground (arith, due),
      )
      | inr left_out ↦
          let offered : 0 < t.target_frames = elim first [
            | inr there ↦ there
            | inl none_yet ↦
                absurd (
                  ground
                    (arith, left_out, ap (λ k. k % s.every_nth) none_yet, zero-mod s.every_nth))
          ] in
          (
            ground (arith, left_out, counted),
            ground (arith, left_out, room),
            ground (arith, left_out, counted, offered),
          )
    ]

write_frame-AllClosedWell :
    (s : Settings) (most : ℕ) (duration dv_time : ℤ) (t : Target)
    → AllClosedWell most t.before
    → AllClosedWell most (write_frame s duration dv_time t).before
unfolding write_frame AllClosedWell
write_frame-AllClosedWell s most duration dv_time t p =
    if-cases (AllClosedWell most) (t.target_counter % s.every_nth == 0) _ _
      (λ e. AllClosedWell-append most t.before (wrote duration ∷ []) p (record {}, record {}))
      (λ e. p)

disk_message-AllClosedWell :
    (most n : ℕ) (free : Option ℕ) → AllClosedWell most (disk_message n free)
unfolding AllClosedWell
disk_message-AllClosedWell most n none = record {}
disk_message-AllClosedWell most n (some free) =
    if-cases (AllClosedWell most) (leb 1500 n && ltb (free / (1024 * 1024) % u32_mod) 500) _ _
      (λ e. (record {}, record {})) (λ e. record {})

module _ (most : ℕ) (one : 0 < most) (small : most < u32_mod) where
  capture_frame-RoundInv :
      (a : Arrival) (delta : ℕ) (c : Cdv) (l : Local)
      → ThreadInv most (c, l)
      → Ensures (RoundInv most) (capture_frame a delta (c, l))
  unfolding capture_frame
  capture_frame-RoundInv a delta c l (limit, inv) =
      let t = choose_target c.settings c.writer l delta in
      Ensures-if (RoundInv most) (c.settings.every_nth == 0) _ (λ nonzero. (
        (
          limit,
          write_frame-OpenInv c.settings most a.duration l.dv_time t small
              (choose_target-TargetInv c.settings most c.writer l delta limit one inv),
        ),
        AllClosedWell-append most _ _
            (write_frame-AllClosedWell c.settings most a.duration l.dv_time t
              (choose_target-AllClosedWell c.settings most c.writer l delta inv))
            (disk_message-AllClosedWell most (l.disk_check + 1) a.free_bytes),
      ))

  skip_frame-RoundInv :
      (a : Arrival) (c : Cdv) (l : Local)
      → ThreadInv most (c, l)
      → RoundInv most (skip_frame a (c, l))
  unfolding skip_frame
  skip_frame-RoundInv a c l (limit, inv) =
      ((limit, record {}), close_writer-AllClosedWell most c.writer l inv)

  note_time-OpenInv :
      (o : Option Writer) (new : ℤ) (l : Local)
      → OpenInv most o l
      → let (l', delta, es) = note_time new l in OpenInv most o l' × AllClosedWell most es
  unfolding note_time AllClosedWell
  note_time-OpenInv o new l inv =
      if-cases (λ (r : Local × ℕ × List Effect). OpenInv most o r.0 × AllClosedWell most r.2)
        (eqb_ℤ l.dv_time new) _ _ (λ e. (inv, record {})) (λ e. (inv, (record {}, record {})))

  observe-RoundInv :
      (mktime : Tm → ℤ) (a : Arrival) (c : Cdv) (l : Local)
      → ThreadInv most (c, l)
      → let (t, delta, es) = observe mktime a (c, l) in ThreadInv most t × AllClosedWell most es
  unfolding observe AllClosedWell
  observe-RoundInv mktime a c l (limit, inv) =
      let (kept, told) = note_time-OpenInv c.writer _ l inv in
      (
        (limit, kept),
        AllClosedWell-append most _ _ told (
            if-cases (AllClosedWell most) (ltb a.load (queue_slots / 2)) _ _
              (λ e. (record {}, record {})) (λ e. record {})),
      )

  pub on_frame-RoundInv :
      (mktime : Tm → ℤ) (a : Arrival) (c : Cdv) (l : Local)
      → ThreadInv most (c, l)
      → Ensures (RoundInv most) (on_frame mktime a (c, l))
  unfolding observe
  on_frame-RoundInv mktime a c l inv =
      let (kept, told) = observe-RoundInv mktime a c l inv in
      on_frame_cases (RoundInv most) mktime a c l
        (λ e.
          Ensures-mono (RoundInv most) _ _ (λ r p. (p.0, AllClosedWell-append most _ _ told p.1))
            (capture_frame-RoundInv a _ _ _ kept))
        (λ e.
          let (t, p) = skip_frame-RoundInv a _ _ kept in (t, AllClosedWell-append most _ _ told p))

pub on_nothing-RoundInv :
    (most : ℕ) (ended : Bool) (c : Cdv) (l : Local)
    → ThreadInv most (c, l)
    → let (t, es, left) = on_nothing ended (c, l) in RoundInv most (t, es)
unfolding on_nothing AllClosedWell
on_nothing-RoundInv most ended c l inv =
    if-cases (λ (r : (Cdv × Local) × List Effect × Bool). RoundInv most (r.0, r.1))
      (not ended && is_capturing c.state) _ _ (λ e. (inv, (record {}, record {})))
      (λ e. (inv, record {}))
