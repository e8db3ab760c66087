-- ===== src/Cdv/Files.antt =====
-- DShow.cpp, `CDV::CapturingThread`: the files of a capture, and the frames offered to each.
use win_dv.Prelude.{
  ℕ, ◌+◌, ◌*◌, ◌/◌, ◌%◌, ◌≤◌, ◌<◌, ◌≡◌, sym, ap, ◌∙◌, inl, inr, Bool, true, false, Option, none,
  some, arith, add32, u32_mod, ◌==◌, Bool-cases, Ensures,
}
use win_dv.Prelude.Int.{ℤ}
use native.Mathlib.Nat.{div-add-mod', mod-lt}
use win_dv.Cdv.{Writer, Settings}
use win_dv.Cdv.Capture.{Local, Target, choose_target, write_frame}

-- The settings that the configuration dialog admits.
pub record IsSane (s : Settings) : Type 0 where
  pub every_pos : 0 < s.every_nth
  pub max_pos : 0 < s.max_avi_frames
  pub max_in : s.max_avi_frames < u32_mod

-- A file holds every `every_nth`-th of the frames offered to it, the first one included, and at
-- most `max_avi_frames`; the thread's own counter agrees.
pub record FileInv (s : Settings) (w : Writer) (frames offered : ℕ) : Type 0 where
  pub counted : w.written ≡ frames
  pub bounded : frames ≤ s.max_avi_frames
  pub kept : frames * s.every_nth < offered + s.every_nth
  pub kept_all : offered ≤ frames * s.every_nth

-- The file that a frame goes to, before it is written: it has room, or is new.
abbrev pub TargetInv : Settings → Target → Type 0
TargetInv s t =
    FileInv s t.target t.target_frames t.target_counter × (t.target_frames < s.max_avi_frames)

pub choose_target-TargetInv :
    (s : Settings) (o : Option Writer) (l : Local) (delta : ℕ)
    → IsSane s
    → Ensures (λ w. FileInv s w l.n_frames l.file_counter) o
    → TargetInv s (choose_target s o l delta)
unfolding choose_target
choose_target-TargetInv s none l delta sane inv = grind arith
choose_target-TargetInv s (some w) l delta sane inv = ground (arith, inv)

-- `c / n * n + c % n` is `c`.
parts : (c n : ℕ) → c ≡ c / n * n + c % n
parts c n = sym (div-add-mod' c n)

-- The multiple of `n` that is less than `n` past `c` is `c` itself, if `n` divides `c`, and is past
-- `c` otherwise.
ceiling_due : (c f n q : ℕ) → c ≡ q * n → c ≤ f * n → f * n < c + n → f * n ≡ c
ceiling_due c f n q e lo hi = ap (◌* n) f_q ∙ sym e
  where
    f_q : f ≡ q
    f_q = grind arith

ceiling_not_due : (c f n q r : ℕ) → c ≡ q * n + r → 0 < r → c ≤ f * n → r < n → c + 1 ≤ f * n
ceiling_not_due c f n q r e pos_r lo hi = omega (arith, q_f, over)
  where
    q_f : q < f
    q_f = grind arith

    over : q * n + n ≤ f * n
    over = grind (arith, q_f)

one_more : (f n : ℕ) → (f + 1) * n ≡ f * n + n
one_more f n = grind arith

-- Under sane settings, a file that has room or is new, and that holds every `m_everyNth`-th of the
-- frames offered to it, the first included, still does after the next frame, is within the limit
-- of frames, and the thread's count of its frames is the writer's.
pub write_frame-FileInv :
    (s : Settings) (duration dv_time : ℤ) (t : Target)
    → IsSane s
    → TargetInv s t
    → let u = write_frame s duration dv_time t in
      FileInv s u.target u.target_frames u.target_counter
unfolding write_frame
write_frame-FileInv s duration dv_time t sane (inv, room) = elim (Bool-cases due) [
  | inl yes_due ↦
      ground (arith, yes_due, room, inv, sane, one_more f n, ceiling yes_due, add32_small)
  | inr not_due ↦ ground (arith, not_due, room, inv, sane, beyond not_due)
]
  where
    f : ℕ
    f = t.target_frames

    n : ℕ
    n = s.every_nth

    c : ℕ
    c = t.target_counter

    due : Bool
    due = c % n == 0

    add32_small : add32 f 1 ≡ f + 1
    add32_small = ground (arith, room, sane)

    ceiling : due ≡ true → f * n ≡ c
    ceiling e = ceiling_due c f n (c / n) (ground (arith, e, parts c n)) inv.kept_all inv.kept

    beyond : due ≡ false → c + 1 ≤ f * n
    beyond e =
        ceiling_not_due c f n (c / n) (c % n) (parts c n) (ground (arith, e)) inv.kept_all
          (mod-lt c sane.every_pos)
