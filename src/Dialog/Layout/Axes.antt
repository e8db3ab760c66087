-- ===== src/Dialog/Layout/Axes.antt =====
-- DVToolsDlg.cpp, `CDVToolsDlg::OnSize`: one axis of two controls in a window that has grown.
use win_dv.Prelude.{ℕ, ◌+◌, ◌-◌, ◌*◌, ◌/◌, ◌≤◌, ◌≡◌, ap, ◌∙◌, arith}
use win_dv.Prelude.Int.{ℤ, pos, ◌+ℤ◌, ◌-ℤ◌, ◌≤ℤ◌, pos_part, +ℤ_parts, -ℤ_parts}
use win_dv.Dialog.Layout.{scaled}

distribute : (a k n : ℕ) → a * n + k * n ≡ (a + k) * n
distribute a k n = omega arith

-- The products of a sum.
split_product : (a b n : ℕ) → a ≤ b → a * n + (b - a) * n ≡ b * n
split_product a b n h = distribute a (b - a) n ∙ ap (λ m. m * n) (omega (arith, h))

scaled-le : (a b n : ℕ) → a ≤ b → a * n / 100 ≤ b * n / 100
scaled-le a b n h = omega (arith, split_product a b n h)

-- The parts of a change are no more than the whole.
scaled-sum : (a b n : ℕ) → a ≤ b → a * n / 100 + (b - a) * n / 100 ≤ b * n / 100
scaled-sum a b n h = omega (arith, split_product a b n h)

-- A control on one axis that is before another stays before it.
before_kept :
    (x y z : ℕ) (l r l' : ℤ)
    → x + y ≤ z
    → r ≤ℤ l'
    → (pos x +ℤ l) +ℤ (pos y +ℤ r -ℤ l) ≤ℤ (pos z +ℤ l')
before_kept x y z l r l' sum h = omega (
  arith,
  sum,
  h,
  +ℤ_parts (pos x +ℤ l) (pos y +ℤ r -ℤ l),
  +ℤ_parts (pos x) l,
  -ℤ_parts (pos y +ℤ r) l,
  +ℤ_parts (pos y) r,
  +ℤ_parts (pos z) l',
)

difference : (a b : ℕ) → a ≤ b → pos b -ℤ pos a ≡ pos (b - a)
unfolding ◌-ℤ◌
difference a b h = ground (arith, h)

pub grown : (w cx : ℤ) → w ≤ℤ cx → cx -ℤ w ≡ pos (pos_part (cx -ℤ w))
unfolding ◌-ℤ◌
grown w cx h = ground (arith, h)

-- Two controls on one axis, in a window that is larger by `n`.
pub axis_kept :
    (a b c : ℕ) (l r l' : ℤ) (n : ℕ)
    → a ≤ b
    → b ≤ c
    → r ≤ℤ l'
    → (scaled (pos a) (pos n) +ℤ l) +ℤ (scaled (pos b -ℤ pos a) (pos n) +ℤ r -ℤ l)
      ≤ℤ (scaled (pos c) (pos n) +ℤ l')
unfolding scaled
axis_kept a b c l r l' n first second h = rw (difference a b first) (
    before_kept (a * n / 100) ((b - a) * n / 100) (c * n / 100) l r l'
      (omega (arith, scaled-sum a b n first, scaled-le b c n second)) h)
