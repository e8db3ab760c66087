-- ===== src/Dialog/Layout/Moved.antt =====
-- DVToolsDlg.cpp, `CDVToolsDlg::OnSize`: where one control comes in a window that has grown.
use win_dv.Prelude.{
  ℕ, ◌+◌, ◌≡◌, refl, ap, Bool, true, false, ◌&&◌, ◌==◌, ltb, if◌then◌else◌, inl, inr, Bool-cases,
  arith,
}
use win_dv.Prelude.Int.{ℤ, pos, ◌+ℤ◌, ◌-ℤ◌, +ℤ_parts, -ℤ_parts, eq_of_parts}
use win_dv.Dialog.Layout.{
  ControlId, CtrlProperties, Rect, Placement, move_control, scaled, template,
}

abbrev pub is_video : ControlId → Bool
is_video ControlId.video = true
is_video i = false

-- In hundredths of the change of the width.
abbrev pub left_share : ControlId → ℕ
left_share a = if is_video a then 0 else if ltb (template a).x 172 then 25 else 75

-- A control that lay in `q` and now lies in `r`, with the changes of the width and the height.
pub record IsMoved (dx dy : ℤ) (a : ControlId) (q : Rect) (r : Placement) : Type 0 where
  pub left : r.x ≡ (scaled (pos (left_share a)) dx +ℤ q.left)
  pub top : r.y ≡ (if is_video a then q.top else dy +ℤ q.top)
  pub bottom : r.y +ℤ r.height ≡ (dy +ℤ q.bottom)

-- A row of the table that does so.
abbrev pub keeps_row : CtrlProperties → Bool
keeps_row c = c.dx == left_share c.id && c.dy == (if is_video c.id then 0 else 100) && c.dh == 100

scaled_whole : (m : ℕ) → scaled (pos 100) (pos m) ≡ pos m
unfolding scaled
scaled_whole m = ap pos (omega arith)

scaled_none : (m : ℕ) → scaled (pos 0) (pos m) ≡ pos 0
unfolding scaled
scaled_none m = ap pos (omega arith)

-- A lower edge, from the upper edge and the height.
edge_sum : (x y z : ℕ) (t b : ℤ) → x + y ≡ z → (pos x +ℤ t) +ℤ (pos y +ℤ b -ℤ t) ≡ (pos z +ℤ b)
edge_sum x y z t b e = eq_of_parts _ _ (
    omega (
      arith,
      e,
      +ℤ_parts (pos x +ℤ t) (pos y +ℤ b -ℤ t),
      +ℤ_parts (pos x) t,
      -ℤ_parts (pos y +ℤ b) t,
      +ℤ_parts (pos y) b,
      +ℤ_parts (pos z) b,
    ))

pos_zero_add : (t : ℤ) → (pos 0 +ℤ t) ≡ t
unfolding ◌+ℤ◌
pos_zero_add t = ground arith

all_but_none : (pos 100 -ℤ pos 0 ≡ pos 100) × (pos 100 -ℤ pos 100 ≡ pos 0)
unfolding ◌-ℤ◌
all_but_none = (refl, refl)

pub move_control-IsMoved :
    (c : CtrlProperties) (q : Rect) (dx dy : ℤ) (n m : ℕ)
    → dx ≡ pos n
    → dy ≡ pos m
    → keeps_row c ≡ true
    → IsMoved dx dy c.id q (move_control c dx dy q)
unfolding move_control
move_control-IsMoved c q dx dy n m e e' h =
    let at_left : c.dx ≡ left_share c.id = ground (arith, h) in
    let at_bottom : c.dh ≡ 100 = ground (arith, h) in
    elim (Bool-cases (is_video c.id)) [
      | inl video ↦
          let at_top : c.dy ≡ 0 = ground (arith, h, video) in
          record {
            left = rw at_left refl;
            top = rw (e', at_top, video, scaled_none m) (pos_zero_add q.top);
            bottom =
                rw (e', at_top, at_bottom, all_but_none.0, scaled_none m, scaled_whole m)
                  (edge_sum 0 m m q.top q.bottom (omega arith));
          }
      | inr other ↦
          let at_top : c.dy ≡ 100 = ground (arith, h, other) in
          record {
            left = rw at_left refl;
            top = rw (e', at_top, other, scaled_whole m) refl;
            bottom =
                rw (e', at_top, at_bottom, all_but_none.1, scaled_none m, scaled_whole m)
                  (edge_sum m 0 m q.top q.bottom (omega arith));
          }
    ]
