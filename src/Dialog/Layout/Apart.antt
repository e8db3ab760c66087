-- ===== src/Dialog/Layout/Apart.antt =====
-- DVToolsDlg.cpp, `CDVToolsDlg::OnSize`: where the controls lie in a window that has grown.
use win_dv.Prelude.{ℕ, ◌+◌, ◌≡◌, ◌⊎◌, Bool, true, not, ◌&&◌, ◌||◌, leb, List, [], ◌∷◌}
use win_dv.Prelude.Int.{ℤ, ◌+ℤ◌, ◌-ℤ◌, ◌≤ℤ◌}
use win_dv.Dialog.Layout.{
  ControlId, CtrlProperties, Rect, Placement, Box, move_control, has_bit, template,
}

-- In the template.
abbrev pub is_left_of : Box → Box → Bool
is_left_of s t = leb (s.x + s.width) t.x

abbrev pub is_above : Box → Box → Bool
is_above s t = leb (s.y + s.height) t.y

-- Two controls do not overlap in the template.
abbrev pub are_apart : Box → Box → Bool
are_apart s t = is_left_of s t || is_left_of t s || is_above s t || is_above t s

abbrev kept_before : CtrlProperties → CtrlProperties → Bool
kept_before p q =
    (is_left_of (template p.id) (template q.id) && leb p.dw q.dx)
    || (is_above (template p.id) (template q.id) && leb p.dh q.dy)

abbrev passes : ℕ → CtrlProperties → CtrlProperties → Bool
passes sel p q =
    not (has_bit p.tab_mask sel && has_bit q.tab_mask sel)
    || not (are_apart (template p.id) (template q.id))
    || kept_before p q
    || kept_before q p

abbrev passes_all : (CtrlProperties → Bool) → List CtrlProperties → Bool
passes_all f [] = true
passes_all f (c ∷ cs) = f c && passes_all f cs

abbrev all_pairs : (CtrlProperties → CtrlProperties → Bool) → List CtrlProperties → Bool
all_pairs f [] = true
all_pairs f (c ∷ cs) = passes_all (f c) cs && all_pairs f cs

-- The edges of each control keep their order.
abbrev in_order : CtrlProperties → Bool
in_order c = leb c.dx c.dw && leb c.dy c.dh

-- One control lies to the left of another or above it.
abbrev pub IsBefore : Placement → Placement → Type 0
IsBefore r s = ((r.x +ℤ r.width) ≤ℤ s.x) ⊎ ((r.y +ℤ r.height) ≤ℤ s.y)

-- The controls of a dialog lie to the left of and above one another as in the template.
pub record IsPlaced (rects : ControlId → Rect) : Type 0 where
  pub beside :
      (a b : ControlId)
      → is_left_of (template a) (template b) ≡ true
      → (rects a).right ≤ℤ (rects b).left
  pub below :
      (a b : ControlId)
      → is_above (template a) (template b) ≡ true
      → (rects a).bottom ≤ℤ (rects b).top

module _ (rects : ControlId → Rect) (placed : IsPlaced rects) (original : Rect) (cx cy : ℤ)
    (wide : original.right ≤ℤ cx) (high : original.bottom ≤ℤ cy) where
  abbrev moved : CtrlProperties → Placement
  moved c = move_control c (cx -ℤ original.right) (cy -ℤ original.bottom) (rects c.id)
