-- ===== src/Dialog/Layout.antt =====
-- DVToolsDlg.cpp, the layout of the main window: `ctrlProperties`, `OnSize`, the controls that
-- `OnSelchangeToolTab` shows, and `SetToolTabItemSize`. Sizes are of type `int` and stand as
-- integers without a bound: a window of 2^31 / 100 pixels is none. `Box` and `template` are the
-- dialog IDD_DVTOOLS_DIALOG of WinDV.rc.
pub mod Axes
pub mod Moved
pub mod Apart
use win_dv.Prelude.{ℕ, ◌+◌, ◌*◌, ◌/◌, ◌%◌, ◌^◌, Bool, not, ◌==◌, if◌then◌else◌, List, [], ◌∷◌, map}
use win_dv.Prelude.Int.{ℤ, pos, negsuc, sub_ℕ, ◌+ℤ◌, ◌-ℤ◌, eqb_ℤ}

-- The controls, IDC_VIDEO and so on.
pub data ControlId : Type 0 where
  video : ControlId
  picture : ControlId
  tool_tab : ControlId
  vsrc_l : ControlId
  vsrc : ControlId
  vsrc_sel : ControlId
  fsrc_l : ControlId
  fsrc : ControlId
  fsrc_sel : ControlId
  fdst_l : ControlId
  fdst : ControlId
  fdst_sel : ControlId
  vdst_l : ControlId
  vdst : ControlId
  vdst_sel : ControlId
  config : ControlId
  dv_ctrl : ControlId
  capture : ControlId
  record_button : ControlId
  cancel : ControlId
  counter : ControlId
  status : ControlId
  status2 : ControlId
  status3 : ControlId

abbrev pub xl : ℕ
xl = 25

abbrev pub xr : ℕ
xr = 75

-- TAB_ALL, TAB_CAPTURE, TAB_RECORD, and the last two together.
abbrev pub tab_all : ℤ
tab_all = negsuc 0

abbrev pub tab_capture : ℤ
tab_capture = pos 1

abbrev pub tab_record : ℤ
tab_record = pos 2

abbrev pub tab_both : ℤ
tab_both = pos 3

pub record CtrlProperties : Type 0 where
  pub id : ControlId
  pub dx : ℕ
  pub dw : ℕ
  pub dy : ℕ
  pub dh : ℕ
  pub tab_mask : ℤ

abbrev pub props : ControlId → ℕ → ℕ → ℕ → ℕ → ℤ → CtrlProperties
props id dx dw dy dh tab_mask = record {
  id = id;
  dx = dx;
  dw = dw;
  dy = dy;
  dh = dh;
  tab_mask = tab_mask;
}

unfoldable pub ctrl_properties : List CtrlProperties
ctrl_properties =
    (props ControlId.video 0 100 0 100 tab_all)
    ∷ (props ControlId.picture xr xr 100 100 tab_all)
    ∷ (props ControlId.tool_tab xl xr 100 100 tab_all)
    ∷ (props ControlId.vsrc_l xl xl 100 100 tab_capture)
    ∷ (props ControlId.vsrc xl xr 100 100 tab_capture)
    ∷ (props ControlId.vsrc_sel xr xr 100 100 tab_capture)
    ∷ (props ControlId.fsrc_l xl xl 100 100 tab_record)
    ∷ (props ControlId.fsrc xl xr 100 100 tab_record)
    ∷ (props ControlId.fsrc_sel xr xr 100 100 tab_record)
    ∷ (props ControlId.fdst_l xl xl 100 100 tab_capture)
    ∷ (props ControlId.fdst xl xr 100 100 tab_capture)
    ∷ (props ControlId.fdst_sel xr xr 100 100 tab_capture)
    ∷ (props ControlId.vdst_l xl xl 100 100 tab_record)
    ∷ (props ControlId.vdst xl xr 100 100 tab_record)
    ∷ (props ControlId.vdst_sel xr xr 100 100 tab_record)
    ∷ (props ControlId.config xr xr 100 100 tab_both)
    ∷ (props ControlId.dv_ctrl xr xr 100 100 tab_all)
    ∷ (props ControlId.capture xr xr 100 100 tab_capture)
    ∷ (props ControlId.record_button xr xr 100 100 tab_record)
    ∷ (props ControlId.cancel xr xr 100 100 tab_both)
    ∷ (props ControlId.counter xr xr 100 100 tab_all)
    ∷ (props ControlId.status xl xr 100 100 tab_all)
    ∷ (props ControlId.status2 xr xr 100 100 tab_all)
    ∷ (props ControlId.status3 xr xr 100 100 tab_all)
    ∷ []

pub record Rect : Type 0 where
  pub left : ℤ
  pub top : ℤ
  pub right : ℤ
  pub bottom : ℤ

-- The arguments of `MoveWindow`.
pub record Placement : Type 0 where
  pub x : ℤ
  pub y : ℤ
  pub width : ℤ
  pub height : ℤ

-- The product over 100, towards zero.
unfoldable pub scaled : ℤ → ℤ → ℤ
scaled (pos p) (pos n) = pos (p * n / 100)
scaled (pos p) (negsuc n) = sub_ℕ 0 (p * (n + 1) / 100)
scaled (negsuc p) (pos n) = sub_ℕ 0 ((p + 1) * n / 100)
scaled (negsuc p) (negsuc n) = pos ((p + 1) * (n + 1) / 100)

-- A control, with the changes of the window's width and height and where it was.
unfoldable pub move_control : CtrlProperties → ℤ → ℤ → Rect → Placement
move_control c dx dy r = record {
  x = scaled (pos c.dx) dx +ℤ r.left;
  y = scaled (pos c.dy) dy +ℤ r.top;
  width = scaled (pos c.dw -ℤ pos c.dx) dx +ℤ r.right -ℤ r.left;
  height = scaled (pos c.dh -ℤ pos c.dy) dy +ℤ r.bottom -ℤ r.top;
}

-- `OnSize`, with `m_originalRects` by control: the windows that are moved, if the baseline is
-- known.
unfoldable pub on_size : Rect → (ControlId → Rect) → ℤ → ℤ → List (ControlId × Placement)
on_size original rects cx cy =
    if eqb_ℤ original.right (pos 0)
    then []
    else map
        (λ c. (c.id, move_control c (cx -ℤ original.right) (cy -ℤ original.bottom) (rects c.id)))
        ctrl_properties

-- `(1 << sel) & mask`.
unfoldable pub has_bit : ℤ → ℕ → Bool
has_bit (pos m) sel = m / 2 ^ sel % 2 == 1
has_bit (negsuc m) sel = not (m / 2 ^ sel % 2 == 1)

-- The controls with whether `OnSelchangeToolTab` shows them.
unfoldable pub shown_controls : ℕ → List (ControlId × Bool)
shown_controls sel = map (λ c. (c.id, has_bit c.tab_mask sel)) ctrl_properties

-- `SetToolTabItemSize`: the width of an item.
unfoldable pub item_width : ℕ → ℕ → ℕ
item_width width count = width * 2 / (count * 2 + 1)

-- A control of the template.
pub record Box : Type 0 where
  pub x : ℕ
  pub y : ℕ
  pub width : ℕ
  pub height : ℕ

abbrev pub box : ℕ → ℕ → ℕ → ℕ → Box
box x y width height = record { x = x; y = y; width = width; height = height }

unfoldable pub template : ControlId → Box
template ControlId.video = box 0 0 318 112
template ControlId.picture = box 291 103 20 20
template ControlId.tool_tab = box 3 114 312 62
template ControlId.vsrc_l = box 6 133 44 8
template ControlId.vsrc = box 53 131 117 12
template ControlId.vsrc_sel = box 172 131 14 12
template ControlId.fsrc_l = box 6 133 44 8
template ControlId.fsrc = box 53 131 117 12
template ControlId.fsrc_sel = box 172 131 14 12
template ControlId.fdst_l = box 6 148 44 8
template ControlId.fdst = box 53 146 117 12
template ControlId.fdst_sel = box 172 146 14 12
template ControlId.vdst_l = box 6 148 44 8
template ControlId.vdst = box 53 146 117 12
template ControlId.vdst_sel = box 172 146 14 12
template ControlId.config = box 195 130 50 14
template ControlId.dv_ctrl = box 249 133 8 8
template ControlId.capture = box 259 130 50 14
template ControlId.record_button = box 259 130 50 14
template ControlId.cancel = box 259 145 50 14
template ControlId.counter = box 198 148 44 8
template ControlId.status = box 5 162 221 12
template ControlId.status2 = box 227 162 61 12
template ControlId.status3 = box 289 162 24 12
