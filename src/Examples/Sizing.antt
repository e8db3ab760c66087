-- ===== src/Examples/Sizing.antt =====
-- The main window at two pixels for each unit of its template, which grows from 636 by 354 pixels to
-- 800 by 600.
use win_dv.Prelude.{◌+◌, ◌*◌, ◌≡◌, refl}
use win_dv.Prelude.Int.{pos}
use win_dv.Dialog.Layout.{ControlId, Rect, Placement, template, item_width}

abbrev rects : ControlId → Rect
rects i = record {
  left = pos (2 * (template i).x);
  top = pos (2 * (template i).y);
  right = pos (2 * ((template i).x + (template i).width));
  bottom = pos (2 * ((template i).y + (template i).height));
}

abbrev original : Rect
original = record { left = pos 0; top = pos 0; right = pos 636; bottom = pos 354 }

-- The picture, over the video, and the button of the settings.
abbrev corner : Placement
corner = record { x = pos 705; y = pos 452; width = pos 40; height = pos 40 }

abbrev button : Placement
button = record { x = pos 513; y = pos 506; width = pos 100; height = pos 28 }

-- Two tabs in a tab control of 624 pixels.
two_tabs : item_width 624 2 ≡ 249
unfolding item_width
two_tabs = refl
