-- ===== src/Dialog/Tabs.antt =====
-- DVToolsDlg.cpp, `CDVToolsDlg`: that the pipeline fits the tab and that the timer runs while there
-- is one, whatever is pressed and whatever the worker threads do.
use win_dv.Cdv.{Cdv}
use win_dv.Dialog.{Dialog}
