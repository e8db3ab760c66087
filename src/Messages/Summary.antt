-- ===== src/Messages/Summary.antt =====
-- DVToolsDlg.cpp, `OnDVCheckComplete`: what its summary says of the frames of a session.
use win_dv.Prelude.{◌≤◌, ◌<◌, ◌≡◌}
use Prim.{Unit}
use win_dv.DvError.{FrameErrorInfo}
use win_dv.Messages.{Piece, text}

-- A percentage is of something, and not more than all of it.
abbrev pub IsShare : Piece → Type 0
IsShare (Piece.text s) = Unit
IsShare (Piece.number n) = Unit
IsShare (Piece.signed n) = Unit
IsShare (Piece.percent part whole) = (part ≤ whole) × (0 < whole)
IsShare (Piece.problem ps) = Unit

abbrev pub IsClean : FrameErrorInfo → Type 0
IsClean f = (f.video_error_blocks ≡ 0) × (f.audio_error_blocks ≡ 0)
