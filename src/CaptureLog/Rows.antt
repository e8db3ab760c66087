-- ===== src/CaptureLog/Rows.antt =====
-- DShow.cpp, `WriteCaptureLog`: what is read from the log after one session or many.
use win_dv.Prelude.{
  not, ◌&&◌, ◌||◌, sub32, ℕ, zero, suc, ◌+◌, ◌/◌, ◌≡◌, refl, ap, sym, ◌∙◌, Bool, true, ltb, ◌==◌,
  if◌then◌else◌, if-cases, List, [], ◌∷◌, ◌++◌, map, length, none, some, arith, Each, Each-append,
  append-nil, append_assoc,
}
use win_dv.Prelude.Int.{ℤ, pos, ltb_ℤ}
use win_dv.Naming.{digits}
use win_dv.Checksum.{Texts, or_empty}
use win_dv.Checksum.Sidecar.{same_text_refl}
use win_dv.CaptureLog.{
  CaptureStats, Clock, row_fields, header_fields, reason_text, print_row, write_capture_log,
  even_odd_delta,
}
use win_dv.CaptureLog.Table.{
  IsCell, IsRow, read_table, print_table, print_table-append, read_table-print_table,
}

-- A session whose texts from outside have no comma and no newline.
pub record IsPlain (k : Clock) (s : CaptureStats) : Type 0 where
  pub plain_format : (t : ℤ) → IsCell (k.format t)
  pub plain_percent : (a b : ℕ) → IsCell (k.percent a b)
  pub plain_filename : IsCell s.filename
  pub plain_sha256 : IsCell s.sha256

digits-IsCell : (fuel n : ℕ) → IsCell (digits fuel n)
unfolding digits
digits-IsCell zero n = record {}
digits-IsCell (suc fuel) n =
    Each-append _ (if ltb n 10 then [] else digits fuel (n / 10)) _
      (if-cases IsCell (ltb n 10) [] (digits fuel (n / 10)) (λ e. record {})
        (λ e. digits-IsCell fuel (n / 10)))
      ((omega arith, omega arith), record {})

-- A text that is known is tested.
unfoldable pub is_cell : List ℕ → Bool
is_cell [] = true
is_cell (c ∷ cs) = not (c == 44 || c == 10) && is_cell cs

pub is_cell-IsCell : (cs : List ℕ) → is_cell cs ≡ true → IsCell cs
unfolding is_cell
is_cell-IsCell [] e = record {}
is_cell-IsCell (c ∷ cs) e =
    ((ground (arith, e), ground (arith, e)), is_cell-IsCell cs (ground (arith, e)))

reason_text-IsCell : (r : ℕ) → IsCell (reason_text r)
unfolding reason_text is_cell
reason_text-IsCell zero = is_cell-IsCell (reason_text 0) refl
reason_text-IsCell (suc zero) = is_cell-IsCell (reason_text 1) refl
reason_text-IsCell (suc (suc zero)) = is_cell-IsCell (reason_text 2) refl
reason_text-IsCell (suc (suc (suc zero))) = is_cell-IsCell (reason_text 3) refl
reason_text-IsCell (suc (suc (suc (suc r)))) =
    is_cell-IsCell (reason_text (suc (suc (suc (suc r))))) refl

-- A conditional of two texts.
either-IsCell : (b : Bool) (f g : List ℕ) → IsCell f → IsCell g → IsCell (if b then f else g)
either-IsCell b f g p q = if-cases IsCell b f g (λ e. p) (λ e. q)

-- A constant of the code.
constant-IsCell :
    (b : Bool) (f g : List ℕ) → is_cell f ≡ true → is_cell g ≡ true → IsCell (if b then f else g)
constant-IsCell b f g p q = either-IsCell b f g (is_cell-IsCell f p) (is_cell-IsCell g q)

-- Pairs, nested to the right.
infixr 20 ◌▸◌
◌▸◌ : {A B : Type 0} → A → B → A × B
p ▸ ps = (p, ps)

row_fields-IsRow : (k : Clock) (s : CaptureStats) → IsPlain k s → IsRow (row_fields k s)
unfolding row_fields is_cell
row_fields-IsRow k s p =
    let number = λ (n : ℕ). digits-IsCell (n + 1) n in
    let time =
      λ (t : ℤ). either-IsCell (ltb_ℤ (pos 0) t) (k.format t) [] (p.plain_format t) (record {}) in
    let e = s.error_stats in
    (
      λ empty. absurd (cc),
      p.plain_format k.now
          ▸ p.plain_filename
          ▸ constant-IsCell s.is_pal (80 ∷ 65 ∷ 76 ∷ []) (78 ∷ 84 ∷ 83 ∷ 67 ∷ []) refl refl
          ▸ number s.frame_count
          ▸ number s.dropped_frames
          ▸ time s.tape_start
          ▸ time s.tape_end
          ▸ number (sub32 k.tick s.start_tick / 1000)
          ▸ reason_text-IsCell s.stop_reason
          ▸ constant-IsCell s.check_passed (49 ∷ []) (48 ∷ []) refl refl
          ▸ number s.check_defect
          ▸ constant-IsCell s.check_index (49 ∷ []) (48 ∷ []) refl refl
          ▸ number e.frames_with_video_errors
          ▸ number e.total_video_error_blocks
          ▸ number e.total_audio_error_blocks
          ▸ either-IsCell (ltb 0 e.total_frames)
              (k.percent e.frames_with_video_errors e.total_frames) (k.percent 0 1)
              (p.plain_percent _ _) (p.plain_percent _ _)
          ▸ number e.worst_frame_number
          ▸ number (even_odd_delta e)
          ▸ p.plain_sha256
          ▸ record {},
    )

-- The row of a session.
abbrev pub row_of : Clock × CaptureStats → List (List ℕ)
row_of (k, s) = row_fields k s

abbrev pub AllPlain : List (Clock × CaptureStats) → Type 0
AllPlain = Each (λ p. IsPlain p.0 p.1)

-- The log after a list of sessions.
unfoldable pub log_all : (List ℕ → Bool) → Texts → List ℕ → List (Clock × CaptureStats) → Texts
log_all can_open disk path [] = disk
log_all can_open disk path ((k, s) ∷ ss) =
    log_all can_open (write_capture_log can_open k disk path s) path ss

write-new :
    (can_open : List ℕ → Bool) (k : Clock) (disk : Texts) (path : List ℕ) (s : CaptureStats)
    → can_open path ≡ true
    → disk path ≡ none
    → write_capture_log can_open k disk path s path
      ≡ some (print_table (header_fields ∷ row_fields k s ∷ []))
unfolding write_capture_log print_table
write-new can_open k disk path s opens fresh =
    ground (arith, opens, fresh, same_text_refl path, append-nil (print_row (row_fields k s)))

write-more :
    (can_open : List ℕ → Bool) (k : Clock) (disk : Texts) (path : List ℕ) (s : CaptureStats)
    (t : List (List (List ℕ)))
    → can_open path ≡ true
    → disk path ≡ some (print_table t)
    → write_capture_log can_open k disk path s path
      ≡ some (print_table (t ++ (row_fields k s ∷ [])))
unfolding write_capture_log
write-more can_open k disk path s t opens there =
    ground (arith, opens, there, same_text_refl path, print_table-append t (row_fields k s))

log_all-table :
    (can_open : List ℕ → Bool) (disk : Texts) (path : List ℕ) (ss : List (Clock × CaptureStats))
    (t : List (List (List ℕ)))
    → can_open path ≡ true
    → disk path ≡ some (print_table t)
    → log_all can_open disk path ss path ≡ some (print_table (t ++ map row_of ss))
unfolding log_all
log_all-table can_open disk path [] t opens there =
    there ∙ ap (λ u. some (print_table u)) (sym (append-nil t))
log_all-table can_open disk path ((k, s) ∷ ss) t opens there =
    log_all-table can_open (write_capture_log can_open k disk path s) path ss
      (t ++ (row_fields k s ∷ [])) opens (write-more can_open k disk path s t opens there)
    ∙ ap (λ u. some (print_table u)) (append_assoc t (row_fields k s ∷ []) (map row_of ss))

rows-IsRow : (ss : List (Clock × CaptureStats)) → AllPlain ss → Each IsRow (map row_of ss)
rows-IsRow [] plain = record {}
rows-IsRow ((k, s) ∷ ss) plain = (row_fields-IsRow k s plain.0, rows-IsRow ss plain.1)

are_cells : List (List ℕ) → Bool
are_cells [] = true
are_cells (f ∷ fs) = is_cell f && are_cells fs

are_cells-IsCell : (fs : List (List ℕ)) → are_cells fs ≡ true → Each IsCell fs
unfolding are_cells
are_cells-IsCell [] e = record {}
are_cells-IsCell (f ∷ fs) e =
    (is_cell-IsCell f (ground (arith, e)), are_cells-IsCell fs (ground (arith, e)))

header_fields-IsRow : IsRow header_fields
unfolding are_cells is_cell
header_fields-IsRow = (λ empty. absurd (cc), are_cells-IsCell header_fields refl)

-- A row has as many fields as the header.
abbrev pub IsFull : List (List ℕ) → Type 0
IsFull row = length row ≡ length header_fields

rows-IsFull : (ss : List (Clock × CaptureStats)) → Each IsFull (map row_of ss)
unfolding row_fields
rows-IsFull [] = record {}
rows-IsFull ((k, s) ∷ ss) = (refl, rows-IsFull ss)

-- After one session or more, the log of a path where no file was, if it opens, reads as the header
-- and the row of each session, in order, and each row has as many fields as the header. The texts
-- that a session gets from outside have no comma and no newline.
pub read_table-log_all :
    (can_open : List ℕ → Bool) (disk : Texts) (path : List ℕ) (k : Clock) (s : CaptureStats)
    (ss : List (Clock × CaptureStats))
    → can_open path ≡ true
    → disk path ≡ none
    → AllPlain ((k, s) ∷ ss)
    → (read_table (or_empty (log_all can_open disk path ((k, s) ∷ ss) path))
        ≡ header_fields ∷ map row_of ((k, s) ∷ ss))
      × Each IsFull (map row_of ((k, s) ∷ ss))
unfolding log_all
read_table-log_all can_open disk path k s ss opens fresh plain = (
  ap (λ o. read_table (or_empty o))
        (log_all-table can_open (write_capture_log can_open k disk path s) path ss
          (header_fields ∷ row_fields k s ∷ []) opens
          (write-new can_open k disk path s opens fresh))
      ∙ read_table-print_table (header_fields ∷ row_fields k s ∷ map row_of ss)
          (header_fields-IsRow, (row_fields-IsRow k s plain.0, rows-IsRow ss plain.1)),
  rows-IsFull ((k, s) ∷ ss),
)
