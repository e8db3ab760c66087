-- ===== src/Queue/Spec.antt =====
-- What `CDVQueue` promises: a first-in first-out queue of at most `cap` frames, each cut to
-- `data_size` bytes.
use win_dv.Prelude.{
  ℕ, zero, suc, ltb, if◌then◌else◌, List, [], ◌∷◌, ◌++◌, Option, none, some, length,
}
use win_dv.Prelude.Int.{ℤ}
use win_dv.Dv.{Bytes}

-- A frame as a reader sees it: its duration, and the bytes that are valid.
pub record Frame : Type 0 where
  pub duration : ℤ
  pub bytes : List ℕ

-- The bytes `a, …, a + n - 1`.
abbrev pub bytes_from : ℕ → ℕ → Bytes → List ℕ
bytes_from zero a s = []
bytes_from (suc n) a s = s a ∷ bytes_from n (suc a) s

abbrev pub frame_of : ℕ → ℤ → Bytes → ℕ → Frame
frame_of data_size duration s len = record {
  duration = duration;
  bytes = bytes_from (if ltb data_size len then data_size else len) 0 s;
}

unfoldable pub put : ℕ → List Frame → Frame → Option (List Frame)
put cap q f = if ltb (length q) cap then some (q ++ (f ∷ [])) else none

unfoldable pub get : List Frame → Option (Frame × List Frame)
get [] = none
get (f ∷ q) = some (f, q)
