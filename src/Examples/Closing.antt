-- ===== src/Examples/Closing.antt =====
-- A profile that is a list of the calls, and the settings of a window that was closed.
use win_dv.Prelude.{ℕ, true, false, if◌then◌else◌, List, [], ◌∷◌, ◌≡◌, refl, arith}
use Prim.{Unit}
use Prim.Native.String.{String}
use win_dv.Profile.{Key, Write, Store, Settings, same_name, same_key}

same_name_refl : (s : String) → same_name s s ≡ true
same_name_refl String.[] = refl
same_name_refl (String.◌∷◌ c s) = ground (arith, same_name_refl s)

same_key_refl : (k : Key) → same_key k k ≡ true
same_key_refl (s, e) = ground (arith, same_name_refl s, same_name_refl e)

abbrev number_or : Write → ℕ → ℕ
number_or (Write.number n) d = n
number_or (Write.text t) d = d

abbrev text_or : Write → List ℕ → List ℕ
text_or (Write.number n) d = d
text_or (Write.text t) d = t

abbrev read_int : List (Key × Write) → Key → ℕ → ℕ
read_int [] k d = d
read_int ((k', w) ∷ calls) k d = if same_key k' k then number_or w d else read_int calls k d

abbrev read_text : List (Key × Write) → Key → List ℕ → List ℕ
read_text [] k d = d
read_text ((k', w) ∷ calls) k d = if same_key k' k then text_or w d else read_text calls k d

abbrev calls_store : Store
calls_store = record {
  Disk = List (Key × Write);
  IsKept = λ t. Unit;
  write = λ k w p. (k, w) ∷ p;
  get_int = read_int;
  get_text = read_text;
  get_int-write = λ k n d p small. rw (same_key_refl k) refl;
  get_text-write = λ k t d p kept. rw (same_key_refl k) refl;
  get_int-other = λ k k' w d p e. rw (e) refl;
  get_text-other = λ k k' w d p e. rw (e) refl;
}

abbrev pub chosen : Settings
chosen = record {
  x = 10;
  y = 20;
  width = 640;
  height = 480;
  dv_ctrl = true;
  selected_tool = 1;
  directory = 46 ∷ [];
  source_device = [];
  target_device = [];
  source_file = 97 ∷ [];
  target_file = 98 ∷ [];
  type2_avi = false;
  discontinuity_treshold = 100;
  max_avi_frames = 30000;
  every_nth = 1;
  auto_stop_timeout = 5000;
  enable_sha256 = true;
  dtformat = [];
  dtformat_history = 37 ∷ 10 ∷ [];
  suffix_digits = 4;
  avi_prefix = [];
  avi_suffix = [];
  record_preview = true;
}
