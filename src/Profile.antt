-- ===== src/Profile.antt =====
-- DVToolsDlg.cpp: the settings that `OnInitDialog` restores from the profile and `OnClose` writes
-- to it. The profile of Windows, a key of the registry or an INI file, is a parameter. Numbers are
-- the 32-bit words of the profile.
pub mod Restored
use win_dv.Prelude.{
  ℕ, ◌+◌, ◌^◌, ◌<◌, Bool, true, false, not, ◌&&◌, leb, ltb, ◌==◌, if◌then◌else◌, List, [], ◌∷◌,
  Option, none, some, ◌≡◌,
}
use Prim.Native.String.{String}
use Prim.Native.Char.{Char, code}

-- A section and an entry.
abbrev pub Key : Type 0
Key = String × String

abbrev pub lower : ℕ → ℕ
lower n = if leb 65 n && leb n 90 then n + 32 else n

-- Windows does not tell names apart by case.
abbrev pub same_name : String → String → Bool
same_name String.[] String.[] = true
same_name String.[] (String.◌∷◌ d t) = false
same_name (String.◌∷◌ c s) String.[] = false
same_name (String.◌∷◌ c s) (String.◌∷◌ d t) = (lower (code c) == lower (code d)) && same_name s t

abbrev pub same_key : Key → Key → Bool
same_key (s, e) (s', e') = same_name e e' && same_name s s'

-- What is written under a key.
pub data Write : Type 0 where
  number : ℕ → Write
  text : List ℕ → Write

-- The profile: `GetProfileInt`, `GetProfileString` and the two calls that write, with what they
-- promise of a text that the profile can keep.
pub record Store : Type 1 where
  pub Disk : Type 0
  pub IsKept : List ℕ → Type 0
  pub write : Key → Write → Disk → Disk
  pub get_int : Disk → Key → ℕ → ℕ
  pub get_text : Disk → Key → List ℕ → List ℕ
  pub get_int-write :
      (k : Key) (n d : ℕ) (p : Disk) → n < 2 ^ 32 → get_int (write k (Write.number n) p) k d ≡ n
  pub get_text-write :
      (k : Key) (t d : List ℕ) (p : Disk) → IsKept t → get_text (write k (Write.text t) p) k d ≡ t
  pub get_int-other :
      (k k' : Key) (w : Write) (d : ℕ) (p : Disk)
      → same_key k k' ≡ false
      → get_int (write k w p) k' d ≡ get_int p k' d
  pub get_text-other :
      (k k' : Key) (w : Write) (d : List ℕ) (p : Disk)
      → same_key k k' ≡ false
      → get_text (write k w p) k' d ≡ get_text p k' d

-- What the dialog keeps from one run to the next; the window by its left, top, width and height.
pub record Settings : Type 0 where
  pub x : ℕ
  pub y : ℕ
  pub width : ℕ
  pub height : ℕ
  pub dv_ctrl : Bool
  pub selected_tool : ℕ
  pub directory : List ℕ
  pub source_device : List ℕ
  pub target_device : List ℕ
  pub source_file : List ℕ
  pub target_file : List ℕ
  pub type2_avi : Bool
  pub discontinuity_treshold : ℕ
  pub max_avi_frames : ℕ
  pub every_nth : ℕ
  pub auto_stop_timeout : ℕ
  pub enable_sha256 : Bool
  pub dtformat : List ℕ
  pub dtformat_history : List ℕ
  pub suffix_digits : ℕ
  pub avi_prefix : List ℕ
  pub avi_suffix : List ℕ
  pub record_preview : Bool

abbrev pub word : Bool → ℕ
word b = if b then 1 else 0

-- The calls of `OnClose`, in their order.
unfoldable pub profile_writes : Settings → List (Key × Write)
profile_writes s =
    (("MainWindow", "X"), Write.number s.x)
    ∷ (("MainWindow", "Y"), Write.number s.y)
    ∷ (("MainWindow", "W"), Write.number s.width)
    ∷ (("MainWindow", "H"), Write.number s.height)
    ∷ (("MainWindow", "DVControlEnabled"), Write.number (word s.dv_ctrl))
    ∷ (("MainWindow", "SelectedTool"), Write.number s.selected_tool)
    ∷ (("MainWindow", "WorkingDirectory"), Write.text s.directory)
    ∷ (("Capture", "DVDevice"), Write.text s.source_device)
    ∷ (("Record", "DVDevice"), Write.text s.target_device)
    ∷ (("Record", "File"), Write.text s.source_file)
    ∷ (("Capture", "File"), Write.text s.target_file)
    ∷ (("Capture", "Type2AVI"), Write.number (word s.type2_avi))
    ∷ (("Capture", "DiscontinuityTreshold"), Write.number s.discontinuity_treshold)
    ∷ (("Capture", "MaxAVIFrames"), Write.number s.max_avi_frames)
    ∷ (("Capture", "EveryNth"), Write.number s.every_nth)
    ∷ (("Capture", "AutoStopTimeout"), Write.number s.auto_stop_timeout)
    ∷ (("Capture", "SHA256"), Write.number (word s.enable_sha256))
    ∷ (("Capture", "DateTimeFormat"), Write.text s.dtformat)
    ∷ (("Capture", "DateTimeFormatHistory"), Write.text s.dtformat_history)
    ∷ (("Capture", "SuffixDigits"), Write.number s.suffix_digits)
    ∷ (("Record", "AVIPrefix"), Write.text s.avi_prefix)
    ∷ (("Record", "AVISuffix"), Write.text s.avi_suffix)
    ∷ (("Record", "Preview"), Write.number (word s.record_preview))
    ∷ []

-- The characters of a text.
abbrev codes : String → List ℕ
codes String.[] = []
codes (String.◌∷◌ c s) = code c ∷ codes s

module _ (st : Store) where
  -- `OnClose`: the calls one after another.
  unfoldable pub write_all : List (Key × Write) → st.Disk → st.Disk
  write_all [] p = p
  write_all ((k, w) ∷ ws) p = write_all ws (st.write k w p)

  -- `GetProfileInt(...) > 0`.
  abbrev get_flag : st.Disk → Key → Bool → Bool
  get_flag p k b = ltb 0 (st.get_int p k (word b))

  -- The part of `OnInitDialog` that reads the profile. `s` has what stands without one: the window
  -- as it was created, and the settings of the constructor of `CDV`. A window without a width or a
  -- height is not moved.
  unfoldable pub restore : st.Disk → Settings → Settings
  restore p s =
      let x = st.get_int p ("MainWindow", "X") 0 in
      let y = st.get_int p ("MainWindow", "Y") 0 in
      let width = st.get_int p ("MainWindow", "W") 0 in
      let height = st.get_int p ("MainWindow", "H") 0 in
      let moved = ltb 0 width && ltb 0 height in
      record {
        x = if moved then x else s.x;
        y = if moved then y else s.y;
        width = if moved then width else s.width;
        height = if moved then height else s.height;
        dv_ctrl = get_flag p ("MainWindow", "DVControlEnabled") s.dv_ctrl;
        selected_tool = st.get_int p ("MainWindow", "SelectedTool") 0;
        directory = st.get_text p ("MainWindow", "WorkingDirectory") (codes ".");
        source_device = st.get_text p ("Capture", "DVDevice") (codes "Microsoft DV Camera and VCR");
        target_device = st.get_text p ("Record", "DVDevice") (codes "Microsoft DV Camera and VCR");
        source_file = st.get_text p ("Record", "File") [];
        target_file = st.get_text p ("Capture", "File") [];
        type2_avi = get_flag p ("Capture", "Type2AVI") s.type2_avi;
        discontinuity_treshold =
            st.get_int p ("Capture", "DiscontinuityTreshold") s.discontinuity_treshold;
        max_avi_frames = st.get_int p ("Capture", "MaxAVIFrames") s.max_avi_frames;
        every_nth = st.get_int p ("Capture", "EveryNth") s.every_nth;
        auto_stop_timeout = st.get_int p ("Capture", "AutoStopTimeout") s.auto_stop_timeout;
        enable_sha256 = get_flag p ("Capture", "SHA256") s.enable_sha256;
        dtformat = st.get_text p ("Capture", "DateTimeFormat") (codes "%y-%m-%d_%H-%M");
        dtformat_history =
            st.get_text p ("Capture", "DateTimeFormatHistory")
              (codes
                "%y-%m-%d_%H-%M-%S\n%Y-%m-%d_%H-%M\n%Y-%m-%d_%H-%M-%S\n%Y%m%d-%H%M%S\n%a_%H-%M-%S");
        suffix_digits = st.get_int p ("Capture", "SuffixDigits") 2;
        avi_prefix = st.get_text p ("Record", "AVIPrefix") [];
        avi_suffix = st.get_text p ("Record", "AVISuffix") [];
        record_preview = get_flag p ("Record", "Preview") s.record_preview;
      }
