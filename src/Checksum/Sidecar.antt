-- ===== src/Checksum/Sidecar.antt =====
-- DShow.cpp, `WriteSHA256Sidecar` and `VerifyFileSHA256`: a sidecar that was written is read back.
use win_dv.Prelude.{
  Each, Each-append, Each-mono, ℕ, zero, suc, ◌*◌, ◌%◌, ◌≤◌, ◌<◌, ◌≡◌, ◌≢◌, refl, ap, ap₂, sym, ◌∙◌,
  List, [], ◌∷◌, ◌++◌, length, Option, none, some, arith, length-append, append_assoc, subst, Bool,
  true, false, take, drop, take-append, map, if◌then◌else◌, ◌==◌, ◌||◌, ◌-◌, leb, ltb, shr,
}
use Prim.{Unit}
use win_dv.CommandLine.{same_text}
use win_dv.Sha256.{Context, sha256_init}
use win_dv.Sha256.Bytes.{sha256_final, sha256_hex, hash_bytes, hex_digit}
use win_dv.Checksum.{
  Reads, Texts, compute_file_sha256, write_sha256_sidecar, verify_file_sha256, sidecar_path,
  sidecar_line, bare_name, lines, c_string, skip_spaces, strip_end, same_nocase, lower, entry_hash,
  find_entry, read_loop,
}

-- Not a control character.
abbrev pub IsPrintable : ℕ → Type 0
IsPrintable c = 32 ≤ c

abbrev pub StartsPlain : List ℕ → Type 0
StartsPlain [] = Unit
StartsPlain (c ∷ cs) = c ≢ 32

pub same_text_refl : (s : List ℕ) → same_text s s ≡ true
same_text_refl [] = refl
same_text_refl (c ∷ cs) = ground (arith, same_text_refl cs)

-- A line that fits is read in one piece.
lines-one :
    (room : ℕ) (cs : List ℕ)
    → length cs < room
    → Each IsPrintable cs
    → lines room (cs ++ (10 ∷ [])) ≡ (cs ++ (10 ∷ [])) ∷ []
unfolding lines
lines-one room [] fits plain = refl
lines-one room (c ∷ cs) fits plain =
    let goes_on : (c == 10 || leb room 1) ≡ false = ground (arith, plain.0, fits) in
    rw (goes_on, lines-one (room - 1) cs (omega (arith, fits)) plain.1) refl

c_string-plain : (cs : List ℕ) → Each IsPrintable cs → c_string (cs ++ (10 ∷ [])) ≡ cs ++ (10 ∷ [])
c_string-plain [] plain = refl
c_string-plain (c ∷ cs) plain = ground (arith, c_string-plain cs plain.1)

skip_spaces-plain : (cs : List ℕ) → StartsPlain cs → skip_spaces (cs ++ (10 ∷ [])) ≡ cs ++ (10 ∷ [])
skip_spaces-plain [] h = refl
skip_spaces-plain (c ∷ cs) h = ground arith

strip_end-plain : (cs : List ℕ) → Each IsPrintable cs → strip_end (cs ++ (10 ∷ [])) ≡ cs
strip_end-plain [] plain = refl
strip_end-plain (c ∷ []) plain = ground arith
strip_end-plain (c ∷ d ∷ cs) plain = rw (strip_end-plain (d ∷ cs) plain.1) refl

drop-length : (k : ℕ) (xs ys : List ℕ) → k ≡ length xs → drop k (xs ++ ys) ≡ ys
drop-length zero [] ys e = refl
drop-length zero (x ∷ xs) ys e = absurd (omega (arith, e))
drop-length (suc k) [] ys e = absurd (omega (arith, e))
drop-length (suc k) (x ∷ xs) ys e = drop-length k xs ys (omega (arith, e))

-- The digits of a digest are in lower case.

map-lower : (cs : List ℕ) → Each (λ c. lower c ≡ c) cs → map lower cs ≡ cs
map-lower [] h = refl
map-lower (c ∷ cs) h = ap₂ (λ d ds. d ∷ ds) h.0 (map-lower cs h.1)

abbrev IsHexDigit : ℕ → Type 0
IsHexDigit c = (lower c ≡ c) × IsPrintable c

hex_digit-IsHexDigit : (d : ℕ) → d < 16 → IsHexDigit (hex_digit d)
hex_digit-IsHexDigit d lt = (ground arith, ground arith)

sha256_hex-IsHexDigit : (bs : List ℕ) → Each IsHexDigit (sha256_hex bs)
unfolding sha256_hex
sha256_hex-IsHexDigit [] = record {}
sha256_hex-IsHexDigit (b ∷ bs) = (
  hex_digit-IsHexDigit (shr b 4 % 16) (omega arith),
  (hex_digit-IsHexDigit (b % 16) (omega arith), sha256_hex-IsHexDigit bs),
)

length-sha256_hex : (bs : List ℕ) → length (sha256_hex bs) ≡ length bs * 2
unfolding sha256_hex
length-sha256_hex [] = refl
length-sha256_hex (b ∷ bs) = omega (arith, length-sha256_hex bs)

length-sha256_final : (c : Context) → length (sha256_hex (sha256_final c)) ≡ 64
unfolding sha256_final hash_bytes
length-sha256_final c = length-sha256_hex (sha256_final c)

-- A line that is written, as its first part and the newline.
line_split : (hash name : List ℕ) → sidecar_line hash name ≡ (hash ++ (32 ∷ 42 ∷ name)) ++ (10 ∷ [])
line_split hash name = sym (append_assoc hash (32 ∷ 42 ∷ name) (10 ∷ []))

line-IsPrintable :
    (hash name : List ℕ)
    → Each IsPrintable hash
    → Each IsPrintable name
    → Each IsPrintable (hash ++ (32 ∷ 42 ∷ name))
line-IsPrintable hash name plain plain_name =
    Each-append IsPrintable hash (32 ∷ 42 ∷ name) plain (omega arith, (omega arith, plain_name))

-- The line is the entry of its file.
entry_hash-sidecar_line :
    (hash name : List ℕ)
    → length hash ≡ 64
    → Each IsPrintable hash
    → Each IsPrintable name
    → StartsPlain name
    → entry_hash name (sidecar_line hash name) ≡ some hash
unfolding entry_hash
entry_hash-sidecar_line hash name size plain plain_name start =
    let same : c_string (sidecar_line hash name) ≡ sidecar_line hash name =
      rw (line_split hash name) (c_string-plain _ (line-IsPrintable hash name plain plain_name)) in
    let long : ltb (length (sidecar_line hash name)) 66 ≡ false = ground (
      arith,
      length-append hash (32 ∷ 42 ∷ name ++ (10 ∷ [])),
      size,
      length-append name (10 ∷ []),
    ) in
    rw
      (
        same,
        long,
        drop-length 64 hash (32 ∷ 42 ∷ name ++ (10 ∷ [])) (sym size),
        skip_spaces-plain name start,
        strip_end-plain name plain_name,
        same_text_refl (map lower name),
      )
      (ap some (ap (take 64) same ∙ take-append 64 hash _ (sym size)))

find_entry-one :
    (name line hash : List ℕ)
    → entry_hash name line ≡ some hash
    → find_entry name (line ∷ []) ≡ some hash
unfolding find_entry
find_entry-one name line hash e = ground (arith, e)

find_entry-sidecar_line :
    (hash name : List ℕ)
    → length hash ≡ 64
    → Each IsPrintable hash
    → Each IsPrintable name
    → StartsPlain name
    → length name ≤ 444
    → find_entry name (lines 511 (sidecar_line hash name)) ≡ some hash
find_entry-sidecar_line hash name size plain plain_name start fits =
    let one : lines 511 (sidecar_line hash name) ≡ sidecar_line hash name ∷ [] =
      rw (line_split hash name) (
        lines-one 511 (hash ++ (32 ∷ 42 ∷ name))
          (omega (arith, length-append hash (32 ∷ 42 ∷ name), size, fits))
          (line-IsPrintable hash name plain plain_name)) in
    ap (find_entry name) one
    ∙ find_entry-one name (sidecar_line hash name) hash
        (entry_hash-sidecar_line hash name size plain plain_name start)

-- What `ComputeFileSHA256` gives is 64 digits, in lower case.
abbrev IsDigest : List ℕ → Type 0
IsDigest hash = (length hash ≡ 64) × Each IsHexDigit hash

compute-IsDigest :
    (memory : ℕ → ℕ) (file : Option Reads) (hash : List ℕ)
    → compute_file_sha256 memory file ≡ some hash
    → IsDigest hash
unfolding compute_file_sha256
compute-IsDigest memory none hash e = absurd (cc)
compute-IsDigest memory (some rs) hash e =
    let same : sha256_hex (sha256_final (read_loop rs (sha256_init memory))) ≡ hash = cc in
    subst IsDigest same (length-sha256_final _, sha256_hex-IsHexDigit _)

-- `VerifyFileSHA256` with an entry and a file that reads.
verify-entry :
    (memory : ℕ → ℕ) (disk : Texts) (files : List ℕ → Option Reads)
    (path text expected actual : List ℕ)
    → disk (sidecar_path path) ≡ some text
    → find_entry (bare_name path) (lines 511 text) ≡ some expected
    → compute_file_sha256 memory (files path) ≡ some actual
    → verify_file_sha256 memory disk files path ≡ (if same_nocase expected actual then 0 else 1)
unfolding verify_file_sha256
verify-entry memory disk files path text expected actual e f g = ground (arith, e, f, g)

-- A file that is replaced.
write_sha256_sidecar-text :
    (can_open : List ℕ → Bool) (disk : Texts) (path hash name : List ℕ)
    → can_open path ≡ true
    → write_sha256_sidecar can_open disk path hash name false path ≡ some (sidecar_line hash name)
unfolding write_sha256_sidecar
write_sha256_sidecar-text can_open disk path hash name opens = rw (opens, same_text_refl path) refl

-- A sidecar that is written with the digest of a file, which replaces an older one, is found by
-- `VerifyFileSHA256`: its result is 0 if the file then has the same digest, and else 1. The sidecar
-- and the file can be opened, and the bare name of the file has at most 444 characters, none below
-- 32, and does not start with a space.
pub verify-write_sha256_sidecar :
    (can_open : List ℕ → Bool) (disk : Texts) (memory memory' : ℕ → ℕ)
    (files files' : List ℕ → Option Reads) (path hash actual : List ℕ)
    → can_open (sidecar_path path) ≡ true
    → Each IsPrintable (bare_name path)
    → StartsPlain (bare_name path)
    → length (bare_name path) ≤ 444
    → compute_file_sha256 memory (files path) ≡ some hash
    → compute_file_sha256 memory' (files' path) ≡ some actual
    → verify_file_sha256 memory'
        (write_sha256_sidecar can_open disk (sidecar_path path) hash (bare_name path) false)
        files'
        path
      ≡ (if same_text hash actual then 0 else 1)
verify-write_sha256_sidecar can_open disk memory memory' files files' path hash actual opens plain
      start fits e e' =
    let (size, digits) = compute-IsDigest memory (files path) hash e in
    let (size', digits') = compute-IsDigest memory' (files' path) actual e' in
    let lowered : map lower hash ≡ hash =
      map-lower hash (Each-mono IsHexDigit (λ c. lower c ≡ c) hash (λ c h. h.0) digits) in
    let lowered' : map lower actual ≡ actual =
      map-lower actual (Each-mono IsHexDigit (λ c. lower c ≡ c) actual (λ c h. h.0) digits') in
    verify-entry memory' _ files' path (sidecar_line hash (bare_name path)) hash actual
      (write_sha256_sidecar-text can_open disk (sidecar_path path) hash (bare_name path) opens)
      (find_entry-sidecar_line hash (bare_name path) size
        (Each-mono IsHexDigit IsPrintable hash (λ c h. h.1) digits) plain start fits)
      e'
    ∙ ap₂ (λ s t. if same_text s t then 0 else 1) lowered lowered'
