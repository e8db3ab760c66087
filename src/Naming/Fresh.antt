-- ===== src/Naming/Fresh.antt =====
-- DShow.cpp, `GetCaptureFilename`: the number that it chooses, against the names that are there.
use win_dv.Prelude.{
  ℕ, zero, suc, ◌+◌, ◌-◌, ◌*◌, ◌/◌, ◌%◌, ◌≤◌, ◌<◌, ◌≡◌, ◌≢◌, refl, sym, ap, ◌∙◌, subst, ◌⊎◌, inl,
  inr, Bool, true, false, not, ◌||◌, ltb, ◌==◌, if◌then◌else◌, List, [], ◌∷◌, ◌++◌, length,
  length-append, take, take-append, drop-append, get_elem?, some, arith, if-cases, Bool-cases,
}
use win_dv.Naming.{
  parse, Suffix, suffix_of, scan_name, scan_names, digits, zeros, padded, avi, choose_suffix,
  with_suffix, base_and_time, bare_size, get_capture_filename,
}
use win_dv.Prelude.Int.{ℤ}

-- What is read from a suffix that continues.
parse-append :
    (xs : List ℕ) (d : ℕ) (j k : ℕ)
    → d < 10
    → parse xs j ≡ some k
    → parse (xs ++ ((48 + d) ∷ [])) j ≡ some (k * 10 + d)
unfolding parse
parse-append [] d j k hd e = ground (arith, e)
parse-append (x ∷ xs) d j k hd e = ground (arith, e, parse-append xs d (j * 10 + (x - 48)) k hd)

-- A number is read back from its digits.
pub parse-digits : (fuel n : ℕ) → n < fuel → parse (digits fuel n) 0 ≡ some n
unfolding digits parse
parse-digits zero n h = absurd (omega arith)
parse-digits (suc fuel) n h = elim (Bool-cases (ltb n 10)) [
  | inl one ↦ ground (arith, one)
  | inr more ↦
      let front = parse-digits fuel (n / 10) (ground (arith, more)) in
      let whole : n / 10 * 10 + n % 10 ≡ n = omega arith in
      rw more (
        parse-append (digits fuel (n / 10)) (n % 10) 0 (n / 10) (omega arith) front ∙ ap some whole)
]

parse-zeros : (k : ℕ) (xs : List ℕ) → parse (zeros k ++ xs) 0 ≡ parse xs 0
unfolding parse
parse-zeros zero xs = refl
parse-zeros (suc k) xs = parse-zeros k xs

pub parse-padded : (w n : ℕ) → parse (padded w n) 0 ≡ some n
parse-padded w n =
    parse-zeros (w - length (digits (suc n) n)) (digits (suc n) n)
    ∙ parse-digits (suc n) n (omega arith)

length-zeros : (k : ℕ) → length (zeros k) ≡ k
length-zeros zero = refl
length-zeros (suc k) = ap suc (length-zeros k)

length-digits : (fuel n : ℕ) → 0 < length (digits (suc fuel) n)
unfolding digits
length-digits fuel n =
    omega
      (arith, length-append (if ltb n 10 then [] else digits fuel (n / 10)) ((48 + n % 10) ∷ []))

length-padded : (w n : ℕ) → (w ≤ length (padded w n)) × (0 < length (padded w n))
length-padded w n = omega (
  arith,
  length-append (zeros (w - length (digits (suc n) n))) (digits (suc n) n),
  length-zeros (w - length (digits (suc n) n)),
  length-digits n n,
)

padded-nonempty : (w n : ℕ) → padded w n ≢ []
padded-nonempty w n = λ e. let long = length-padded w n in omega (arith, long, ap length e)

-- A name is used up by the search so far: its number is shorter than those looked at, or as long
-- and smaller than the next one.
abbrev IsUsed : ℕ → List ℕ → Suffix → Type 0
IsUsed size name s =
    let l = length name - size - 5 in
    (j : ℕ)
    → 0 < l
    → parse (suffix_of size name) 0 ≡ some j
    → (l < s.width) ⊎ ((l ≡ s.width) × (j < s.next))

scan_name-IsUsed :
    (size : ℕ) (name : List ℕ) (s : Suffix) → IsUsed size name (scan_name size name s)
unfolding scan_name
scan_name-IsUsed size name s j pos_l e = ground (arith, e, pos_l)

scan_name-keeps :
    (size : ℕ) (name other : List ℕ) (s : Suffix)
    → IsUsed size other s
    → IsUsed size other (scan_name size name s)
unfolding scan_name
scan_name-keeps size name other s used j pos_l e = ground (arith, used j pos_l e)

scan_names-keeps :
    (size : ℕ) (names : List (List ℕ)) (other : List ℕ) (s : Suffix)
    → IsUsed size other s
    → IsUsed size other (scan_names size names s)
unfolding scan_names
scan_names-keeps size [] other s used = used
scan_names-keeps size (name ∷ names) other s used =
    scan_names-keeps size names other (scan_name size name s)
      (scan_name-keeps size name other s used)

scan_names-IsUsed :
    (size : ℕ) (names : List (List ℕ)) (i : ℕ) (name : List ℕ) (s : Suffix)
    → get_elem? names i ≡ some name
    → IsUsed size name (scan_names size names s)
unfolding scan_names
scan_names-IsUsed size [] i name s e = cc
scan_names-IsUsed size (x ∷ names) zero name s e =
    subst (λ n. IsUsed size n (scan_names size names (scan_name size x s))) (ground (arith, e))
      (scan_names-keeps size names x (scan_name size x s) (scan_name-IsUsed size x s))
scan_names-IsUsed size (x ∷ names) (suc i) name s e =
    scan_names-IsUsed size names i name (scan_name size x s) e

-- The name that is found for a bare name and a suffix.
abbrev pub numbered : List ℕ → List ℕ → List ℕ
numbered bare suffix = bare ++ (46 ∷ suffix ++ avi)

length-numbered :
    (bare suffix : List ℕ) → length (numbered bare suffix) ≡ length bare + length suffix + 5
length-numbered bare suffix =
    omega (arith, length-append bare (46 ∷ suffix ++ avi), length-append suffix avi)

suffix_of-numbered :
    (bare suffix : List ℕ) → suffix_of (length bare) (numbered bare suffix) ≡ suffix
suffix_of-numbered bare suffix =
    ap (take (length (numbered bare suffix) - length bare - 5))
      (drop-append (length bare + 1) bare 46 (suffix ++ avi) refl)
    ∙ take-append _ suffix avi (omega (arith, length-numbered bare suffix))

-- A number that is at least as long as the widest one used, and the next after those of its
-- length, is not used.
fresh :
    (bare : List ℕ) (s : Suffix) → ¬ IsUsed (length bare) (numbered bare (padded s.width s.next)) s
fresh bare s used =
    let text = padded s.width s.next in
    let long = length-padded s.width s.next in
    let size = length-numbered bare text in
    let read : parse (suffix_of (length bare) (numbered bare text)) 0 ≡ some s.next =
      ap (λ t. parse t 0) (suffix_of-numbered bare text) ∙ parse-padded s.width s.next in
    let bad = used s.next (omega (arith, long, size)) read in omega (arith, bad, long, size)

abbrev scanned : ℕ → ℕ → List (List ℕ) → Suffix
scanned size ndigits found = scan_names size found (record { width = ndigits; next = 0 })

choose_suffix-cases :
    (size ndigits : ℕ) (found : List (List ℕ)) (plain : Bool)
    → let s = scanned size ndigits found in
      (choose_suffix size ndigits found plain ≡ padded s.width s.next)
      ⊎ (choose_suffix size ndigits found plain ≡ [])
unfolding choose_suffix
choose_suffix-cases size ndigits found plain =
    let s = scanned size ndigits found in
    if-cases (λ t. (t ≡ padded s.width s.next) ⊎ (t ≡ [])) (not (s.width == 0) || plain) _ _
      (λ h. inl refl) (λ h. inr refl)

choose_suffix_fresh :
    (bare : List ℕ) (ndigits : ℕ) (found : List (List ℕ)) (plain : Bool) (i : ℕ) (name : List ℕ)
    → get_elem? found i ≡ some name
    → choose_suffix (length bare) ndigits found plain ≢ []
    → numbered bare (choose_suffix (length bare) ndigits found plain) ≢ name
choose_suffix_fresh bare ndigits found plain i name at chosen same =
    elim (choose_suffix-cases (length bare) ndigits found plain) [
      | inr no_number ↦ chosen no_number
      | inl number ↦
          let s = scanned (length bare) ndigits found in
          let it : name ≡ numbered bare (padded s.width s.next) =
            sym same ∙ ap (numbered bare) number in
          fresh bare s (
            subst (λ n. IsUsed (length bare) n s) it
              (scan_names-IsUsed (length bare) found i name (record { width = ndigits; next = 0 })
                at))
    ]

-- No number is chosen only if there is no file with the plain name.
choose_suffix_plain :
    (size ndigits : ℕ) (found : List (List ℕ)) (plain : Bool)
    → choose_suffix size ndigits found plain ≡ []
    → plain ≡ false
unfolding choose_suffix
choose_suffix_plain size ndigits found false e = refl
choose_suffix_plain size ndigits found true e =
    let s = scanned size ndigits found in
    absurd (
      if-cases (λ t. t ≢ []) (not (s.width == 0) || true) (padded s.width s.next) []
        (λ h. padded-nonempty s.width s.next) (λ h. absurd (ground (arith, h))) e)

with_suffix-absent :
    (present : List ℕ → Bool) (named suffix : List ℕ)
    → (suffix ≡ [] → present (named ++ avi) ≡ false)
    → (suffix ≢ [] → present (numbered named suffix) ≡ false)
    → present (with_suffix named suffix) ≡ false
with_suffix-absent present named [] plain number = plain refl
with_suffix-absent present named (c ∷ cs) plain number = number (λ e. cc)

module _ (format : ℤ → List ℕ) (now : ℤ) (find_numbered : List ℕ → List (List ℕ))
    (present : List ℕ → Bool) (base : List ℕ) (ndigits : ℕ) (tim : ℤ) (bare : List ℕ) where
  -- If the search of a directory finds the bare name of every file that is present with the base
  -- and a suffix, and `bare` is as long as the base without its directory, then the path made for
  -- a capture is that of no file that is present: a capture overwrites nothing.
  pub get_capture_filename_absent :
      let named = base_and_time format now base tim in
      bare_size named ≡ length bare
      → ((suffix : List ℕ)
          → present (numbered named suffix) ≡ true
          → (i : ℕ) × (get_elem? (find_numbered named) i ≡ some (numbered bare suffix)))
      → present (get_capture_filename format now find_numbered present base ndigits tim) ≡ false
  unfolding get_capture_filename
  get_capture_filename_absent size listed =
      with_suffix-absent present named suffix
        (choose_suffix_plain (bare_size named) ndigits (find_numbered named)
          (present (named ++ avi)))
        (λ chosen. elim (Bool-cases (present (numbered named suffix))) [
          | inr absent ↦ absent
          | inl there ↦
              let (i, at) = listed suffix there in
              absurd (
                choose_suffix_fresh bare ndigits (find_numbered named) (present (named ++ avi)) i
                  (numbered bare suffix) at
                  (subst
                    (λ n.
                      choose_suffix n ndigits (find_numbered named) (present (named ++ avi)) ≢ [])
                    size chosen)
                  (ap
                    (λ n.
                      numbered bare
                        (choose_suffix n ndigits (find_numbered named) (present (named ++ avi))))
                    (sym size)))
        ])
    where
      named : List ℕ
      named = base_and_time format now base tim

      suffix : List ℕ
      suffix =
          choose_suffix (bare_size named) ndigits (find_numbered named) (present (named ++ avi))
