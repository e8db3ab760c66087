-- ===== src/DeviceList.antt =====
-- VideoDeviceSel.cpp, and `OnVsrcSel` and `OnVdstSel` of DVToolsDlg.cpp: a device is chosen from a
-- list. The devices that Windows finds are an argument.
use win_dv.Prelude.{
  ℕ, ◌+◌, Bool, ltb, if◌then◌else◌, List, [], ◌∷◌, Option, none, some, length, get_elem?, zero, suc,
  ◌≡◌, refl, ap, sym, ◌∙◌, arith,
}

-- The loop of `CVideoDeviceSel::OnInitDialog`, with its second increment: the entries that the list
-- box gets,
unfoldable pub entries : List (List ℕ) → List (List ℕ)
entries [] = []
entries (device ∷ []) = device ∷ []
entries (device ∷ skipped ∷ devices) = device ∷ entries devices

-- and `m_selected`, from the place `i` on. `same` compares two names.
unfoldable pub selected :
    (List ℕ → List ℕ → Bool) → List ℕ → ℕ → List (List ℕ) → Option ℕ → Option ℕ
selected same name i [] sel = sel
selected same name i (device ∷ []) sel = if same device name then some i else sel
selected same name i (device ∷ skipped ∷ devices) sel =
    selected same name (i + 2) devices (if same device name then some i else sel)

-- The entry that `SetCurSel` marks: none if there is no such entry.
unfoldable pub marked : (List ℕ → List ℕ → Bool) → List ℕ → List (List ℕ) → Option ℕ
marked same name devices = elim (selected same name 0 devices none) [
  | none ↦ none
  | some i ↦ if ltb i (length (entries devices)) then some i else none
]

-- `OnVsrcSel` and `OnVdstSel` after OK with the entry `i` marked: the name of the device; without a
-- mark OK is ignored.
unfoldable pub chosen_device : List (List ℕ) → Option ℕ → List ℕ → List ℕ
chosen_device devices none name = name
chosen_device devices (some i) name = elim (get_elem? devices i) [
  | none ↦ name
  | some device ↦ device
]

-- The entry at a place is the device at twice that place.
entries-double :
    (devices : List (List ℕ)) (i : ℕ) → get_elem? (entries devices) i ≡ get_elem? devices (i + i)
unfolding entries
entries-double [] i = refl
entries-double (device ∷ []) zero = refl
entries-double (device ∷ []) (suc i) =
    let twice : suc i + suc i ≡ suc (suc (i + i)) = omega arith in
    sym (ap (get_elem? (device ∷ [])) twice)
entries-double (device ∷ skipped ∷ devices) zero = refl
entries-double (device ∷ skipped ∷ devices) (suc i) =
    let twice : suc i + suc i ≡ suc (suc (i + i)) = omega arith in
    entries-double devices i ∙ sym (ap (get_elem? (device ∷ skipped ∷ devices)) twice)

-- Of three devices the third is the second entry, and the second device is taken for it.
third_device :
    (get_elem? (entries ((97 ∷ []) ∷ (98 ∷ []) ∷ (99 ∷ []) ∷ [])) 1 ≡ some (99 ∷ []))
    × (chosen_device ((97 ∷ []) ∷ (98 ∷ []) ∷ (99 ∷ []) ∷ []) (some 1) [] ≡ 98 ∷ [])
unfolding entries chosen_device
third_device = (refl, refl)
