-- ===== src/Graphs/Rounds.antt =====
-- DShow.cpp, `EnumVideoDevices`: a round of its loop, the test of one device.
use win_dv.Prelude.{
  ℕ, ◌≡◌, refl, ◌∙◌, Bool, true, false, ◌&&◌, ◌||◌, if◌then◌else◌, List, [], ◌∷◌, Option, none,
  some, Bool-cases, inl, inr,
}
use win_dv.Graphs.{
  Ref, succeeded, is_ok, Object, Cause, returned, Action, ◌>>◌, check, check_ok, release, pure,
  >>=-returned,
}
use win_dv.Graphs.Devices.{
  Device, scan_types, scan_pin, scan_pins, is_dv, is_wanted, test_device, read_device, device_round,
}

abbrev pub any_of {ℓ} : {A : Type ℓ} → (A → Bool) → List A → Bool
any_of f [] = false
any_of f (x ∷ xs) = f x || any_of f xs

abbrev pub keep_if {ℓ} : {A : Type ℓ} → (A → Bool) → List A → List A
keep_if f [] = []
keep_if f (x ∷ xs) = if f x then x ∷ keep_if f xs else keep_if f xs

-- A pin has a type that is DV.
abbrev pub pin_has_dv : Option (List Bool) → Bool
pin_has_dv none = false
pin_has_dv (some types) = any_of (λ t. t) types

abbrev pub has_dv : Option (List (Option (List Bool))) → Bool
has_dv none = false
has_dv (some ps) = any_of pin_has_dv ps

-- A device of which a DV type is found.
abbrev pub is_listed : Device → Bool
is_listed d = succeeded d.storage && (d.bound && has_dv d.pins)

abbrev pub IsReadable : Device → Type 0
IsReadable d = succeeded d.storage ≡ true → is_ok d.read ≡ true

scan_types_lem : (types : List Bool) → scan_types types ≡ any_of (λ t. t) types
scan_types_lem [] = refl
scan_types_lem (true ∷ ts) = refl
scan_types_lem (false ∷ ts) = scan_types_lem ts

scan_pin_lem :
    (p : Option (List Bool)) (o : Object) → scan_pin p o ≡ some (returned (pin_has_dv p), o)
scan_pin_lem none o = refl
scan_pin_lem (some types) o = rw (scan_types_lem types) refl

scan_pins_lem :
    (ps : List (Option (List Bool))) (o : Object)
    → scan_pins ps o ≡ some (returned (any_of pin_has_dv ps), o)
unfolding scan_pins
scan_pins_lem [] o = refl
scan_pins_lem (p ∷ ps) o =
    let seen = record o { held = Ref.pin ∷ o.held } in
    >>=-returned (scan_pin p) _ (pin_has_dv p) seen seen (scan_pin_lem p seen)
    ∙ (elim (Bool-cases (pin_has_dv p)) [
      | inl dv ↦ rw dv refl
      | inr none_here ↦ rw none_here (scan_pins_lem ps o)
    ])

is_dv_lem :
    (pins : Option (List (Option (List Bool)))) (o : Object)
    → is_dv pins o ≡ some (returned (has_dv pins), o)
is_dv_lem none o = refl
is_dv_lem (some ps) o =
    let seen = record o { held = Ref.pin_enum ∷ o.held } in
    >>=-returned (scan_pins ps) _ (any_of pin_has_dv ps) seen seen (scan_pins_lem ps seen)

-- The interfaces after a device: one more if it is bound now.
abbrev pub with_device : Bool → Object → Object
with_device true o = record o { held = Ref.device ∷ o.held }
with_device false o = o

-- What a round returns, and the interfaces after it, if the device is listed (`l`) and is the one
-- that is wanted (`w`).
abbrev pub Rounded :
    Device → Bool → Bool → Option Device → Object → Action (List (List ℕ) × Option Device) → Type 0
Rounded d l w found o m =
    m o
    ≡ some (
      returned ((if l then d.name ∷ [] else []), (if l && w then some d else found)),
      with_device (l && w) o,
    )

test_device_lem :
    (d : Device) (wanted : Option (List ℕ)) (found : Option Device) (o : Object)
    → Rounded d (has_dv d.pins) (is_wanted wanted found d.name) found o (test_device d wanted found)
test_device_lem d wanted found o =
    let seen = record o { held = Ref.test_filter ∷ o.held } in
    >>=-returned (is_dv d.pins) _ (has_dv d.pins) seen seen (is_dv_lem d.pins seen)
    ∙ (elim (Bool-cases (has_dv d.pins)) [
      | inl dv ↦ elim (Bool-cases (is_wanted wanted found d.name)) [
        | inl hit ↦ rw (dv, hit) refl
        | inr other ↦ rw (dv, other) refl
      ]
      | inr no_dv ↦ rw no_dv refl
    ])

test_bound :
    (b : Bool) (d : Device) (wanted : Option (List ℕ)) (found : Option Device) (o : Object)
    → Rounded d
        (b && has_dv d.pins)
        (is_wanted wanted found d.name)
        found
        o
        (if b then test_device d wanted found else pure ([], found))
test_bound true d wanted found o = test_device_lem d wanted found o
test_bound false d wanted found o = refl

read_device_lem :
    (d : Device) (wanted : Option (List ℕ)) (found : Option Device) (o : Object)
    → is_ok d.read ≡ true
    → Rounded d
        (d.bound && has_dv d.pins)
        (is_wanted wanted found d.name)
        found
        o
        (read_device d wanted found)
read_device_lem d wanted found o readable =
    let seen = record o { held = Ref.bag ∷ o.held } in
    >>=-returned (check d.read Cause.error) _ tt seen seen
      (check_ok d.read Cause.error seen readable)
    ∙ test_bound d.bound d wanted found o

-- The moniker of the round is released.
moniker_released :
    (b : Bool) (o : Object) (a : List (List ℕ) × Option Device)
    → (release Ref.moniker >> pure a) (with_device b (record o { held = Ref.moniker ∷ o.held }))
      ≡ some (returned a, with_device b o)
moniker_released true o a = refl
moniker_released false o a = refl

pub device_round_lem :
    (d : Device) (wanted : Option (List ℕ)) (found : Option Device) (o : Object)
    → IsReadable d
    → Rounded d (is_listed d) (is_wanted wanted found d.name) found o (device_round d wanted found)
unfolding device_round
device_round_lem d wanted found o readable =
    let seen = record o { held = Ref.moniker ∷ o.held } in
    elim (Bool-cases (succeeded d.storage)) [
      | inl stored ↦ rw stored (
          >>=-returned (read_device d wanted found) _ _ seen _
            (read_device_lem d wanted found seen (readable stored))
          ∙ moniker_released _ o _)
      | inr absent ↦ rw absent refl
    ]
