-- ===== src/Graphs/Devices.antt =====
-- DShow.cpp, `EnumVideoDevices`: the devices that Windows lists, those of them that deliver DV, and
-- the one with a name. `BindToObject` delivers a filter exactly if it succeeds.
use win_dv.Prelude.{
  ℕ, Bool, true, false, ◌&&◌, if◌then◌else◌, List, [], ◌∷◌, ◌++◌, Option, none, some,
}
use win_dv.CommandLine.{same_text}
use win_dv.Graphs.{
  Ref, Hr, succeeded, is_ok, Cause, returned, Action, ◌>>=◌, ◌>>◌, pure, is_in, without, check,
  throw, use_ref, take, release, when,
}

-- A device: what binding to its storage and reading its name answer, its name, whether its filter
-- can be had, and its pins if they can be listed. A pin has its media types if they can be listed,
-- each with whether it is MEDIATYPE_Interleaved.
pub record Device : Type 0 where
  pub storage : Hr
  pub read : Hr
  pub name : List ℕ
  pub bound : Bool
  pub pins : Option (List (Option (List Bool)))

-- The device enumerator, the enumerator of the category, and the devices in it.
pub record Machine : Type 0 where
  pub create_enum : Hr
  pub create_class : Hr
  pub devices : List Device

-- The loop over the media types of a pin, which ends at the first that is DV.
abbrev pub scan_types : List Bool → Bool
scan_types [] = false
scan_types (t ∷ ts) = if t then true else scan_types ts

abbrev pub scan_pin : Option (List Bool) → Action Bool
scan_pin none = pure false
scan_pin (some types) = do take Ref.type_enum; release Ref.type_enum; pure (scan_types types)

-- The loop over the pins of a device, likewise.
unfoldable pub scan_pins : List (Option (List Bool)) → Action Bool
scan_pins [] = pure false
scan_pins (p ∷ ps) =
    let rest = scan_pins ps in
    do take Ref.pin; dv ← scan_pin p; release Ref.pin; if dv then pure true else rest

abbrev pub is_dv : Option (List (Option (List Bool))) → Action Bool
is_dv none = pure false
is_dv (some ps) = do take Ref.pin_enum; dv ← scan_pins ps; release Ref.pin_enum; pure dv

-- `*pfilter = pTestFilter`.
abbrev pub hand_over : Action (Unit {0})
hand_over o =
    if is_in Ref.test_filter o.held
    then some (returned tt, record o { held = Ref.device ∷ without Ref.test_filter o.held })
    else none

-- Whether this is the device that was asked for, and none was found before.
abbrev pub is_wanted : Option (List ℕ) → Option Device → List ℕ → Bool
is_wanted none found name = false
is_wanted (some wanted) (some d) name = false
is_wanted (some wanted) none name = same_text name wanted

-- The filter of a device is kept, or released; its name is listed, or not.
abbrev bind_device : Device → Action (List (List ℕ) × Option Device)
bind_device d = do hand_over; pure (d.name ∷ [], some d)

abbrev drop_filter : List (List ℕ) → Option Device → Action (List (List ℕ) × Option Device)
drop_filter names found = do release Ref.test_filter; pure (names, found)

-- The part of a round after the name: the names added, and the device that is bound now.
abbrev pub test_device :
    Device → Option (List ℕ) → Option Device → Action (List (List ℕ) × Option Device)
test_device d wanted found = do
  take Ref.test_filter
  dv ← is_dv d.pins
  if dv && is_wanted wanted found d.name
      then bind_device d
      else drop_filter (if dv then d.name ∷ [] else []) found

abbrev pub read_device :
    Device → Option (List ℕ) → Option Device → Action (List (List ℕ) × Option Device)
read_device d wanted found = do
  take Ref.bag
  check d.read Cause.error
  release Ref.bag
  if d.bound then test_device d wanted found else pure ([], found)

-- A round of the loop over the devices.
unfoldable pub device_round :
    Device → Option (List ℕ) → Option Device → Action (List (List ℕ) × Option Device)
device_round d wanted found = do
  take Ref.moniker
  r ← (if succeeded d.storage then read_device d wanted found else pure ([], found))
  release Ref.moniker
  pure r

unfoldable pub device_rounds :
    List Device → Option (List ℕ) → Option Device → Action (List (List ℕ) × Option Device)
device_rounds [] wanted found = pure ([], found)
device_rounds (d ∷ ds) wanted found = do
  r ← device_round d wanted found
  r' ← device_rounds ds wanted r.1
  pure (r.0 ++ r'.0, r'.1)

-- `EnumVideoDevices`; without a name it only lists. It returns the names and the device of
-- `*pfilter`.
unfoldable pub enum_video_devices :
    Machine → Option (List ℕ) → Action (List (List ℕ) × Option Device)
enum_video_devices m wanted = do
  when (succeeded m.create_enum) (take Ref.dev_enum)
  check m.create_enum Cause.error
  use_ref Ref.dev_enum
  when (is_ok m.create_class) (take Ref.moniker_enum)
  release Ref.dev_enum
  check m.create_class Cause.device_not_found
  r ← device_rounds m.devices wanted none
  release Ref.moniker_enum
  elim wanted [
    | none ↦ pure r
    | some name ↦ elim r.1 [ some d ↦ pure (r.0, some d) | none ↦ throw Cause.device_not_found ]
  ]
