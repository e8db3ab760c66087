-- ===== src/Graphs/Listing.antt =====
-- DShow.cpp, `EnumVideoDevices`: the devices that it lists, and the one that it binds.
use win_dv.Prelude.{
  ℕ, ◌≡◌, refl, sym, ap, ◌∙◌, Bool, true, false, ◌&&◌, if◌then◌else◌, List, [], ◌∷◌, ◌++◌, Option,
  none, some, arith, Each, map, Bool-cases, Option-cases, inl, inr,
}
use win_dv.Graphs.{Ref, Hr, Answer, Object, Cause, returned, thrown, release, >>=-returned}
use win_dv.Graphs.Devices.{
  Device, Machine, is_wanted, device_round, device_rounds, enum_video_devices,
}
use win_dv.CommandLine.{same_text}
use win_dv.Graphs.Rounds.{keep_if, is_listed, IsReadable, with_device, device_round_lem}

-- The names of the devices listed.
abbrev pub listed_names : List Device → List (List ℕ)
listed_names ds = map (λ (d : Device). d.name) (keep_if is_listed ds)

-- The first of the devices that are listed under a name.
abbrev pub first_named : List ℕ → List Device → Option Device
first_named name [] = none
first_named name (d ∷ ds) =
    if is_listed d && same_text name d.name then some d else first_named name ds

-- The interfaces after a device is bound, or none.
abbrev pub with_bound : Option Device → Object → Object
with_bound none o = o
with_bound (some d) o = record o { held = Ref.device ∷ o.held }

listed_names_cons :
    (d : Device) (ds : List Device)
    → (if is_listed d then d.name ∷ [] else []) ++ listed_names ds ≡ listed_names (d ∷ ds)
listed_names_cons d ds = elim (Bool-cases (is_listed d)) [
  | inl yes_listed ↦ rw yes_listed refl
  | inr not_listed ↦ rw not_listed refl
]

same_text_sym : (s t : List ℕ) → same_text s t ≡ same_text t s
same_text_sym [] [] = refl
same_text_sym [] (y ∷ t) = refl
same_text_sym (x ∷ s) [] = refl
same_text_sym (x ∷ s) (y ∷ t) = ground (arith, same_text_sym s t)

and-false : (b : Bool) → (b && false) ≡ false
and-false true = refl
and-false false = refl

-- What the rounds after the first return, with the names of all.
device_rounds_cons :
    (d : Device) (ds : List Device) (wanted : Option (List ℕ)) (found last : Option Device)
    (hit : Bool) (o o' : Object)
    → IsReadable d
    → (is_listed d && is_wanted wanted found d.name) ≡ hit
    → device_rounds ds wanted (if hit then some d else found) (with_device hit o)
      ≡ some (returned (listed_names ds, last), o')
    → device_rounds (d ∷ ds) wanted found o ≡ some (returned (listed_names (d ∷ ds), last), o')
unfolding device_rounds
device_rounds_cons d ds wanted found last hit o o' readable e rest =
    let first = (if is_listed d then d.name ∷ [] else []) in
    >>=-returned (device_round d wanted found) _ (first, (if hit then some d else found)) o
      (with_device hit o)
      (device_round_lem d wanted found o readable
        ∙ ap (λ b. some (returned (first, (if b then some d else found)), with_device b o)) e)
    ∙ >>=-returned (device_rounds ds wanted (if hit then some d else found)) _ _ (with_device hit o)
        o' rest
    ∙ ap (λ names. some (returned (names, last), o')) (listed_names_cons d ds)

-- No device is bound if none is asked for, or one is bound already.
device_rounds_over :
    (ds : List Device) (wanted : Option (List ℕ)) (found : Option Device) (o : Object)
    → ((name : List ℕ) → is_wanted wanted found name ≡ false)
    → Each IsReadable ds
    → device_rounds ds wanted found o ≡ some (returned (listed_names ds, found), o)
unfolding device_rounds
device_rounds_over [] wanted found o over readable = refl
device_rounds_over (d ∷ ds) wanted found o over readable =
    device_rounds_cons d ds wanted found found false o o readable.0
      (ap (λ w. is_listed d && w) (over d.name) ∙ and-false (is_listed d))
      (device_rounds_over ds wanted found o over readable.1)

device_rounds_named :
    (ds : List Device) (name : List ℕ) (o : Object)
    → Each IsReadable ds
    → device_rounds ds (some name) none o
      ≡ some (returned (listed_names ds, first_named name ds), with_bound (first_named name ds) o)
unfolding device_rounds
device_rounds_named [] name o readable = refl
device_rounds_named (d ∷ ds) name o readable =
    let wanted : (is_listed d && same_text d.name name) ≡ (is_listed d && same_text name d.name) =
      ap (λ b. is_listed d && b) (same_text_sym d.name name) in
    elim (Bool-cases (is_listed d && same_text name d.name)) [
      | inl hit ↦
          device_rounds_cons d ds (some name) none (some d) true o (with_device true o) readable.0
            (wanted ∙ hit)
            (device_rounds_over ds (some name) (some d) (with_device true o) (λ n. refl) readable.1)
          ∙ ap
              (λ b.
                let bound = (if b then some d else first_named name ds) in
                some (returned (listed_names (d ∷ ds), bound), with_bound bound o))
              (sym hit)
      | inr other ↦
          device_rounds_cons d ds (some name) none (first_named name ds) false o _ readable.0
            (wanted ∙ other) (device_rounds_named ds name o readable.1)
          ∙ ap
              (λ b.
                let bound = (if b then some d else first_named name ds) in
                some (returned (listed_names (d ∷ ds), bound), with_bound bound o))
              (sym other)
    ]

-- A machine whose enumerators can be had.
abbrev pub working : List Device → Machine
working ds = record { create_enum = Hr.s_ok; create_class = Hr.s_ok; devices = ds }

released :
    (b : Option Device) (o : Object)
    → release Ref.moniker_enum (with_bound b (record o { held = Ref.moniker_enum ∷ o.held }))
      ≡ some (returned tt, with_bound b o)
released (some d) o = refl
released none o = refl

-- What the call with a name answers.
abbrev pub bound_or_thrown :
    List (List ℕ)
    → Option Device
    → Object
    → Option (Answer (List (List ℕ) × Option Device) × Object)
bound_or_thrown names (some d) o =
    some (returned (names, some d), record o { held = Ref.device ∷ o.held })
bound_or_thrown names none o = some (thrown Cause.device_not_found, o)

pub enum_video_devices_lem :
    (ds : List Device) (name : List ℕ) (o : Object)
    → Each IsReadable ds
    → (enum_video_devices (working ds) none o ≡ some (returned (listed_names ds, none), o))
      × (enum_video_devices (working ds) (some name) o
          ≡ bound_or_thrown (listed_names ds) (first_named name ds) o)
unfolding enum_video_devices
enum_video_devices_lem ds name o readable =
    let seen = record o { held = Ref.moniker_enum ∷ o.held } in
    (
      >>=-returned (device_rounds ds none none) _ _ seen _
          (device_rounds_over ds none none seen (λ n. refl) readable),
      >>=-returned (device_rounds ds (some name) none) _ _ seen _
            (device_rounds_named ds name seen readable)
          ∙ (elim (Option-cases (first_named name ds)) [
            | inl absent ↦ rw absent refl
            | inr (d, hit) ↦ rw hit refl
          ]),
    )
