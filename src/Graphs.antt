-- ===== src/Graphs.antt =====
-- DShow.cpp: what the graph objects do with the interfaces of DirectShow, counted reference by
-- reference. A constructor or destructor is an action on the object's interfaces; what a call of
-- DirectShow answers is an argument. An interface that is used or released although the object does
-- not hold it is a fault.
pub mod Devices
pub mod Rounds
pub mod Listing
pub mod Frames
pub mod Objects
pub mod Outputs
pub mod Pins
pub mod Ends
pub mod Lifetimes
use win_dv.Prelude.{
  ℕ, Bool, true, false, ◌==◌, if◌then◌else◌, List, [], ◌∷◌, ◌++◌, Option, none, some, ◌≡◌, refl, ap,
}

-- The pointers of the constructors: members, and those of a block.
pub data Ref : Type 0 where
  graph_builder filter_graph media_control media_seeking media_event own_filter : Ref
  transport dropped_frames video_window : Ref
  dev_enum moniker_enum moniker bag test_filter pin_enum pin type_enum device : Ref
  file_source splitter dv_mux mux file_sink file_sink2 dv_splitter decoder dv_dec : Ref

-- Their numbers, to tell them apart.
abbrev number : Ref → ℕ
number Ref.graph_builder = 0
number Ref.filter_graph = 1
number Ref.media_control = 2
number Ref.media_seeking = 3
number Ref.media_event = 4
number Ref.own_filter = 5
number Ref.transport = 6
number Ref.dropped_frames = 7
number Ref.video_window = 8
number Ref.dev_enum = 9
number Ref.moniker_enum = 10
number Ref.moniker = 11
number Ref.bag = 12
number Ref.test_filter = 13
number Ref.pin_enum = 14
number Ref.pin = 15
number Ref.type_enum = 16
number Ref.device = 17
number Ref.file_source = 18
number Ref.splitter = 19
number Ref.dv_mux = 20
number Ref.mux = 21
number Ref.file_sink = 22
number Ref.file_sink2 = 23
number Ref.dv_splitter = 24
number Ref.decoder = 25
number Ref.dv_dec = 26

-- An HRESULT: S_OK, another success, or a failure.
pub data Hr : Type 0 where
  s_ok s_false failed : Hr

abbrev pub succeeded : Hr → Bool
succeeded Hr.s_ok = true
succeeded Hr.s_false = true
succeeded Hr.failed = false

abbrev pub is_ok : Hr → Bool
is_ok Hr.s_ok = true
is_ok Hr.s_false = false
is_ok Hr.failed = false

-- What the graph is told, in order.
pub data Command : Type 0 where
  run stop end_of_stream wait : Command

-- The interfaces held, once for each reference; the member pointers that are not NULL; and the
-- commands so far, the last one first.
pub record Object : Type 0 where
  pub held : List Ref
  pub pointers : List Ref
  pub commands : List Command

abbrev pub nothing : Object
nothing = record { held = []; pointers = []; commands = [] }

-- `m_cause` of a CDShowException.
pub data Cause : Type 0 where
  device_not_found error : Cause

pub data Answer (A : Type 0) : Type 0 where
  returned : A → Answer A
  thrown : Cause → Answer A

-- `none` is a fault.
abbrev pub Action : Type 0 → Type 0
Action A = Object → Option (Answer A × Object)

-- What follows an action that has ended so.
abbrev pub continue :
    {A B : Type 0} → Option (Answer A × Object) → (A → Action B) → Option (Answer B × Object)
continue none f = none
continue (some (returned a, o)) f = f a o
continue (some (thrown c, o)) f = some (thrown c, o)

infixl 5 ◌>>=◌ ◌>>◌
abbrev pub ◌>>=◌ : {A B : Type 0} → Action A → (A → Action B) → Action B
◌>>=◌ m f o = continue (m o) f

pub >>=-returned :
    {A B : Type 0} (m : Action A) (f : A → Action B) (a : A) (o o' : Object)
    → m o ≡ some (returned a, o')
    → (m >>= f) o ≡ f a o'
>>=-returned m f a o o' e = ap (λ x. continue x f) e

pub >>=-thrown :
    {A B : Type 0} (m : Action A) (f : A → Action B) (c : Cause) (o o' : Object)
    → m o ≡ some (thrown c, o')
    → (m >>= f) o ≡ some (thrown c, o')
>>=-thrown m f c o o' e = ap (λ x. continue x f) e

abbrev pub ◌>>◌ : {B : Type 0} → Action (Unit {0}) → Action B → Action B
m >> k = m >>= λ _. k

abbrev pub pure : {A : Type 0} → A → Action A
pure a o = some (returned a, o)

abbrev pub same_ref : Ref → Ref → Bool
same_ref r s = number r == number s

abbrev pub is_in : Ref → List Ref → Bool
is_in r [] = false
is_in r (s ∷ rs) = if same_ref r s then true else is_in r rs

-- One reference less.
abbrev pub without : Ref → List Ref → List Ref
without r [] = []
without r (s ∷ rs) = if same_ref r s then rs else s ∷ without r rs

-- `CHECK_HR`.
abbrev pub check : Hr → Cause → Action (Unit {0})
check Hr.s_ok c o = some (returned tt, o)
check Hr.s_false c o = some (thrown c, o)
check Hr.failed c o = some (thrown c, o)

pub check_ok :
    (h : Hr) (c : Cause) (o : Object) → is_ok h ≡ true → check h c o ≡ some (returned tt, o)
check_ok Hr.s_ok c o e = refl
check_ok Hr.s_false c o e = cc
check_ok Hr.failed c o e = cc

abbrev pub throw : {A : Type 0} → Cause → Action A
throw c o = some (thrown c, o)

-- A call of an interface.
abbrev pub use_ref : Ref → Action (Unit {0})
use_ref r o = if is_in r o.held then some (returned tt, o) else none

-- A call that delivers an interface, to a variable of the block or to a member.
abbrev pub take : Ref → Action (Unit {0})
take r o = some (returned tt, record o { held = r ∷ o.held })

abbrev pub take_member : Ref → Action (Unit {0})
take_member r o = some (returned tt, record o { held = r ∷ o.held; pointers = r ∷ o.pointers })

-- `Release`. The pointer is not set to NULL by it.
abbrev pub release : Ref → Action (Unit {0})
release r o =
    if is_in r o.held then some (returned tt, record o { held = without r o.held }) else none

-- `p = NULL`.
abbrev pub clear : Ref → Action (Unit {0})
clear r o = some (returned tt, record o { pointers = without r o.pointers })

-- `if (p) ...`.
abbrev pub if_set : Ref → Action (Unit {0}) → Action (Unit {0})
if_set r m o = if is_in r o.pointers then m o else some (returned tt, o)

abbrev pub when : Bool → Action (Unit {0}) → Action (Unit {0})
when true m = m
when false m = pure tt

abbrev pub command : Command → Action (Unit {0})
command c o = some (returned tt, record o { commands = c ∷ o.commands })

-- A constructor's body after its bases: when it throws, the destructors of the bases run.
abbrev pub rethrow :
    Cause → Option (Answer (Unit {0}) × Object) → Option (Answer (Unit {0}) × Object)
rethrow c none = none
rethrow c (some (r, o)) = some (thrown c, o)

abbrev pub unwind :
    Option (Answer (Unit {0}) × Object) → Action (Unit {0}) → Option (Answer (Unit {0}) × Object)
unwind none bases = none
unwind (some (returned a, o)) bases = some (returned a, o)
unwind (some (thrown c, o)) bases = rethrow c (bases o)

abbrev pub or_unwind : Action (Unit {0}) → Action (Unit {0}) → Action (Unit {0})
or_unwind body bases o = unwind (body o) bases
