-- ===== src/Graphs/Lifetimes.antt =====
-- DShow.cpp: what the graph objects hold from their construction to their destruction.
use win_dv.Prelude.{
  ℕ, ◌≡◌, refl, sym, subst, Bool, true, false, ◌&&◌, ◌||◌, List, [], ◌∷◌, Option, none, some, Each,
}
use win_dv.Graphs.{
  Ref, Hr, without, succeeded, Object, nothing, Cause, Action, ◌>>◌, is_in, or_unwind,
}
use win_dv.Graphs.Devices.{Device, enum_video_devices}
use win_dv.Graphs.Rounds.{IsReadable}
use win_dv.Graphs.Listing.{
  working, listed_names, first_named, bound_or_thrown, enum_video_devices_lem,
}
use win_dv.Graphs.Objects.{
  Call, Answers, open_filter_graph, close_filter_graph, open_output_graph, close_input_graph,
  close_output_graph, close_control, connect_reader, open_avi_reader, connect_input, open_input,
  close_input,
}
use win_dv.Graphs.Outputs.{
  connect_output, open_output, close_output, connect_writer, open_avi_writer, close_avi_writer,
  set_mode, connect_monitor, open_monitor, close_monitor,
}
use win_dv.Graphs.Ends.{Ends, Ends-returned, Ends-when-true, Ends-bind, ends_rules}

abbrev pub graph_members : List Ref
graph_members =
    Ref.media_event ∷ Ref.media_seeking ∷ Ref.media_control ∷ Ref.filter_graph ∷ Ref.graph_builder
    ∷ []

-- All of the interfaces are among these.
abbrev pub only : List Ref → List Ref → Bool
only rs [] = true
only rs (s ∷ held) = is_in s rs && only rs held

-- Where a constructor throws, either the filter graph was not complete, and only its interfaces are
-- still held, or only those of `lost`.
abbrev pub Loses : List Ref → Cause → Object → Type 0
Loses lost c o = (only graph_members o.held || only lost o.held) ≡ true

-- A destructor makes no fault, does not throw, and leaves only the interfaces `left` held.
abbrev pub Closes : Action (Unit {0}) → List Ref → Object → Type 0
Closes destruct left o = Ends (λ t o'. only left o'.held ≡ true) (λ c o'. ⊥) (destruct o)

-- An object from its construction to its destruction.
abbrev pub Lifetime : Action (Unit {0}) → Action (Unit {0}) → List Ref → List Ref → Type 0
Lifetime construct destruct left lost =
    Ends (λ t o. Closes destruct left o) (Loses lost) (construct nothing)

abbrev graph_built : Object
graph_built = record { held = graph_members; pointers = graph_members; commands = [] }

open_filter_graph-Ends :
    {R : Unit {0} → Object → Type 0} {T : Cause → Object → Type 0} (a : Answers)
    → ((o : Object) → only graph_members o.held ≡ true → T Cause.error o)
    → R tt graph_built
    → Ends R T (open_filter_graph a nothing)
unfolding open_filter_graph
open_filter_graph-Ends a bad good = search (ends_rules, good, bad) depth 40

-- The object after `CInputGraph` or `COutputGraph`.
abbrev own_built : Object
own_built = record {
  held = Ref.own_filter ∷ graph_members;
  pointers = Ref.own_filter ∷ graph_members;
  commands = [];
}

graph_lost :
    (lost : List Ref) (o : Object) → only graph_members o.held ≡ true → Loses lost Cause.error o
graph_lost lost o e = rw e refl

-- What follows the bases.
own_filter-Lifetime :
    (a : Answers) (body destruct : Action (Unit {0})) (left lost : List Ref)
    → Ends (λ t o. Closes destruct left o) (Loses lost) (body own_built)
    → Lifetime (open_output_graph a >> body) destruct left lost
own_filter-Lifetime a body destruct left lost rest =
    search (Ends-bind, Ends-returned, open_filter_graph-Ends, graph_lost lost, rest) depth 20

-- A device is found, or the exception says that there is none.
enum_video_devices-Ends :
    {R : List (List ℕ) × Option Device → Object → Type 0} {T : Cause → Object → Type 0}
    (ds : List Device) (name : List ℕ) (o : Object)
    → Each IsReadable ds
    → ((d : Device) → R (listed_names ds, some d) (record o { held = Ref.device ∷ o.held }))
    → T Cause.device_not_found o
    → Ends R T (enum_video_devices (working ds) (some name) o)
enum_video_devices-Ends {R} {T} ds name o readable good bad =
    subst (Ends R T) (sym (enum_video_devices_lem ds name o readable).1)
      (elim (first_named name ds) as (λ b. Ends R T (bound_or_thrown (listed_names ds) b o)) [
        | some d ↦ record { at = good d }
        | none ↦ record { at = bad }
      ])

ruleset life_rules = (ends_rules, enum_video_devices-Ends)

abbrev pub lost_by_reader : List Ref
lost_by_reader = Ref.file_source ∷ Ref.splitter ∷ Ref.dv_mux ∷ []

reader-Lifetime : (a : Answers) → Lifetime (open_avi_reader a) close_input_graph [] lost_by_reader
unfolding open_avi_reader connect_reader close_filter_graph
reader-Lifetime a =
    own_filter-Lifetime a (or_unwind (connect_reader a) close_input_graph) close_input_graph []
      lost_by_reader (search ends_rules depth 80 fits 4000)

abbrev pub lost_by_input : List Ref
lost_by_input = Ref.device ∷ Ref.pin ∷ Ref.dropped_frames ∷ []

input-Lifetime :
    (ds : List Device) (name : List ℕ) (a : Answers)
    → Each IsReadable ds
    → Lifetime (open_input (working ds) name a) close_input [] lost_by_input
unfolding open_input connect_input close_input close_filter_graph
input-Lifetime ds name a readable =
    own_filter-Lifetime a
      (or_unwind (connect_input (working ds) name a) (close_control >> close_input_graph))
      close_input [] lost_by_input (search (life_rules, readable) depth 80 fits 4000)

output-Lifetime :
    (ds : List Device) (name : List ℕ) (a : Answers)
    → Each IsReadable ds
    → Lifetime (open_output (working ds) name a) close_output [] (Ref.device ∷ [])
unfolding open_output connect_output close_output close_filter_graph
output-Lifetime ds name a readable =
    own_filter-Lifetime a
      (or_unwind (connect_output (working ds) name a) (close_control >> close_output_graph))
      close_output [] (Ref.device ∷ []) (search (life_rules, readable) depth 80 fits 4000)

abbrev pub lost_by_writer : List Ref
lost_by_writer = Ref.mux ∷ Ref.dv_splitter ∷ []

set_mode-Ends :
    {R : Unit {0} → Object → Type 0} {T : Cause → Object → Type 0} (h : Hr) (o : Object)
    → R tt (record o { held = without Ref.file_sink o.held })
    → is_in Ref.file_sink o.held ≡ true
    → Ends R T (set_mode h o)
set_mode-Ends Hr.s_ok o good there = rw there (record { at = good })
set_mode-Ends Hr.s_false o good there = rw there (record { at = good })
set_mode-Ends Hr.failed o good there = rw there (record { at = good })

writer-Lifetime :
    (type2 : Bool) (a : Answers)
    → succeeded (a.hr Call.set_output) ≡ true
    → Lifetime (open_avi_writer type2 a) close_avi_writer [] lost_by_writer
unfolding open_avi_writer connect_writer close_avi_writer close_filter_graph
writer-Lifetime true a opened =
    own_filter-Lifetime a (or_unwind (connect_writer true a) close_output_graph) close_avi_writer []
      lost_by_writer
      (search (set_mode-Ends, Ends-when-true _ _ _ opened, ends_rules) depth 80 fits 4000)
writer-Lifetime false a opened =
    own_filter-Lifetime a (or_unwind (connect_writer false a) close_output_graph) close_avi_writer
      [] lost_by_writer
      (search (set_mode-Ends, Ends-when-true _ _ _ opened, ends_rules) depth 80 fits 4000)

abbrev pub lost_by_monitor : List Ref
lost_by_monitor = Ref.video_window ∷ Ref.dv_dec ∷ []

monitor-Lifetime :
    (a : Answers) → Lifetime (open_monitor a) close_monitor (Ref.dv_dec ∷ []) lost_by_monitor
unfolding open_monitor connect_monitor close_monitor close_filter_graph
monitor-Lifetime a =
    own_filter-Lifetime a (or_unwind (connect_monitor a) close_output_graph) close_monitor
      (Ref.dv_dec ∷ []) lost_by_monitor (search ends_rules depth 80 fits 4000)

-- Each graph object that is built and destroyed makes no fault, its destructor does not throw, and
-- it leaves no interface held, except that the preview leaves that of the decoder; and where a
-- constructor throws, either the filter graph was not complete and only its interfaces are still
-- held, or only the few that are named for the object, never its own filter, its control or its
-- graph. The device enumerators can be had, the name of each device can be read, and the file of an
-- AVI writer can be opened.
pub objects-Lifetime :
    (ds : List Device) (name : List ℕ) (type2 : Bool) (a : Answers)
    → Each IsReadable ds
    → succeeded (a.hr Call.set_output) ≡ true
    → Lifetime (open_avi_reader a) close_input_graph [] lost_by_reader
      × Lifetime (open_input (working ds) name a) close_input [] lost_by_input
      × Lifetime (open_output (working ds) name a) close_output [] (Ref.device ∷ [])
      × Lifetime (open_avi_writer type2 a) close_avi_writer [] lost_by_writer
      × Lifetime (open_monitor a) close_monitor (Ref.dv_dec ∷ []) lost_by_monitor
objects-Lifetime ds name type2 a readable opened = (
  reader-Lifetime a,
  input-Lifetime ds name a readable,
  output-Lifetime ds name a readable,
  writer-Lifetime type2 a opened,
  monitor-Lifetime a,
)
