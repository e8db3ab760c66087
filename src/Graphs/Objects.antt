-- ===== src/Graphs/Objects.antt =====
-- DShow.cpp: the constructors and destructors of the graph objects, the bases and the sources. When a constructor throws, C++
-- runs the destructors of the bases that stand, and not that of the object itself.
use win_dv.Prelude.{ℕ, Bool, not, ◌&&◌, List, some}
use win_dv.Graphs.{
  Ref, Hr, succeeded, is_ok, Cause, Command, Action, ◌>>=◌, ◌>>◌, check, use_ref, take, take_member,
  release, clear, if_set, when, command, or_unwind,
}
use win_dv.Graphs.Devices.{Machine, enum_video_devices}

-- The calls of DirectShow whose answer the code looks at.
pub data Call : Type 0 where
  create_builder create_graph set_graph query_control query_seeking query_event : Call
  add_source create_splitter add_splitter connect_source connect_dv create_mux add_mux : Call
  query_transport add_device connect_device connected_to query_dropped run_graph get_state : Call
  set_output query_sink2 create_dv_splitter add_dv_splitter : Call
  connect_interleaved connect_video connect_audio : Call
  query_window render find_decoder query_decoder put_owner put_style : Call

-- What these calls answer, `IsConnected` of the own pin, and whether the state is State_Running.
pub record Answers : Type 0 where
  pub hr : Call → Hr
  pub connected : Bool
  pub running : Bool

-- A call that delivers an interface, with its CHECK_HR.
abbrev pub acquire : Ref → Hr → Action (Unit {0})
acquire r h = when (succeeded h) (take r) >> check h Cause.error

abbrev pub acquire_member : Ref → Hr → Action (Unit {0})
acquire_member r h = when (succeeded h) (take_member r) >> check h Cause.error

-- A call of the graph or of its builder, with its CHECK_HR.
abbrev pub checked_use : Ref → Hr → Action (Unit {0})
checked_use r h = use_ref r >> check h Cause.error

abbrev pub query : Ref → Ref → Hr → Action (Unit {0})
query from r h = use_ref from >> acquire_member r h

unfoldable pub open_filter_graph : Answers → Action (Unit {0})
open_filter_graph a = do
  acquire_member Ref.graph_builder (a.hr Call.create_builder)
  acquire_member Ref.filter_graph (a.hr Call.create_graph)
  checked_use Ref.graph_builder (a.hr Call.set_graph)
  query Ref.filter_graph Ref.media_control (a.hr Call.query_control)
  query Ref.filter_graph Ref.media_seeking (a.hr Call.query_seeking)
  query Ref.filter_graph Ref.media_event (a.hr Call.query_event)

abbrev pub stop_graph : Action (Unit {0})
stop_graph = use_ref Ref.media_control >> command Command.stop

unfoldable pub close_filter_graph : Action (Unit {0})
close_filter_graph = do
  if_set Ref.media_control (stop_graph >> release Ref.media_control)
  if_set Ref.media_seeking (release Ref.media_seeking)
  if_set Ref.media_event (release Ref.media_event)
  if_set Ref.filter_graph (release Ref.filter_graph)
  if_set Ref.graph_builder (release Ref.graph_builder)

-- `CInputGraph` and `COutputGraph`: the own filter is made and put into the graph.
abbrev pub open_own_filter : Action (Unit {0})
open_own_filter = take_member Ref.own_filter >> use_ref Ref.filter_graph

abbrev pub open_input_graph : Answers → Action (Unit {0})
open_input_graph a = open_filter_graph a >> open_own_filter

-- `~CInputGraph`, with its `Stop`.
abbrev pub close_input_graph : Action (Unit {0})
close_input_graph = do
  if_set Ref.media_control stop_graph
  release Ref.own_filter
  close_filter_graph

abbrev pub open_output_graph : Answers → Action (Unit {0})
open_output_graph a = open_filter_graph a >> open_own_filter

abbrev pub close_output_graph : Action (Unit {0})
close_output_graph = release Ref.own_filter >> close_filter_graph

-- `CDVControl::CtrlAttach` on the device, and `~CDVControl`.
abbrev pub ctrl_attach : Answers → Action (Unit {0})
ctrl_attach a = do
  if_set Ref.transport (release Ref.transport)
  clear Ref.transport
  use_ref Ref.device
  when (succeeded (a.hr Call.query_transport)) (take_member Ref.transport)

abbrev pub close_control : Action (Unit {0})
close_control = if_set Ref.transport (release Ref.transport)

-- The DV muxer of an AVI file of type 2; its three connections are not checked.
abbrev insert_mux : Answers → Action (Unit {0})
insert_mux a = do
  acquire Ref.dv_mux (a.hr Call.create_mux)
  checked_use Ref.filter_graph (a.hr Call.add_mux)
  use_ref Ref.graph_builder
  use_ref Ref.graph_builder
  use_ref Ref.graph_builder
  release Ref.dv_mux

unfoldable pub connect_reader : Answers → Action (Unit {0})
connect_reader a = do
  use_ref Ref.filter_graph
  acquire Ref.file_source (a.hr Call.add_source)
  acquire Ref.splitter (a.hr Call.create_splitter)
  checked_use Ref.filter_graph (a.hr Call.add_splitter)
  use_ref Ref.graph_builder
  release Ref.file_source
  check (a.hr Call.connect_source) Cause.error
  use_ref Ref.graph_builder
  when (not (is_ok (a.hr Call.connect_dv) && a.connected)) (insert_mux a)
  release Ref.splitter

-- `CAVIReader`.
unfoldable pub open_avi_reader : Answers → Action (Unit {0})
open_avi_reader a = open_input_graph a >> or_unwind (connect_reader a) close_input_graph

-- The device is found, attached to its control, put into the graph and connected.
abbrev pub attach_device : Machine → List ℕ → Answers → Action (Unit {0})
attach_device m name a = do
  bound ← enum_video_devices m (some name)
  ctrl_attach a
  checked_use Ref.filter_graph (a.hr Call.add_device)
  use_ref Ref.graph_builder
  release Ref.device
  check (a.hr Call.connect_device) Cause.error

unfoldable pub connect_input : Machine → List ℕ → Answers → Action (Unit {0})
connect_input m name a = do
  attach_device m name a
  use_ref Ref.own_filter
  acquire Ref.pin (a.hr Call.connected_to)
  use_ref Ref.pin
  when (succeeded (a.hr Call.query_dropped)) (take_member Ref.dropped_frames)
  release Ref.pin
  check (a.hr Call.query_dropped) Cause.error

-- `CDVInput` and `~CDVInput`.
unfoldable pub open_input : Machine → List ℕ → Answers → Action (Unit {0})
open_input m name a =
    open_input_graph a >> or_unwind (connect_input m name a) (close_control >> close_input_graph)

unfoldable pub close_input : Action (Unit {0})
close_input = do
  if_set Ref.dropped_frames (release Ref.dropped_frames)
  close_control
  close_input_graph
