-- ===== src/Graphs/Outputs.antt =====
-- DShow.cpp: the constructors and destructors of the sinks, `CDVOutput`, `CAVIWriter` and
-- `CMonitor`.
use win_dv.Prelude.{ℕ, Bool, true, false, not, List}
use win_dv.Graphs.{
  Ref, Hr, succeeded, is_ok, Cause, Command, Action, ◌>>◌, check, throw, use_ref, take, release,
  clear, if_set, when, command, or_unwind,
}
use win_dv.Graphs.Devices.{Machine}
use win_dv.Graphs.Objects.{
  acquire, checked_use, query, stop_graph, open_output_graph, close_output_graph, close_control,
  attach_device, Call, Answers,
}

-- If `Run` does not answer S_OK, the state has to be "running" within a second.
abbrev await_running : Answers → Action (Unit {0})
await_running a = do
  checked_use Ref.media_control (a.hr Call.get_state)
  when (not a.running) (throw Cause.error)

unfoldable pub connect_output : Machine → List ℕ → Answers → Action (Unit {0})
connect_output m name a = do
  attach_device m name a
  use_ref Ref.media_control
  command Command.run
  when (not (is_ok (a.hr Call.run_graph))) (await_running a)

-- `CDVOutput` and `~CDVOutput`.
unfoldable pub open_output : Machine → List ℕ → Answers → Action (Unit {0})
open_output m name a =
    open_output_graph a >> or_unwind (connect_output m name a) (close_control >> close_output_graph)

-- The end of the stream, and the wait for its completion.
abbrev finish_stream : Action (Unit {0})
finish_stream = do
  command Command.end_of_stream
  if_set Ref.media_event (use_ref Ref.media_event >> command Command.wait)

unfoldable pub close_output : Action (Unit {0})
close_output = do finish_stream; close_control; close_output_graph

-- A file of type 2 has a DV splitter.
abbrev insert_splitter : Answers → Action (Unit {0})
insert_splitter a = do
  acquire Ref.dv_splitter (a.hr Call.create_dv_splitter)
  checked_use Ref.filter_graph (a.hr Call.add_dv_splitter)
  checked_use Ref.graph_builder (a.hr Call.connect_interleaved)
  checked_use Ref.graph_builder (a.hr Call.connect_video)
  checked_use Ref.graph_builder (a.hr Call.connect_audio)
  release Ref.dv_splitter

-- A file of type 1 has the stream as it is.
abbrev connect_streams : Bool → Answers → Action (Unit {0})
connect_streams true a = insert_splitter a
connect_streams false a = checked_use Ref.graph_builder (a.hr Call.connect_interleaved)

-- The file is to be overwritten, if its sink can be told so; the sink is released.
abbrev set_sink2 : Action (Unit {0})
set_sink2 = do
  take Ref.file_sink2
  release Ref.file_sink
  use_ref Ref.file_sink2
  release Ref.file_sink2

abbrev pub set_mode : Hr → Action (Unit {0})
set_mode Hr.s_ok = set_sink2
set_mode Hr.s_false = set_sink2
set_mode Hr.failed = release Ref.file_sink

-- The answer of `SetOutputFileName` is not looked at; if it fails, its two pointers are not set.
unfoldable pub connect_writer : Bool → Answers → Action (Unit {0})
connect_writer type2 a = do
  use_ref Ref.graph_builder
  when (succeeded (a.hr Call.set_output)) (take Ref.mux >> take Ref.file_sink)
  use_ref Ref.file_sink
  set_mode (a.hr Call.query_sink2)
  connect_streams type2 a
  release Ref.mux
  use_ref Ref.media_control
  command Command.run

-- `CAVIWriter`, and `~CAVIWriter` but for the name of the file.
unfoldable pub open_avi_writer : Bool → Answers → Action (Unit {0})
open_avi_writer type2 a =
    open_output_graph a >> or_unwind (connect_writer type2 a) close_output_graph

unfoldable pub close_avi_writer : Action (Unit {0})
close_avi_writer = do finish_stream; if_set Ref.media_control stop_graph; close_output_graph

-- `SetDVDecoding`. The interface of the decoder is not released.
abbrev set_dv_decoding : Answers → Action (Unit {0})
set_dv_decoding a = do
  use_ref Ref.filter_graph
  when (is_ok (a.hr Call.find_decoder)) (do
    take Ref.decoder
    use_ref Ref.decoder
    when (is_ok (a.hr Call.query_decoder)) (take Ref.dv_dec >> use_ref Ref.dv_dec)
    release Ref.decoder)

unfoldable pub connect_monitor : Answers → Action (Unit {0})
connect_monitor a = do
  query Ref.filter_graph Ref.video_window (a.hr Call.query_window)
  checked_use Ref.graph_builder (a.hr Call.render)
  set_dv_decoding a
  checked_use Ref.video_window (a.hr Call.put_owner)
  checked_use Ref.video_window (a.hr Call.put_style)
  use_ref Ref.video_window
  use_ref Ref.media_control
  command Command.run
  check (a.hr Call.run_graph) Cause.error

-- `CMonitor`, and `~CMonitor` but for its thread.
unfoldable pub open_monitor : Answers → Action (Unit {0})
open_monitor a = open_output_graph a >> or_unwind (connect_monitor a) close_output_graph

unfoldable pub close_monitor : Action (Unit {0})
close_monitor = do
  if_set Ref.video_window (release Ref.video_window)
  clear Ref.video_window
  close_output_graph
