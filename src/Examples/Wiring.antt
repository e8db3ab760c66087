-- ===== src/Examples/Wiring.antt =====
-- Two devices, graph objects on a machine that answers everything, and a frame that is received.
use win_dv.Prelude.{
  ℕ, ◌%◌, ◌≤◌, ◌≡◌, refl, arith, true, false, List, [], ◌∷◌, ◌++◌, none, some, Each,
}
use mathlib.Core.Option
use win_dv.Prelude.Int.{ℤ, pos, ◌-ℤ◌}
use win_dv.Dv.{Bytes}
use win_dv.Queue.{Buffer, filled, new}
use win_dv.Queue.Spec.{bytes_from}
use win_dv.Queue.Invariant.{new-IsValid}
use win_dv.Queue.Refine.{contents}
use win_dv.Graphs.{Ref, Hr, nothing, Cause, returned, thrown, Command, ◌>>◌}
use win_dv.Graphs.Devices.{Device, enum_video_devices, device_rounds, device_round}
use win_dv.Graphs.Rounds.{IsReadable}
use win_dv.Graphs.Listing.{working, first_named}
use win_dv.Graphs.Objects.{
  Call, Answers, open_filter_graph, close_filter_graph, close_input_graph, open_avi_reader,
  open_input, close_input,
}
use win_dv.Graphs.Outputs.{
  open_output, close_output, open_avi_writer, close_avi_writer, connect_writer, open_monitor,
  close_monitor, connect_monitor,
}
use win_dv.Graphs.Lifetimes.{
  Lifetime, lost_by_reader, lost_by_input, lost_by_writer, lost_by_monitor, objects-Lifetime,
}
use win_dv.Graphs.Pins.{MediaType, MediaSample, input_media_type, decide_buffer_size}
use win_dv.Graphs.Frames.{received, received-contents}

-- A camcorder, of which the second pin is DV, and a webcam.
abbrev camcorder : Device
camcorder = record {
  storage = Hr.s_ok;
  read = Hr.s_ok;
  name = 67 ∷ [];
  bound = true;
  pins = some (some (false ∷ []) ∷ some (true ∷ []) ∷ []);
}

abbrev webcam : Device
webcam = record camcorder { name = 87 ∷ []; pins = some (some (false ∷ []) ∷ none ∷ []) }

abbrev plugged : List Device
plugged = webcam ∷ camcorder ∷ []

plugged-IsReadable : Each IsReadable plugged
plugged-IsReadable = (λ e. refl, (λ e. refl, record {}))

camcorder_bound : first_named (67 ∷ []) plugged ≡ some camcorder
camcorder_bound = refl

-- A name that cannot be read leaves three interfaces held.
unread :
    enum_video_devices (working (record camcorder { read = Hr.failed } ∷ [])) none nothing
    ≡ some (
      thrown Cause.error,
      record nothing { held = Ref.bag ∷ Ref.moniker ∷ Ref.moniker_enum ∷ [] },
    )
unfolding enum_video_devices device_rounds device_round
unread = refl

abbrev all_ok : Answers
all_ok = record { hr = λ c. Hr.s_ok; connected = true; running = true }

objects-Lifetime_example :
    Lifetime (open_avi_reader all_ok) close_input_graph [] lost_by_reader
    × Lifetime (open_input (working plugged) (67 ∷ []) all_ok) close_input [] lost_by_input
    × Lifetime (open_output (working plugged) (67 ∷ []) all_ok) close_output [] (Ref.device ∷ [])
    × Lifetime (open_avi_writer true all_ok) close_avi_writer [] lost_by_writer
    × Lifetime (open_monitor all_ok) close_monitor (Ref.dv_dec ∷ []) lost_by_monitor
objects-Lifetime_example = objects-Lifetime plugged (67 ∷ []) true all_ok plugged-IsReadable refl

-- A preview leaves the interface of its decoder.
decoder_left :
    (open_monitor all_ok >> close_monitor) nothing
    ≡ some (
      returned tt,
      record {
        held = Ref.dv_dec ∷ [];
        pointers =
            Ref.own_filter ∷ Ref.media_event ∷ Ref.media_seeking ∷ Ref.media_control
            ∷ Ref.filter_graph ∷ Ref.graph_builder ∷ [];
        commands = Command.stop ∷ Command.run ∷ [];
      },
    )
unfolding open_monitor connect_monitor close_monitor open_filter_graph close_filter_graph
decoder_left = refl

abbrev no_file : Call → Hr
no_file Call.set_output = Hr.failed
no_file c = Hr.s_ok

-- A file that cannot be opened is a fault: its pointers are used although they are not set.
file_fault : open_avi_writer true (record all_ok { hr = no_file }) nothing ≡ none
unfolding open_avi_writer connect_writer open_filter_graph
file_fault = refl

abbrev dv_type : MediaType
dv_type = record { interleaved = true; sample_size = 120000; format = 0 }

abbrev slots : ℕ → Buffer
slots i = record { duration = pos 0; len = 0; bytes = λ j. 0 }

abbrev pal_frame : MediaSample
pal_frame = record {
  start = pos 400000;
  stop = pos 800000;
  bytes = λ i. i % 256;
  actual_len = 144000;
}

received-contents_example :
    (Option.map contents (received (new slots 100 144000) pal_frame)
      ≡ some (
          contents (new slots 100 144000)
          ++ (record {
            duration = pos 800000 -ℤ pos 400000;
            bytes = bytes_from 144000 0 (λ i. i % 256);
          }
              ∷ [])))
    × ((d : ℤ) (s : Bytes) (len : ℕ)
        → (filled (new slots 100 144000) d s len).len
          ≤ (decide_buffer_size
              (record dv_type { sample_size = 144000 })
              10
              (record { buffers = 0; buffer_size = 0; align = 0 })).buffer_size)
unfolding input_media_type new
received-contents_example =
    received-contents Hr.s_ok dv_type (record dv_type { sample_size = 144000 }) pal_frame
      (new slots 100 144000) (record { buffers = 0; buffer_size = 0; align = 0 }) 10 refl refl
      (new-IsValid slots 100 144000) (omega arith) (omega arith)
