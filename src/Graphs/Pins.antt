-- ===== src/Graphs/Pins.antt =====
-- DShow.cpp: the pins of the own filters, through which frames enter and leave the program, and
-- their media types. What the base classes answer, and how they compare two types, is an argument.
use win_dv.Prelude.{ℕ, Bool, ltb, if◌then◌else◌, Option, none, some}
use win_dv.Prelude.Int.{ℤ, negsuc, ◌-ℤ◌}
use win_dv.Dv.{Bytes}
use win_dv.Queue.{DvQueue, put}
use win_dv.Graphs.{Hr, is_ok}

-- A media type, of which the code reads whether it is MEDIATYPE_Interleaved and the sample size.
pub record MediaType : Type 0 where
  pub interleaved : Bool
  pub sample_size : ℕ
  pub format : ℕ

-- `CInputGraph::GetMediaType`: `none` is that it throws.
unfoldable pub input_media_type : Hr → MediaType → Option MediaType
input_media_type h mt =
    if is_ok h
    then some (if ltb mt.sample_size 144000 then record mt { sample_size = 144000 } else mt)
    else none

-- `CInputPin::CheckMediaType`.
unfoldable pub check_input_type : MediaType → Hr
check_input_type mt = if mt.interleaved then Hr.s_ok else Hr.s_false

-- What a handler of frames is called with; no data is the end of the stream.
pub record Call : Type 0 where
  pub duration : ℤ
  pub content : Option Bytes
  pub len : ℕ

-- A media sample: its times, its bytes and their number.
pub record MediaSample : Type 0 where
  pub start : ℤ
  pub stop : ℤ
  pub bytes : Bytes
  pub actual_len : ℕ

-- `CInputPin::Receive`, after what the base class answers.
unfoldable pub receive : Hr → MediaSample → Option Call
receive h m =
    if is_ok h
    then some (record { duration = m.stop -ℤ m.start; content = some m.bytes; len = m.actual_len })
    else none

-- `CInputPin::EndOfStream`.
abbrev pub end_of_stream : Call
end_of_stream = record { duration = negsuc 0; content = none; len = 0 }

-- `COutputPin::GetMediaType`: only the type at 0.
unfoldable pub output_media_type : MediaType → ℕ → Option MediaType
output_media_type t position = if ltb 0 position then none else some t

-- `COutputPin::CheckMediaType`.
unfoldable pub check_output_type : (MediaType → MediaType → Bool) → MediaType → MediaType → Hr
check_output_type same t mt = if same mt t then Hr.s_ok else Hr.s_false

-- ALLOCATOR_PROPERTIES.
pub record Allocation : Type 0 where
  pub buffers : ℕ
  pub buffer_size : ℕ
  pub align : ℕ

-- `COutputPin::DecideBufferSize`, for the depth of the queue; what is asked of the allocator.
unfoldable pub decide_buffer_size : MediaType → ℕ → Allocation → Allocation
decide_buffer_size t depth request =
    let depth' = if ltb 1 depth then depth else 1 in
    record {
      align = if ltb request.align 1 then 1 else request.align;
      buffer_size =
          if ltb request.buffer_size t.sample_size then t.sample_size else request.buffer_size;
      buffers = if ltb request.buffers depth' then depth' else request.buffers;
    }

-- `CDV::HandleFrame` on a frame, up to the wait for room in the queue.
unfoldable pub enqueue : DvQueue → Call → Option DvQueue
enqueue q c = elim c.content [ none ↦ some q | some content ↦ put q c.duration content c.len ]
