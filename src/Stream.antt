-- ===== src/Stream.antt =====
-- common/include/apogee/frame_stream_decoder.hpp: frames out of a stream of bytes. The handler is
-- modelled by what it is given: each operation returns the events in the order of the calls.
pub mod Ready
pub mod Progress
pub mod Push
pub mod Process
pub mod Delivery
use apogee_fc.Base.{
  ℕ, zero, suc, ◌+◌, ◌-◌, List, [], ◌∷◌, ◌++◌, Bool, true, false, not, ◌&&◌, ◌==◌, ltb,
  if◌then◌else◌, take, drop, set, replicate, bit_or, u16, ◌<<<◌, Option, none, some,
}
use apogee_fc.Frame.{
  EncodedFrame, empty_frame, DecodeStatus, decode_ok, byte_at, maximum_frame_size,
  maximum_payload_size, minimum_frame_size,
}
use apogee_fc.Frame.Decode.{decode}

pub data FrameStreamStatus : Type 0 where
  frame_decoded noise_discarded frame_rejected truncated : FrameStreamStatus

pub record FrameStreamEvent : Type 0 where
  pub status : FrameStreamStatus
  pub decode_status : DecodeStatus
  pub frame : EncodedFrame
  pub discarded_bytes : ℕ

pub record FrameStreamDecoder : Type 0 where
  pub buffer : List ℕ  -- 76 bytes
  pub size : ℕ
  pub expected_size : ℕ

abbrev pub initial : FrameStreamDecoder
initial = record { buffer = replicate maximum_frame_size 0; size = 0; expected_size = 0 }

abbrev pub sync_first : ℕ
sync_first = 0xa5

abbrev pub sync_second : ℕ
sync_second = 0x5a

abbrev pub header_size : ℕ
header_size = 6

-- `std::copy_n` of `count` elements from `offset` to the front of the array.
abbrev pub move_front : ℕ → ℕ → List ℕ → List ℕ
move_front offset count buffer = take count (drop offset buffer) ++ drop count buffer

abbrev pub copy_frame : FrameStreamDecoder → EncodedFrame
copy_frame d = record {
  bytes = take d.size d.buffer ++ drop d.size empty_frame.bytes;
  size = d.size;
}

abbrev pub noise : ℕ → FrameStreamEvent
noise count = record {
  status = FrameStreamStatus.noise_discarded;
  decode_status = DecodeStatus.ok;
  frame = empty_frame;
  discarded_bytes = count;
}

abbrev pub rejected : FrameStreamDecoder → DecodeStatus → FrameStreamEvent
rejected d status = record {
  status = FrameStreamStatus.frame_rejected;
  decode_status = status;
  frame = copy_frame d;
  discarded_bytes = 0;
}

abbrev pub decoded_event : FrameStreamDecoder → FrameStreamEvent
decoded_event d = record {
  status = FrameStreamStatus.frame_decoded;
  decode_status = DecodeStatus.ok;
  frame = record (copy_frame d) { size = d.expected_size };
  discarded_bytes = 0;
}

-- The search loops at `index`, with `left` rounds to go; `size` is the result if nothing is found.
unfoldable pub find_sync : ℕ → ℕ → ℕ → List ℕ → ℕ
find_sync zero index size buffer = size
find_sync (suc left) index size buffer =
    let rest = find_sync left (suc index) size buffer in
    if byte_at buffer index == sync_first && byte_at buffer (suc index) == sync_second
    then index
    else rest

-- It is called with at least a header in the buffer.
unfoldable pub rescan : FrameStreamDecoder → FrameStreamDecoder
rescan d =
    let sync_offset = find_sync (d.size - 2) 1 d.size d.buffer in
    let retained = d.size - sync_offset in
    if ltb sync_offset d.size
    then record {
      buffer = move_front sync_offset retained d.buffer;
      size = retained;
      expected_size = 0;
    }
    else if byte_at d.buffer (d.size - 1) == sync_first
    then record { buffer = set d.buffer 0 sync_first; size = 1; expected_size = 0 }
    else record d { size = 0; expected_size = 0 }

abbrev pub reject : FrameStreamDecoder → DecodeStatus → FrameStreamDecoder × List FrameStreamEvent
reject d status = (rescan d, rejected d status ∷ [])

-- What follows `if (size_ == 0U) return` in `align_to_sync`.
abbrev align_nonempty : FrameStreamDecoder → FrameStreamDecoder × List FrameStreamEvent
align_nonempty d =
    let sync_offset = find_sync (d.size - 1) 0 d.size d.buffer in
    let retained = d.size - sync_offset in
    if ltb sync_offset d.size
    then if ltb 0 sync_offset
      then (
        record d { buffer = move_front sync_offset retained d.buffer; size = retained },
        noise sync_offset ∷ [],
      )
      else (d, [])
    else if ltb 0 d.size && byte_at d.buffer (d.size - 1) == sync_first
    then (record d { buffer = set d.buffer 0 sync_first; size = 1 }, noise (d.size - 1) ∷ [])
    else (record d { size = 0 }, noise d.size ∷ [])

unfoldable pub align_to_sync : FrameStreamDecoder → FrameStreamDecoder × List FrameStreamEvent
align_to_sync d = if d.size == 0 then (d, []) else align_nonempty d

-- How a round of the loop of `process_buffer` ends.
pub data Round : Type 0 where
  return : FrameStreamDecoder → Round
  continue : FrameStreamDecoder → List FrameStreamEvent → Round

-- The `payload_length` of the buffered header.
abbrev pub payload_length : FrameStreamDecoder → ℕ
payload_length d = u16 (bit_or (byte_at d.buffer 4) (u16 (byte_at d.buffer 5 <<< 8)))

-- The rest of a round, once a whole frame is buffered and `decode` accepts it.
abbrev pub take_frame : FrameStreamDecoder → FrameStreamDecoder × List FrameStreamEvent
take_frame d =
    let remaining = d.size - d.expected_size in
    let moved = record d {
      buffer = move_front d.expected_size remaining d.buffer;
      size = remaining;
      expected_size = 0;
    } in
    let (d', events) = align_to_sync moved in (d', decoded_event d ∷ events)

abbrev pub continue_with : FrameStreamDecoder × List FrameStreamEvent → Round
continue_with (d, events) = continue d events

-- One round. The test `size_ < header_size` after a rejection or a frame is that of the next round.
unfoldable pub process_round : FrameStreamDecoder → Round
process_round d =
    if ltb d.size header_size
    then return d
    else if ltb maximum_payload_size (payload_length d)
    then continue_with (reject d DecodeStatus.payload_too_large)
    else let d' = record d { expected_size = minimum_frame_size + payload_length d } in
      if ltb d'.size d'.expected_size
      then return d'
      else let decoded = decode (take d'.expected_size d'.buffer) in
        if not (decode_ok decoded.status)
        then continue_with (reject d' decoded.status)
        else continue_with (take_frame d')

-- The events of a round, before those of the rest of the loop.
abbrev pub preceded :
    List FrameStreamEvent
    → Option (FrameStreamDecoder × List FrameStreamEvent)
    → Option (FrameStreamDecoder × List FrameStreamEvent)
preceded events none = none
preceded events (some (d, more)) = some (d, events ++ more)

-- What follows a round: the end, or the rest of the loop.
abbrev pub after :
    (FrameStreamDecoder → Option (FrameStreamDecoder × List FrameStreamEvent))
    → Round
    → Option (FrameStreamDecoder × List FrameStreamEvent)
after rest (return d) = some (d, [])
after rest (continue d events) = preceded events (rest d)

-- The loop; `none` if it has not loop_result within `fuel` rounds.
unfoldable pub process_loop :
    ℕ → FrameStreamDecoder → Option (FrameStreamDecoder × List FrameStreamEvent)
process_loop zero d = none
process_loop (suc fuel) d = after (process_loop fuel) (process_round d)

-- What the loop returns. The second clause stands for a loop that does not return.
abbrev pub loop_result :
    FrameStreamDecoder
    → Option (FrameStreamDecoder × List FrameStreamEvent)
    → FrameStreamDecoder × List FrameStreamEvent
loop_result d (some result) = result
loop_result d none = (d, [])

unfoldable pub process_buffer : FrameStreamDecoder → FrameStreamDecoder × List FrameStreamEvent
process_buffer d = loop_result d (process_loop (suc d.size) d)

-- `buffer_[size_++] = byte`.
abbrev pub store : ℕ → FrameStreamDecoder → FrameStreamDecoder
store byte d = record d { buffer = set d.buffer d.size byte; size = d.size + 1 }

unfoldable pub push_byte : ℕ → FrameStreamDecoder → FrameStreamDecoder × List FrameStreamEvent
push_byte byte d =
    if d.size == 0
    then if byte == sync_first then (store byte d, []) else (d, noise 1 ∷ [])
    else if d.size == 1
    then if byte == sync_second
      then (store byte d, [])
      else if byte == sync_first
      then (d, noise 1 ∷ [])
      else (record d { size = 0 }, noise 2 ∷ [])
    else process_buffer (store byte d)

unfoldable pub push : List ℕ → FrameStreamDecoder → FrameStreamDecoder × List FrameStreamEvent
push [] d = (d, [])
push (byte ∷ bytes) d =
    let (d', events) = push_byte byte d in let (d'', more) = push bytes d' in (d'', events ++ more)

unfoldable pub finish : FrameStreamDecoder → FrameStreamDecoder × List FrameStreamEvent
finish d = if d.size == 0 then (d, []) else (
  record d { size = 0; expected_size = 0 },
  record {
    status = FrameStreamStatus.truncated;
    decode_status = DecodeStatus.truncated;
    frame = copy_frame d;
    discarded_bytes = 0;
  }
      ∷ [],
)
