-- ===== src/Stream/Process.antt =====
-- `process_buffer` on a header that is not whole, on a frame that is not whole, and on a whole frame.
use apogee_fc.Base.{
  ℕ, zero, suc, ◌+◌, ◌-◌, ◌≤◌, ◌<◌, ◌≡◌, ap, ◌∙◌, arith, List, [], ◌∷◌, true, some, take, lt→ltb,
  le→ltb,
}
use apogee_fc.Frame.{decode_ok}
use apogee_fc.Frame.Decode.{decode}
use apogee_fc.Stream.{
  FrameStreamDecoder, FrameStreamEvent, move_front, align_to_sync, payload_length, return, continue,
  process_round, process_loop, process_buffer, decoded_event, take_frame, after, preceded,
  loop_result, continue_with,
}
use apogee_fc.Stream.Progress.{expecting}

process_round_short : (d : FrameStreamDecoder) → d.size < 6 → process_round d ≡ return d
unfolding process_round
process_round_short d h = rw (lt→ltb d.size 6 h)

process_loop_short :
    (fuel : ℕ) (d : FrameStreamDecoder) → 0 < fuel → d.size < 6 → process_loop fuel d ≡ some (d, [])
unfolding process_loop
process_loop_short zero d p h = absurd (omega arith)
process_loop_short (suc fuel) d p h = ap (after (process_loop fuel)) (process_round_short d h)

pub process_buffer_short : (d : FrameStreamDecoder) → d.size < 6 → process_buffer d ≡ (d, [])
unfolding process_buffer
process_buffer_short d h = ap (loop_result d) (process_loop_short (suc d.size) d (omega arith) h)

process_round_partial :
    (d : FrameStreamDecoder)
    → 6 ≤ d.size
    → payload_length d ≤ 64
    → d.size < 12 + payload_length d
    → process_round d ≡ return (expecting d)
unfolding process_round
process_round_partial d h p q =
    rw (le→ltb d.size 6 h, le→ltb 64 (payload_length d) p, lt→ltb d.size (12 + payload_length d) q)

pub process_buffer_partial :
    (d : FrameStreamDecoder)
    → 6 ≤ d.size
    → payload_length d ≤ 64
    → d.size < 12 + payload_length d
    → process_buffer d ≡ (expecting d, [])
unfolding process_buffer process_loop
process_buffer_partial d h p q =
    ap (λ r. loop_result d (after (process_loop d.size) r)) (process_round_partial d h p q)

process_round_whole :
    (d : FrameStreamDecoder)
    → 6 ≤ d.size
    → payload_length d ≤ 64
    → 12 + payload_length d ≤ d.size
    → decode_ok (decode (take (12 + payload_length d) d.buffer)).status ≡ true
    → process_round d ≡ continue_with (take_frame (expecting d))
unfolding process_round
process_round_whole d h p q ok =
    rw (
      le→ltb d.size 6 h,
      le→ltb 64 (payload_length d) p,
      le→ltb d.size (12 + payload_length d) q,
      ok,
    )

-- The decoder when its frame has been taken out.
abbrev pub without_frame : FrameStreamDecoder → FrameStreamDecoder
without_frame d = record {
  buffer = move_front (12 + payload_length d) (d.size - (12 + payload_length d)) d.buffer;
  size = d.size - (12 + payload_length d);
  expected_size = 0;
}

align_empty : (d : FrameStreamDecoder) → d.size ≡ 0 → align_to_sync d ≡ (d, [])
unfolding align_to_sync
align_empty d h = ground arith

pub process_buffer_whole :
    (d : FrameStreamDecoder)
    → payload_length d ≤ 64
    → d.size ≡ 12 + payload_length d
    → decode_ok (decode (take (12 + payload_length d) d.buffer)).status ≡ true
    → process_buffer d ≡ (without_frame d, decoded_event (expecting d) ∷ [])
unfolding process_buffer process_loop
process_buffer_whole d p q ok =
    let event = decoded_event (expecting d) in
    ap (λ r. loop_result d (after (process_loop d.size) r))
      (process_round_whole d (omega arith) p (omega arith) ok)
    ∙ ap
        (λ (r : FrameStreamDecoder × List FrameStreamEvent).
          loop_result d (after (process_loop d.size) (continue r.0 (event ∷ r.1))))
        (align_empty (without_frame d) (omega arith))
    ∙ ap (λ r. loop_result d (preceded (event ∷ []) r))
        (process_loop_short d.size (without_frame d) (omega arith) (omega arith))
