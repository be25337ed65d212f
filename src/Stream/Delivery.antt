-- ===== src/Stream/Delivery.antt =====
-- A stream of whole frames in the stream decoder.
use apogee_fc.Base.{
  ℕ, zero, suc, ◌+◌, ◌-◌, ◌≤◌, ◌<◌, ◌≡◌, inl, inr, refl, sym, ap, ◌∙◌, arith, List, [], ◌∷◌, ◌++◌,
  append-nil, true, length, length-set, take, drop, set, AreBytes, get_or-lt, get_or-take, subst,
  drop-all, ltb, ltb→lt, ltb→le, take-suc, take-set, take-all, drop-cons, take-take-append,
  Bool-cases,
}
use apogee_fc.Frame.{byte_at, span, MessageType, decode_ok, read_u16_le, empty_frame}
use apogee_fc.Frame.Decode.{decode}
use apogee_fc.Frame.Accept.{IsAccepted, IsAccepted_of_ok}
use apogee_fc.Stream.{
  FrameStreamDecoder, FrameStreamEvent, FrameStreamStatus, sync_first, sync_second, store,
  payload_length, process_buffer, push_byte, push, decoded_event,
}
use apogee_fc.Stream.Ready.{IsReady, size-lt}
use apogee_fc.Stream.Progress.{expecting}
use apogee_fc.Stream.Push.{push_byte-Keeps, push-append}
use apogee_fc.Stream.Process.{process_buffer_short, process_buffer_partial, process_buffer_whole}

push_byte_first :
    (d : FrameStreamDecoder) → d.size ≡ 0 → push_byte sync_first d ≡ (store sync_first d, [])
unfolding push_byte
push_byte_first d h = ground arith

push_byte_second :
    (d : FrameStreamDecoder) → d.size ≡ 1 → push_byte sync_second d ≡ (store sync_second d, [])
unfolding push_byte
push_byte_second d h = ground arith

push_byte_later :
    (byte : ℕ) (d : FrameStreamDecoder)
    → 2 ≤ d.size
    → push_byte byte d ≡ process_buffer (store byte d)
unfolding push_byte
push_byte_later byte d h = ground arith

-- What a stream that holds exactly one frame leaves: an empty decoder, and one event with the frame.
pub record Delivered (whole : List ℕ) (result : FrameStreamDecoder × List FrameStreamEvent)
    : Type 0 where
  pub ready : IsReady result.0
  pub empty : result.0.size ≡ 0
  pub event : FrameStreamEvent
  pub events : result.1 ≡ event ∷ []
  pub kind : event.status ≡ FrameStreamStatus.frame_decoded
  pub carries : span event.frame ≡ whole

-- A span that `decode` accepts.
module _ (whole : List ℕ) (m : MessageType) (valid : AreBytes whole) (h : IsAccepted whole m) where
  abbrev announced : ℕ
  announced = read_u16_le whole 4

  -- The decoder holds the first `k` bytes of the span.
  record Holds (k : ℕ) (d : FrameStreamDecoder) : Type 0 where
    ready : IsReady d
    count : d.size ≡ k
    same : take k d.buffer ≡ take k whole

  same_byte :
      (k i : ℕ) (d : FrameStreamDecoder)
      → take k d.buffer ≡ take k whole
      → i < k
      → byte_at d.buffer i ≡ byte_at whole i
  same_byte k i d e p =
      sym (get_or-take k i d.buffer 0 p) ∙ ap (λ xs. byte_at xs i) e ∙ get_or-take k i whole 0 p

  same_length :
      (k : ℕ) (d : FrameStreamDecoder)
      → take k d.buffer ≡ take k whole
      → 6 ≤ k
      → payload_length d ≡ announced
  same_length k d e p = rw (same_byte k 4 d e (omega arith), same_byte k 5 d e (omega arith))

  stored_same :
      (k : ℕ) (d : FrameStreamDecoder)
      → Holds k d
      → k < length whole
      → take (suc k) (store (byte_at whole k) d).buffer ≡ take (suc k) whole
  stored_same k d s p =
      ap (λ n. take (suc k) (set d.buffer n (byte_at whole k))) s.count
      ∙ take-set k d.buffer (byte_at whole k)
          (omega (arith, size-lt s.ready, s.count, s.ready.synced.room))
      ∙ ap (λ xs. xs ++ (byte_at whole k ∷ [])) s.same
      ∙ sym (take-suc k whole 0 p)

  -- The state after a byte that raises no event.
  stored_Holds :
      (k : ℕ) (d d' : FrameStreamDecoder)
      → Holds k d
      → k < length whole
      → push_byte (byte_at whole k) d ≡ (d', [])
      → d'.buffer ≡ (store (byte_at whole k) d).buffer
      → d'.size ≡ d.size + 1
      → Holds (suc k) d'
  stored_Holds k d d' s p e b n = record {
    ready =
        subst (λ (r : FrameStreamDecoder × List FrameStreamEvent). IsReady r.0) e
          (push_byte-Keeps (byte_at whole k) d s.ready (get_or-lt whole k valid)).ready;
    count = omega (arith, s.count);
    same = ap (take (suc k)) b ∙ stored_same k d s p;
  }

  -- A byte that does not complete the span is taken in silence.
  data Silent (k : ℕ) (d : FrameStreamDecoder) : Type 0 where
    silent :
        (d' : FrameStreamDecoder)
        → push_byte (byte_at whole k) d ≡ (d', [])
        → Holds (suc k) d'
        → Silent k d

  store-Silent :
      (k : ℕ) (d : FrameStreamDecoder)
      → Holds k d
      → k < length whole
      → push_byte (byte_at whole k) d ≡ (store (byte_at whole k) d, [])
      → Silent k d
  store-Silent k d s p e =
      silent (store (byte_at whole k) d) e
        (stored_Holds k d (store (byte_at whole k) d) s p e refl refl)

  later_Silent :
      (k : ℕ) (d : FrameStreamDecoder) → Holds k d → 2 ≤ k → suc k < length whole → Silent k d
  later_Silent k d s two p =
      let later = push_byte_later (byte_at whole k) d (omega (arith, s.count)) in
      elim (Bool-cases (ltb k 5)) [
        | inl short ↦ store-Silent k d s (omega arith) (
            later
            ∙ process_buffer_short (store (byte_at whole k) d)
                (omega (arith, s.count, ltb→lt k 5 short)))
        | inr long ↦
            let six = ltb→le k 5 long in
            let same =
              same_length (suc k) (store (byte_at whole k) d) (stored_same k d s (omega arith))
                (omega arith) in
            let e =
              later
              ∙ process_buffer_partial (store (byte_at whole k) d) (omega (arith, s.count))
                  (omega (arith, same, h.fits)) (omega (arith, s.count, same, h.exact)) in
            silent (expecting (store (byte_at whole k) d)) e
              (stored_Holds k d (expecting (store (byte_at whole k) d)) s (omega arith) e refl refl)
      ]

  step_Silent : (k : ℕ) (d : FrameStreamDecoder) → Holds k d → suc k < length whole → Silent k d
  step_Silent zero d s p =
      store-Silent zero d s (omega arith) (rw h.sync_first (push_byte_first d s.count))
  step_Silent (suc zero) d s p =
      store-Silent 1 d s (omega arith) (rw h.sync_second (push_byte_second d s.count))
  step_Silent (suc (suc k)) d s p = later_Silent (suc (suc k)) d s (omega arith) p

  last_Delivered :
      (k : ℕ) (d : FrameStreamDecoder)
      → Holds k d
      → suc k ≡ length whole
      → decode_ok (decode whole).status ≡ true
      → Delivered whole (push_byte (byte_at whole k) d)
  last_Delivered k d s p ok =
      let all : take (suc k) (store (byte_at whole k) d).buffer ≡ whole =
        stored_same k d s (omega arith) ∙ take-all (suc k) whole (omega arith) in
      let same : payload_length (store (byte_at whole k) d) ≡ announced =
        same_length (suc k) (store (byte_at whole k) d) (stored_same k d s (omega arith))
          (omega (arith, h.exact)) in
      let size : 12 + payload_length (store (byte_at whole k) d) ≡ suc k =
        omega (arith, same, h.exact) in
      let frame : take (12 + payload_length (store (byte_at whole k) d))
            (store (byte_at whole k) d).buffer
          ≡ whole =
        ap (λ n. take n (store (byte_at whole k) d).buffer) size ∙ all in
      let e =
        push_byte_later (byte_at whole k) d (omega (arith, s.count, h.exact))
        ∙ process_buffer_whole (store (byte_at whole k) d) (omega (arith, same, h.fits))
            (omega (arith, s.count, size)) (ap (λ xs. decode_ok (decode xs).status) frame ∙ ok) in
      record {
        ready = (push_byte-Keeps (byte_at whole k) d s.ready (get_or-lt whole k valid)).ready;
        empty =
            ap (λ (r : FrameStreamDecoder × List FrameStreamEvent). r.0.size) e
            ∙ omega (arith, s.count, size);
        event = decoded_event (expecting (store (byte_at whole k) d));
        events = ap (λ (r : FrameStreamDecoder × List FrameStreamEvent). r.1) e;
        kind = refl;
        carries =
            take-take-append (12 + payload_length (store (byte_at whole k) d)) (d.size + 1)
              (store (byte_at whole k) d).buffer (drop (d.size + 1) (empty_frame.bytes))
              (omega (arith, s.count, size))
              (omega (
                arith,
                size-lt s.ready,
                s.ready.synced.room,
                length-set d.buffer d.size (byte_at whole k)
                    (omega (arith, size-lt s.ready, s.ready.synced.room)),
              ))
            ∙ frame;
      }

  -- From the first `k` bytes on, the rest of the span leads to its delivery.
  rest_Delivered :
      (left k : ℕ) (d : FrameStreamDecoder)
      → Holds k d
      → k + suc left ≡ length whole
      → decode_ok (decode whole).status ≡ true
      → Delivered whole (push (drop k whole) d)
  unfolding push
  rest_Delivered zero k d s p ok =
      rw (drop-cons k whole 0 (omega arith), drop-all (suc k) whole (omega arith), append-nil)
        (last_Delivered k d s (omega arith) ok)
  rest_Delivered (suc left) k d s p ok = elim (step_Silent k d s (omega arith)) [
    | silent d' e s' ↦
        rw (drop-cons k whole 0 (omega arith), e)
          (rest_Delivered left (suc k) d' s' (omega arith) ok)
  ]

-- A ready and empty stream decoder that is fed a span which `decode` accepts reports exactly one
-- event, a decoded frame that carries the span, and is empty again afterwards.
pub push-Delivered :
    (whole : List ℕ) (d : FrameStreamDecoder)
    → AreBytes whole
    → decode_ok (decode whole).status ≡ true
    → IsReady d
    → d.size ≡ 0
    → Delivered whole (push whole d)
push-Delivered whole d valid ok r e =
    let (m, h, _) = IsAccepted_of_ok whole ok in
    rest_Delivered whole m valid h (length whole - 1) 0 d
      (record { ready = r; count = e; same = refl }) (omega (arith, h.long)) ok

-- The events that report the given spans, one for each in order.
abbrev pub Reports : List FrameStreamEvent → List (List ℕ) → Type 0
Reports [] [] = Unit
Reports (e ∷ es) (w ∷ ws) =
    (e.status ≡ FrameStreamStatus.frame_decoded) × (span e.frame ≡ w) × Reports es ws
Reports _ _ = ⊥

abbrev pub AllDecodable : List (List ℕ) → Type 0
AllDecodable [] = Unit
AllDecodable (w ∷ ws) = AreBytes w × (decode_ok (decode w).status ≡ true) × AllDecodable ws

-- Frames one after the other.
abbrev pub joined : List (List ℕ) → List ℕ
joined [] = []
joined (w ∷ ws) = w ++ joined ws

-- A ready and empty stream decoder that is fed spans which `decode` accepts, one after the other,
-- reports each of them, in order, and nothing else, and is empty again afterwards.
pub push-Reports :
    (spans : List (List ℕ)) (d : FrameStreamDecoder)
    → AllDecodable spans
    → IsReady d
    → d.size ≡ 0
    → Reports (push (joined spans) d).1 spans × ((push (joined spans) d).0.size ≡ 0)
unfolding push
push-Reports [] d h r e = (tt, e)
push-Reports (w ∷ ws) d h r e =
    let first = push-Delivered w d h.0 h.1 r e in
    let later = push-Reports ws (push w d).0 h.2 first.ready first.empty in
    rw (push-append w (joined ws) d, first.events) ((first.kind, first.carries, later.0), later.1)
