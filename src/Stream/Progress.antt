-- ===== src/Stream/Progress.antt =====
-- The loop of `process_buffer`, and the steps of the decoder, against its invariants.
use apogee_fc.Base.{
  ◌&&◌, if◌then◌else◌, ℕ, zero, suc, ◌+◌, ◌-◌, ◌≤◌, ◌<◌, ◌≡◌, inl, inr, refl, ap, ◌∙◌, arith, List,
  [], ◌∷◌, ◌++◌, Bool, true, false, ◌==◌, ltb, length, take, drop, Bool-cases, ltb→le, ltb→lt,
  take-take-append, Option, none, some,
}
use apogee_fc.Frame.{byte_at, DecodeStatus, decode_ok, empty_frame, span}
use apogee_fc.Frame.Decode.{decode}
use apogee_fc.Stream.{
  after, preceded, loop_result, process_buffer, find_sync, continue_with, FrameStreamDecoder,
  FrameStreamEvent, FrameStreamStatus, sync_first, move_front, align_to_sync, align_nonempty,
  payload_length, noise, Round, return, continue, process_round, process_loop, decoded_event,
  rejected, reject, take_frame,
}
use apogee_fc.Stream.Ready.{
  IsSynced, IsReady, rescan-IsSynced, align-IsSynced, length-move_front, move_front-AreBytes,
}

-- An event that reports a frame carries the bytes of one that `decode` accepts.
abbrev pub IsSound : FrameStreamEvent → Type 0
IsSound e =
    e.status ≡ FrameStreamStatus.frame_decoded → decode_ok (decode (span e.frame)).status ≡ true

abbrev pub AreSound : List FrameStreamEvent → Type 0
AreSound [] = Unit
AreSound (e ∷ es) = IsSound e × AreSound es

pub AreSound-append :
    (es fs : List FrameStreamEvent) → AreSound es → AreSound fs → AreSound (es ++ fs)
AreSound-append [] fs h k = k
AreSound-append (e ∷ es) fs h k = (h.0, AreSound-append es fs h.1 k)

-- A round returns a decoder that is ready, or goes on with fewer bytes.
abbrev pub Steps : FrameStreamDecoder → Round → Type 0
Steps d (return d') = IsReady d'
Steps d (continue d' events) = IsSynced d' × (d'.size < d.size) × AreSound events

pub noise-IsSound : (n : ℕ) → IsSound (noise n)
noise-IsSound n h = cc

-- A choice between two results is sound if both are.
choose-AreSound :
    (b : Bool) (x y : FrameStreamDecoder × List FrameStreamEvent)
    → AreSound x.1
    → AreSound y.1
    → AreSound (if b then x else y).1
choose-AreSound true x y p q = p
choose-AreSound false x y p q = q

align-AreSound : (d : FrameStreamDecoder) → AreSound (align_to_sync d).1
unfolding align_to_sync
align-AreSound d =
    choose-AreSound (d.size == 0) (d, []) (align_nonempty d) tt
      (choose-AreSound (ltb (find_sync (d.size - 1) 0 d.size d.buffer) d.size) _ _
        (choose-AreSound (ltb 0 (find_sync (d.size - 1) 0 d.size d.buffer)) _ _
          (noise-IsSound (find_sync (d.size - 1) 0 d.size d.buffer), tt) tt)
        (choose-AreSound (ltb 0 d.size && byte_at d.buffer (d.size - 1) == sync_first) _ _
          (noise-IsSound (d.size - 1), tt) (noise-IsSound d.size, tt)))

-- The frame in an event of `process_buffer` is the span that `decode` has accepted.
decoded_event-IsSound :
    (d : FrameStreamDecoder)
    → length d.buffer ≡ 76
    → d.size ≤ 76
    → d.expected_size ≤ d.size
    → decode_ok (decode (take d.expected_size d.buffer)).status ≡ true
    → IsSound (decoded_event d)
decoded_event-IsSound d room within fits ok _ =
    rw
      (take-take-append d.expected_size d.size d.buffer (drop d.size (empty_frame.bytes)) fits
        (omega arith))
      ok

take_frame-Steps :
    (d : FrameStreamDecoder)
    → IsSynced d
    → 12 ≤ d.expected_size
    → d.expected_size ≤ d.size
    → decode_ok (decode (take d.expected_size d.buffer)).status ≡ true
    → Steps d (continue (take_frame d).0 (take_frame d).1)
take_frame-Steps d h p q ok =
    let moved : FrameStreamDecoder = record {
      buffer = move_front d.expected_size (d.size - d.expected_size) d.buffer;
      size = d.size - d.expected_size;
      expected_size = 0;
    } in
    let aligned =
      align-IsSynced moved
        (length-move_front d.expected_size (d.size - d.expected_size) d.buffer (omega (arith, h))
          ∙ h.room)
        (move_front-AreBytes d.expected_size (d.size - d.expected_size) d.buffer (omega (arith, h))
          h.bytes)
        (omega (arith, h)) in
    (
      aligned.0,
      omega (arith, aligned.1),
      (decoded_event-IsSound d h.room h.within q ok, align-AreSound moved),
    )

rejected-IsSound : (d : FrameStreamDecoder) (status : DecodeStatus) → IsSound (rejected d status)
rejected-IsSound d status h = cc

reject-Steps :
    (d : FrameStreamDecoder) (status : DecodeStatus)
    → IsSynced d
    → 6 ≤ d.size
    → Steps d (continue_with (reject d status))
reject-Steps d status h p =
    let kept = rescan-IsSynced d h (omega arith) in
    (kept.0, kept.1, (rejected-IsSound d status, tt))

-- The decoder with the size of the frame that its header announces.
abbrev pub expecting : FrameStreamDecoder → FrameStreamDecoder
expecting d = record d { expected_size = 12 + payload_length d }

expecting-IsSynced : (d : FrameStreamDecoder) → IsSynced d → IsSynced (expecting d)
expecting-IsSynced d h = record {
  room = h.room;
  bytes = h.bytes;
  within = h.within;
  first = h.first;
  second = h.second;
}

pub short-IsReady : (d : FrameStreamDecoder) → IsSynced d → d.size < 6 → IsReady d
short-IsReady d h p = record {
  synced = h;
  announced = λ q. absurd (omega arith);
  incomplete = λ q. absurd (omega arith);
  expected = λ q. absurd (omega arith);
}

pub process_round-Steps : (d : FrameStreamDecoder) → IsSynced d → Steps d (process_round d)
unfolding process_round
process_round-Steps d h = elim (Bool-cases (ltb d.size 6)) [
  | inl short ↦ rw short (short-IsReady d h (ltb→lt d.size 6 short))
  | inr header ↦ rw header (elim (Bool-cases (ltb 64 (payload_length d))) [
    | inl big ↦ rw big (reject-Steps d DecodeStatus.payload_too_large h (ltb→le d.size 6 header))
    | inr fits ↦ rw fits (elim (Bool-cases (ltb d.size (12 + payload_length d))) [
      | inl partial ↦ rw partial (record {
        synced = expecting-IsSynced d h;
        announced = λ q. ltb→le 64 (payload_length d) fits;
        incomplete = λ q. ltb→lt d.size (12 + payload_length d) partial;
        expected = λ q. refl;
      })
      | inr whole ↦
          rw whole
            (elim (Bool-cases (decode_ok (decode (take (12 + payload_length d) d.buffer)).status)) [
              | inl ok ↦ rw ok (
                  take_frame-Steps (expecting d) (expecting-IsSynced d h) (omega arith)
                    (ltb→le d.size (12 + payload_length d) whole) ok)
              | inr bad ↦ rw bad (
                  reject-Steps (expecting d) (decode (take (12 + payload_length d) d.buffer)).status
                    (expecting-IsSynced d h) (ltb→le d.size 6 header))
            ])
    ])
  ])
]

-- What a decoder and its events satisfy after a whole operation.
pub record Keeps (result : FrameStreamDecoder × List FrameStreamEvent) : Type 0 where
  pub ready : IsReady result.0
  pub sound : AreSound result.1

-- The loop returns, with a result that the decoder and its events satisfy.
abbrev Ends : Option (FrameStreamDecoder × List FrameStreamEvent) → Type 0
Ends none = ⊥
Ends (some result) = Keeps result

preceded-Ends :
    (events : List FrameStreamEvent) (rest : Option (FrameStreamDecoder × List FrameStreamEvent))
    → AreSound events
    → Ends rest
    → Ends (preceded events rest)
preceded-Ends events none h k = k
preceded-Ends events (some (d, more)) h k = record {
  ready = k.ready;
  sound = AreSound-append events more h k.sound;
}

after-Ends :
    (rest : FrameStreamDecoder → Option (FrameStreamDecoder × List FrameStreamEvent))
    (d : FrameStreamDecoder) (round : Round)
    → Steps d round
    → ((d' : FrameStreamDecoder) → IsSynced d' → d'.size < d.size → Ends (rest d'))
    → Ends (after rest round)
after-Ends rest d (return d') h k = record { ready = h; sound = tt }
after-Ends rest d (continue d' events) h k = preceded-Ends events (rest d') h.2 (k d' h.0 h.1)

-- With more fuel than held bytes the loop returns, ready for the next byte.
process_loop-Ends :
    (fuel : ℕ) (d : FrameStreamDecoder) → IsSynced d → d.size < fuel → Ends (process_loop fuel d)
unfolding process_loop
process_loop-Ends zero d h p = absurd (omega arith)
process_loop-Ends (suc fuel) d h p =
    after-Ends (process_loop fuel) d (process_round d) (process_round-Steps d h)
      (λ d' h' q. process_loop-Ends fuel d' h' (omega arith))

loop_result-Keeps :
    (d : FrameStreamDecoder) (result : Option (FrameStreamDecoder × List FrameStreamEvent))
    → Ends result
    → Keeps (loop_result d result)
loop_result-Keeps d none h = absurd h
loop_result-Keeps d (some result) h = h

pub process_buffer-Keeps : (d : FrameStreamDecoder) → IsSynced d → Keeps (process_buffer d)
unfolding process_buffer
process_buffer-Keeps d h =
    loop_result-Keeps d (process_loop (suc d.size) d)
      (process_loop-Ends (suc d.size) d h (omega arith))

after-eq :
    (k k' : FrameStreamDecoder → Option (FrameStreamDecoder × List FrameStreamEvent))
    (d : FrameStreamDecoder) (round : Round)
    → Steps d round
    → ((d' : FrameStreamDecoder) → IsSynced d' → d'.size < d.size → k d' ≡ k' d')
    → after k round ≡ after k' round
after-eq k k' d (return d') h e = refl
after-eq k k' d (continue d' events) h e = ap (preceded events) (e d' h.0 h.1)

-- Any two amounts of fuel above the held bytes give the same.
process_loop_same :
    (fuel fuel' : ℕ) (d : FrameStreamDecoder)
    → IsSynced d
    → d.size < fuel
    → d.size < fuel'
    → process_loop fuel d ≡ process_loop fuel' d
unfolding process_loop
process_loop_same zero fuel' d h p p' = absurd (omega arith)
process_loop_same (suc fuel) zero d h p p' = absurd (omega arith)
process_loop_same (suc fuel) (suc fuel') d h p p' =
    after-eq (process_loop fuel) (process_loop fuel') d (process_round d) (process_round-Steps d h)
      (λ d' h' q. process_loop_same fuel fuel' d' h' (omega arith) (omega arith))

some-loop_result :
    (d : FrameStreamDecoder) (result : Option (FrameStreamDecoder × List FrameStreamEvent))
    → Ends result
    → result ≡ some (loop_result d result)
some-loop_result d none h = absurd h
some-loop_result d (some result) h = refl

-- On a decoder that satisfies `IsSynced`, the loop of `process_buffer` returns within any number of
-- rounds above that of the buffered bytes, with the result that `process_buffer` has.
pub process_loop_returns :
    (fuel : ℕ) (d : FrameStreamDecoder)
    → IsSynced d
    → d.size < fuel
    → process_loop fuel d ≡ some (process_buffer d)
unfolding process_buffer
process_loop_returns fuel d h p =
    process_loop_same fuel (suc d.size) d h p (omega arith)
    ∙ some-loop_result d (process_loop (suc d.size) d)
        (process_loop-Ends (suc d.size) d h (omega arith))
