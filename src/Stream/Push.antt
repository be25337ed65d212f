-- ===== src/Stream/Push.antt =====
-- Feeding bytes to the stream decoder, in one call or several.
use apogee_fc.Base.{
  ℕ, ◌<◌, ◌≡◌, refl, ◌∙◌, arith, List, [], ◌∷◌, ◌++◌, append_assoc, Bool, true, false, ◌==◌,
  AreBytes, AreBytes-set, length-set, get_or-set_self, get_or-set_ne, ==_iff, if◌then◌else◌,
}
use apogee_fc.Stream.{
  FrameStreamDecoder, FrameStreamEvent, sync_first, sync_second, store, noise, process_buffer,
  push_byte, push,
}
use apogee_fc.Stream.Ready.{IsSynced, IsReady, size-lt}
use apogee_fc.Stream.Progress.{
  Keeps, AreSound-append, noise-IsSound, process_buffer-Keeps, short-IsReady,
}

store-IsSynced :
    (byte : ℕ) (d : FrameStreamDecoder)
    → IsReady d
    → byte < 256
    → (d.size ≡ 0 → byte ≡ sync_first)
    → (d.size ≡ 1 → byte ≡ sync_second)
    → IsSynced (store byte d)
store-IsSynced byte d r b f s = record {
  room = length-set d.buffer d.size byte (omega (arith, size-lt r, r.synced.room)) ∙ r.synced.room;
  bytes = AreBytes-set d.buffer d.size byte r.synced.bytes b;
  within = omega (arith, size-lt r);
  first = λ p. ground (
    arith,
    size-lt r,
    r.synced.room,
    r.synced.first,
    f,
    get_or-set_self d.buffer 0 byte 0,
    get_or-set_ne d.buffer d.size 0 byte 0,
  );
  second = λ p. ground (
    arith,
    size-lt r,
    r.synced.room,
    r.synced.second,
    s,
    get_or-set_self d.buffer 1 byte 0,
    get_or-set_ne d.buffer d.size 1 byte 0,
  );
}

stored-Keeps :
    (byte : ℕ) (d : FrameStreamDecoder)
    → IsSynced (store byte d)
    → d.size < 5
    → Keeps (store byte d, [])
stored-Keeps byte d h p = record {
  ready = short-IsReady (store byte d) h (omega arith);
  sound = tt;
}

-- A choice by a test keeps what both branches keep under the test's result.
choose-Keeps :
    (b : Bool) (x y : FrameStreamDecoder × List FrameStreamEvent)
    → (b ≡ true → Keeps x)
    → (b ≡ false → Keeps y)
    → Keeps (if b then x else y)
choose-Keeps true x y p q = p refl
choose-Keeps false x y p q = q refl

unchanged-Keeps : (n : ℕ) (d : FrameStreamDecoder) → IsReady d → Keeps (d, noise n ∷ [])
unchanged-Keeps n d r = record { ready = r; sound = (noise-IsSound n, tt) }

emptied-Keeps :
    (n : ℕ) (d : FrameStreamDecoder) → IsReady d → Keeps (record d { size = 0 }, noise n ∷ [])
emptied-Keeps n d r = record {
  ready =
      short-IsReady (record d { size = 0 })
        (record {
          room = r.synced.room;
          bytes = r.synced.bytes;
          within = omega arith;
          first = λ p. absurd (omega arith);
          second = λ p. absurd (omega arith);
        })
        (omega arith);
  sound = (noise-IsSound n, tt);
}

processed-Keeps :
    (byte : ℕ) (d : FrameStreamDecoder)
    → IsReady d
    → byte < 256
    → (d.size == 0) ≡ false
    → (d.size == 1) ≡ false
    → Keeps (process_buffer (store byte d))
processed-Keeps byte d r b z o =
    process_buffer-Keeps (store byte d)
      (store-IsSynced byte d r b (λ e. absurd (ground arith)) (λ e. absurd (ground arith)))

-- Every byte, in every ready state, is stored inside the array and leaves a ready state; each frame
-- that is reported on the way is one that `decode` accepts.
pub push_byte-Keeps :
    (byte : ℕ) (d : FrameStreamDecoder) → IsReady d → byte < 256 → Keeps (push_byte byte d)
unfolding push_byte
push_byte-Keeps byte d r b =
    choose-Keeps (d.size == 0) _ _
      (λ z.
        choose-Keeps (byte == sync_first) _ _
          (λ e.
            stored-Keeps byte d
              (store-IsSynced byte d r b (λ p. (==_iff byte sync_first).0 e)
                (λ p. absurd (ground arith)))
              (ground arith))
          (λ e. unchanged-Keeps 1 d r))
      (λ z.
        choose-Keeps (d.size == 1) _ _
          (λ o.
            choose-Keeps (byte == sync_second) _ _
              (λ e.
                stored-Keeps byte d
                  (store-IsSynced byte d r b (λ p. absurd (ground arith))
                    (λ p. (==_iff byte sync_second).0 e))
                  (ground arith))
              (λ e.
                choose-Keeps (byte == sync_first) _ _ (λ f. unchanged-Keeps 1 d r)
                  (λ f. emptied-Keeps 2 d r)))
          (λ o. processed-Keeps byte d r b z o))

-- From a ready state, every sequence of bytes leaves a ready state, and each frame that is reported
-- on the way is one that `decode` accepts.
pub push-Keeps :
    (bytes : List ℕ) (d : FrameStreamDecoder) → IsReady d → AreBytes bytes → Keeps (push bytes d)
unfolding push
push-Keeps [] d r b = record { ready = r; sound = tt }
push-Keeps (byte ∷ bytes) d r b =
    let now = push_byte-Keeps byte d r b.0 in
    let later = push-Keeps bytes (push_byte byte d).0 now.ready b.1 in
    record {
      ready = later.ready;
      sound =
          AreSound-append (push_byte byte d).1 (push bytes (push_byte byte d).0).1 now.sound
            later.sound;
    }

-- The way in which the bytes are split over calls of `push` makes no difference: the same decoder,
-- and the same events in the same order.
pub push-append :
    (xs ys : List ℕ) (d : FrameStreamDecoder)
    → push (xs ++ ys) d ≡ ((push ys (push xs d).0).0, (push xs d).1 ++ (push ys (push xs d).0).1)
unfolding push
push-append [] ys d = refl
push-append (x ∷ xs) ys d = rw (
  push-append xs ys (push_byte x d).0,
  append_assoc (push_byte x d).1 (push xs (push_byte x d).0).1
      (push ys (push xs (push_byte x d).0).0).1,
)
