-- ===== src/Stream/Ready.antt =====
-- The invariants of the stream decoder: its indices, and the bytes in its buffer.
use apogee_fc.Base.{
  ℕ, zero, suc, ◌+◌, ◌-◌, ◌≤◌, ◌<◌, ◌≡◌, ◌⊎◌, inl, inr, refl, sym, ap, ◌∙◌, arith, List, ◌==◌, ltb,
  length, take, drop, set, AreBytes, AreBytes-append, AreBytes-take, AreBytes-drop, AreBytes-set,
  length-append, length-take, length-drop, length-set, get_or-append_left, get_or-take, get_or-drop,
  get_or-set_self, Bool-cases, lt→ltb, le→ltb, ltb→le, ◌&&◌,
}
use apogee_fc.Frame.{byte_at}
use apogee_fc.Stream.{
  FrameStreamDecoder, FrameStreamEvent, initial, sync_first, sync_second, move_front, find_sync,
  rescan, align_to_sync, align_nonempty, payload_length,
}

-- What every step of a round keeps: the array has its size, and the held bytes start with a sync.
pub record IsSynced (d : FrameStreamDecoder) : Type 0 where
  pub room : length d.buffer ≡ 76
  pub bytes : AreBytes d.buffer
  pub within : d.size ≤ 76
  pub first : 0 < d.size → byte_at d.buffer 0 ≡ sync_first
  pub second : 1 < d.size → byte_at d.buffer 1 ≡ sync_second

-- What holds between two bytes: the next byte fits, since the buffered frame is not complete.
pub record IsReady (d : FrameStreamDecoder) : Type 0 where
  pub synced : IsSynced d
  pub announced : 6 ≤ d.size → payload_length d ≤ 64
  pub incomplete : 6 ≤ d.size → d.size < 12 + payload_length d
  pub expected : 6 ≤ d.size → d.expected_size ≡ 12 + payload_length d

pub size-lt : {d : FrameStreamDecoder} → IsReady d → d.size < 76
size-lt {d} r = ground (arith, r.announced, r.incomplete)

pub initial-IsReady : IsReady initial
initial-IsReady = record {
  synced = record {
    room = refl;
    bytes = omega arith;
    within = omega arith;
    first = λ p. absurd (omega arith);
    second = λ p. absurd (omega arith);
  };
  announced = λ p. absurd (omega arith);
  incomplete = λ p. absurd (omega arith);
  expected = λ p. absurd (omega arith);
}

-- The result of a search is a sync pair in the range that was searched, or `size`.
pub find_sync_lem :
    (left index size : ℕ) (buffer : List ℕ)
    → (find_sync left index size buffer ≡ size)
      ⊎ ((index ≤ find_sync left index size buffer)
          × (find_sync left index size buffer < index + left)
          × (byte_at buffer (find_sync left index size buffer) ≡ sync_first)
          × (byte_at buffer (suc (find_sync left index size buffer)) ≡ sync_second))
unfolding find_sync
find_sync_lem zero index size buffer = inl refl
find_sync_lem (suc left) index size buffer =
    ground (arith, find_sync_lem left (suc index) size buffer)

module _ (offset count : ℕ) (buffer : List ℕ) (h : offset + count ≤ length buffer) where
  pub byte_at-move_front :
      (i : ℕ) → i < count → byte_at (move_front offset count buffer) i ≡ byte_at buffer (offset + i)
  byte_at-move_front i p =
      get_or-append_left (take count (drop offset buffer)) (drop count buffer) i 0
        (omega (arith, length-take count (drop offset buffer), length-drop offset buffer))
      ∙ get_or-take count i (drop offset buffer) 0 p
      ∙ get_or-drop offset i buffer 0

  pub length-move_front : length (move_front offset count buffer) ≡ length buffer
  length-move_front = omega (
    arith,
    length-append (take count (drop offset buffer)) (drop count buffer),
    length-take count (drop offset buffer),
    length-drop offset buffer,
    length-drop count buffer,
  )

  pub move_front-AreBytes : AreBytes buffer → AreBytes (move_front offset count buffer)
  move_front-AreBytes b =
      AreBytes-append (take count (drop offset buffer)) (drop count buffer)
        (AreBytes-take count (drop offset buffer) (AreBytes-drop offset buffer b))
        (AreBytes-drop count buffer b)

-- The held bytes moved to the front from a sync pair on.
moved-IsSynced :
    (offset expected : ℕ) (d : FrameStreamDecoder)
    → length d.buffer ≡ 76
    → AreBytes d.buffer
    → d.size ≤ 76
    → offset < d.size
    → byte_at d.buffer offset ≡ sync_first
    → byte_at d.buffer (suc offset) ≡ sync_second
    → IsSynced (record {
      buffer = move_front offset (d.size - offset) d.buffer;
      size = d.size - offset;
      expected_size = expected;
    })
moved-IsSynced offset expected d room bytes within p f s = record {
  room = length-move_front offset (d.size - offset) d.buffer (omega arith) ∙ room;
  bytes = move_front-AreBytes offset (d.size - offset) d.buffer (omega arith) bytes;
  within = omega arith;
  first = λ q.
      byte_at-move_front offset (d.size - offset) d.buffer (omega arith) 0 q
      ∙ ap (byte_at d.buffer) (omega arith)
      ∙ f;
  second = λ q.
      byte_at-move_front offset (d.size - offset) d.buffer (omega arith) 1 q
      ∙ ap (byte_at d.buffer) (omega arith)
      ∙ s;
}

-- The buffer cut to one sync byte, and to nothing.
single-IsSynced :
    (expected : ℕ) (buffer : List ℕ)
    → length buffer ≡ 76
    → AreBytes buffer
    → IsSynced (record { buffer = set buffer 0 sync_first; size = 1; expected_size = expected })
single-IsSynced expected buffer room bytes = record {
  room = length-set buffer 0 sync_first (omega arith) ∙ room;
  bytes = AreBytes-set buffer 0 sync_first bytes (omega arith);
  within = omega arith;
  first = λ q. get_or-set_self buffer 0 sync_first 0 (omega arith);
  second = λ q. absurd (omega arith);
}

nothing-IsSynced :
    (expected : ℕ) (buffer : List ℕ)
    → length buffer ≡ 76
    → AreBytes buffer
    → IsSynced (record { buffer = buffer; size = 0; expected_size = expected })
nothing-IsSynced expected buffer room bytes = record {
  room = room;
  bytes = bytes;
  within = omega arith;
  first = λ q. absurd (omega arith);
  second = λ q. absurd (omega arith);
}

-- After a rejection the held bytes start with a sync again, and are fewer.
pub rescan-IsSynced :
    (d : FrameStreamDecoder)
    → IsSynced d
    → 2 ≤ d.size
    → IsSynced (rescan d) × ((rescan d).size < d.size)
unfolding rescan
rescan-IsSynced d h p = elim (find_sync_lem (d.size - 2) 1 d.size d.buffer) [
  | inr (lo, hi, f, s) ↦
      rw (lt→ltb (find_sync (d.size - 2) 1 d.size d.buffer) d.size (omega arith)) (
        moved-IsSynced (find_sync (d.size - 2) 1 d.size d.buffer) 0 d h.room h.bytes h.within
            (omega arith) f s,
        omega arith,
      )
  | inl e ↦
      rw (le→ltb (find_sync (d.size - 2) 1 d.size d.buffer) d.size (omega arith))
        (elim (Bool-cases (byte_at d.buffer (d.size - 1) == sync_first)) [
          | inl last ↦ rw last (single-IsSynced 0 d.buffer h.room h.bytes, p)
          | inr last ↦ rw last (nothing-IsSynced 0 d.buffer h.room h.bytes, omega arith)
        ])
]

abbrev pub Aligned : FrameStreamDecoder → FrameStreamDecoder × List FrameStreamEvent → Type 0
Aligned d (d', events) = IsSynced d' × (d'.size ≤ d.size)

align_nonempty-Aligned :
    (d : FrameStreamDecoder)
    → length d.buffer ≡ 76
    → AreBytes d.buffer
    → d.size ≤ 76
    → 0 < d.size
    → Aligned d (align_nonempty d)
align_nonempty-Aligned d room bytes within p = elim (find_sync_lem (d.size - 1) 0 d.size d.buffer) [
  | inr (lo, hi, f, s) ↦
      rw (lt→ltb (find_sync (d.size - 1) 0 d.size d.buffer) d.size (omega arith))
        (elim (Bool-cases (ltb 0 (find_sync (d.size - 1) 0 d.size d.buffer))) [
          | inl later ↦ rw later (
            moved-IsSynced (find_sync (d.size - 1) 0 d.size d.buffer) d.expected_size d room bytes
                within (omega arith) f s,
            omega arith,
          )
          | inr now ↦
              let start : find_sync (d.size - 1) 0 d.size d.buffer ≡ 0 =
                omega (arith, ltb→le 0 (find_sync (d.size - 1) 0 d.size d.buffer) now) in
              rw now (
                record {
                  room = room;
                  bytes = bytes;
                  within = within;
                  first = λ q. ap (byte_at d.buffer) (sym start) ∙ f;
                  second = λ q. ap (λ k. byte_at d.buffer (suc k)) (sym start) ∙ s;
                },
                omega arith,
              )
        ])
  | inl e ↦
      rw (le→ltb (find_sync (d.size - 1) 0 d.size d.buffer) d.size (omega arith))
        (elim (Bool-cases (ltb 0 d.size && byte_at d.buffer (d.size - 1) == sync_first)) [
          | inl last ↦ rw last (single-IsSynced d.expected_size d.buffer room bytes, p)
          | inr last ↦ rw last (nothing-IsSynced d.expected_size d.buffer room bytes, omega arith)
        ])
]

-- After a frame the held bytes start with a sync again, and are no more.
pub align-IsSynced :
    (d : FrameStreamDecoder)
    → length d.buffer ≡ 76
    → AreBytes d.buffer
    → d.size ≤ 76
    → Aligned d (align_to_sync d)
unfolding align_to_sync
align-IsSynced d room bytes within = elim (Bool-cases (d.size == 0)) [
  | inl none_left ↦ rw none_left (
    record {
      room = room;
      bytes = bytes;
      within = within;
      first = λ q. absurd (ground arith);
      second = λ q. absurd (ground arith);
    },
    omega arith,
  )
  | inr some_left ↦ rw some_left (align_nonempty-Aligned d room bytes within (ground arith))
]
