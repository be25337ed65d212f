-- ===== src/Tests/Streams.antt =====
-- The stream decoder on the bytes of concrete frames.
use apogee_fc.Base.{◌≡◌, refl, arith, [], ◌∷◌, ◌++◌, some, replicate}
use apogee_fc.Stream.{FrameStreamDecoder, initial, push, process_loop, process_buffer}
use apogee_fc.Stream.Ready.{IsSynced, initial-IsReady}
use apogee_fc.Stream.Progress.{Keeps, process_loop_returns}
use apogee_fc.Stream.Push.{push-Keeps}
use apogee_fc.Stream.Delivery.{Reports, push-Reports}
use apogee_fc.Tests.Data.{ping_bytes, set_period_bytes}
use apogee_fc.Tests.Codecs.{ping_sound, set_period_sound}

push-Keeps_example : Keeps (push (0xa5 ∷ 0xa5 ∷ 0x5a ∷ 1 ∷ 16 ∷ 65 ∷ 0 ∷ 7 ∷ []) initial)
push-Keeps_example =
    push-Keeps (0xa5 ∷ 0xa5 ∷ 0x5a ∷ 1 ∷ 16 ∷ 65 ∷ 0 ∷ 7 ∷ []) initial initial-IsReady (omega arith)

push-Reports_example :
    Reports
      (push (ping_bytes ++ (set_period_bytes ++ [])) initial).1
      (ping_bytes ∷ set_period_bytes ∷ [])
    × ((push (ping_bytes ++ (set_period_bytes ++ [])) initial).0.size ≡ 0)
push-Reports_example =
    push-Reports (ping_bytes ∷ set_period_bytes ∷ []) initial
      (ping_sound.0, ping_sound.1, (set_period_sound.0, set_period_sound.1, tt)) initial-IsReady
      refl

-- Six bytes whose header announces a payload that is too large.
abbrev oversized : FrameStreamDecoder
oversized = record {
  buffer = 0xa5 ∷ 0x5a ∷ 1 ∷ 16 ∷ 65 ∷ 0 ∷ replicate 70 0;
  size = 6;
  expected_size = 0;
}

oversized-IsSynced : IsSynced oversized
oversized-IsSynced = record {
  room = refl;
  bytes = omega arith;
  within = omega arith;
  first = λ p. refl;
  second = λ p. refl;
}

process_loop_returns_example : process_loop 7 oversized ≡ some (process_buffer oversized)
process_loop_returns_example = process_loop_returns 7 oversized oversized-IsSynced (omega arith)
