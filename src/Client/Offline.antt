-- ===== src/Client/Offline.antt =====
-- host/apogee_ground_client.cpp: `run_offline`. The file is the bytes that can be read of it, and
-- whether a device error follows them. What the client itself writes to `std::cerr` is a list of its own.
pub mod Whole
use apogee_fc.Base.{
  ℕ, zero, suc, ◌+◌, ◌/◌, List, [], ◌∷◌, ◌++◌, Bool, true, false, ◌||◌, ◌==◌, ltb, if◌then◌else◌,
  take, drop, length, Option, none, some,
}
use apogee_fc.Ground
use apogee_fc.Ground.{GroundStreamProcessor, feed, finish}

abbrev pub io_buffer_size : ℕ
io_buffer_size = 256

pub record File : Type 0 where
  pub contents : List ℕ
  pub bad : Bool

pub data OfflineError : Type 0 where
  unable_to_open read_error : OfflineError

-- The exit code, what the processor has printed, and the client's own error lines.
pub record OfflineRun : Type 0 where
  pub code : ℕ
  pub processor : GroundStreamProcessor
  pub errors : List OfflineError

-- The loop `while (input)`: a `read` that comes short of the buffer is the last one.
unfoldable pub read_loop : ℕ → List ℕ → GroundStreamProcessor → GroundStreamProcessor
read_loop zero bytes p = p
read_loop (suc fuel) bytes p =
    let p' = feed (take io_buffer_size bytes) p in
    let rest = read_loop fuel (drop io_buffer_size bytes) p' in
    if ltb (length bytes) io_buffer_size then p' else rest

unfoldable pub exit_code : GroundStreamProcessor → ℕ
exit_code p = if p.decoded_messages == 0 || p.malformed_input then 1 else 0

unfoldable pub run_offline : Option File → OfflineRun
run_offline none = record { code = 1; processor = Ground.initial; errors = unable_to_open ∷ [] }
run_offline (some input) =
    let read = read_loop (suc (length input.contents)) input.contents Ground.initial in
    let processor = finish read in
    if input.bad
    then record { code = 1; processor = read; errors = read_error ∷ [] }
    else record { code = exit_code processor; processor = processor; errors = [] }
