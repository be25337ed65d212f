-- ===== src/SensorSource/Cycle.antt =====
-- The simulated scenario, over several reads.
use apogee_fc.Base.{ℕ, zero, suc, ◌<◌, ◌≡◌, refl, arith, ◌++◌, length}
use apogee_fc.Telemetry.{AreReadings}
use apogee_fc.SensorSource.{SimulatedSensorSource, initial, samples, read, read_many}

-- Every read takes one of the eight samples and leaves an index of one of them.
pub read_in_range :
    (s : SimulatedSensorSource)
    → s.next_sample < length samples
    → (read s).0.next_sample < length samples
unfolding read
read_in_range s h = ground arith

reading_at-AreReadings : (i : ℕ) → AreReadings (read (record { next_sample = i })).1
unfolding read
reading_at-AreReadings zero = omega arith
reading_at-AreReadings (suc zero) = omega arith
reading_at-AreReadings (suc (suc zero)) = omega arith
reading_at-AreReadings (suc (suc (suc zero))) = omega arith
reading_at-AreReadings (suc (suc (suc (suc zero)))) = omega arith
reading_at-AreReadings (suc (suc (suc (suc (suc zero))))) = omega arith
reading_at-AreReadings (suc (suc (suc (suc (suc (suc zero)))))) = omega arith
reading_at-AreReadings (suc (suc (suc (suc (suc (suc (suc zero))))))) = omega arith
reading_at-AreReadings (suc (suc (suc (suc (suc (suc (suc (suc i)))))))) = omega arith

pub read-AreReadings : (s : SimulatedSensorSource) → AreReadings (read s).1
read-AreReadings s = reading_at-AreReadings s.next_sample

-- Eight reads from the start give the eight samples in order and lead back to the start: after them
-- come the same readings again.
pub read_many_cycle :
    (n : ℕ)
    → read_many (suc (suc (suc (suc (suc (suc (suc (suc n)))))))) initial
      ≡ samples ++ read_many n initial
unfolding read_many read
read_many_cycle n = refl
