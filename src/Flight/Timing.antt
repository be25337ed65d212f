-- ===== src/Flight/Timing.antt =====
-- The telemetry deadline against the clock.
use apogee_fc.Base.{
  ℕ, suc, ◌+◌, ◌-◌, ◌≤◌, ◌<◌, ◌≡◌, inl, inr, refl, arith, List, [], ◌∷◌, Bool, true, false, not,
  ◌&&◌, leb, if◌then◌else◌, AreBytes, leb→le, leb→lt, Bool-cases,
}
use apogee_fc.Frame.{span}
use apogee_fc.Command.{CommandMessage, is_set_period}
use apogee_fc.Command.Codec.{decode_command}
use apogee_fc.CommandProcessor.{CommandProcessor, process}
use apogee_fc.Stream.{FrameStreamEvent, push}
use apogee_fc.Flight.{
  Flight, is_accepted, is_frame_decoded, command_ok, sample, obey, handle_stream_event, handle_all,
  drain_bytes, drain, round, rounds, start,
}
use apogee_fc.Flight.Deadline.{advance_bounds}
use apogee_fc.Flight.Invariant.{
  IsFlying, drain-IsFlying, round-IsFlying, AllBytes, start-IsFlying, flight-IsFlying, with_reads,
}

-- What `k_uptime_get` promises: the time does not go back.
abbrev pub IsClock : (ℕ → ℕ) → Type 0
IsClock clock = (n : ℕ) → clock n ≤ clock (suc n)

-- Telemetry is due at most one period after the next reading of the clock.
abbrev pub IsTimely : (ℕ → ℕ) → Flight → Type 0
IsTimely clock s =
    s.next_telemetry_deadline ≤ clock s.clock_reads + s.processor.configuration.telemetry_period_ms

process_period :
    (p : CommandProcessor) (c : CommandMessage)
    → (is_accepted (process p c).1.status && is_set_period c.command) ≡ false
    → (process p c).0.configuration.telemetry_period_ms ≡ p.configuration.telemetry_period_ms
unfolding process
process_period p c h = ground arith

choose-IsTimely :
    (clock : ℕ → ℕ) (b : Bool) (x y : Flight)
    → IsTimely clock x
    → IsTimely clock y
    → IsTimely clock (if b then x else y)
choose-IsTimely clock true x y p q = p
choose-IsTimely clock false x y p q = q

-- The deadline lies after `now`, by at most one period.
abbrev pub IsAhead : ℕ → Flight → Type 0
IsAhead now s =
    (now < s.next_telemetry_deadline)
    × (s.next_telemetry_deadline ≤ now + s.processor.configuration.telemetry_period_ms)

-- The state once `now` has been read.
abbrev timed : Flight → Flight
timed s = record s { clock_reads = suc s.clock_reads }

sample_reads : (now : ℕ) (s : Flight) → (sample now s).clock_reads ≡ s.clock_reads
unfolding sample
sample_reads now s = refl

module _ (clock : ℕ → ℕ) (steady : IsClock clock) where
  obey-IsTimely :
      (c : CommandMessage) (s : Flight) → IsTimely clock s → IsTimely clock (obey clock c s)
  unfolding obey
  obey-IsTimely c s h =
      elim (Bool-cases (is_accepted (process s.processor c).1.status && is_set_period c.command)) [
        | inl set ↦ rw set (omega (arith, steady s.clock_reads))
        | inr kept ↦
            rw (kept, process_period s.processor c kept) (omega (arith, steady s.clock_reads))
      ]

  handle_stream_event-IsTimely :
      (e : FrameStreamEvent) (s : Flight)
      → IsTimely clock s
      → IsTimely clock (handle_stream_event clock e s)
  unfolding handle_stream_event
  handle_stream_event-IsTimely e s h =
      choose-IsTimely clock (not (is_frame_decoded e.status)) s _ h (
        choose-IsTimely clock (not (command_ok (decode_command (span e.frame)).status)) s _ h
          (obey-IsTimely (decode_command (span e.frame)).message s h))

  handle_all-IsTimely :
      (es : List FrameStreamEvent) (s : Flight)
      → IsTimely clock s
      → IsTimely clock (handle_all clock es s)
  unfolding handle_all
  handle_all-IsTimely [] s h = h
  handle_all-IsTimely (e ∷ es) s h =
      handle_all-IsTimely es (handle_stream_event clock e s) (handle_stream_event-IsTimely e s h)

  drain_bytes-IsTimely :
      (bytes : List ℕ) (s : Flight) → IsTimely clock s → IsTimely clock (drain_bytes clock bytes s)
  unfolding drain_bytes
  drain_bytes-IsTimely [] s h = h
  drain_bytes-IsTimely (byte ∷ bytes) s h =
      let pushed = push (byte ∷ []) s.stream_decoder in
      drain_bytes-IsTimely bytes
        (handle_all clock pushed.1 (record s { stream_decoder = pushed.0 }))
        (handle_all-IsTimely pushed.1 (record s { stream_decoder = pushed.0 }) h)

  drain-IsTimely :
      (bytes : List ℕ) (s : Flight) → IsTimely clock s → IsTimely clock (drain clock bytes s)
  unfolding drain
  drain-IsTimely bytes s h =
      choose-IsTimely clock (not s.link.ready) s (drain_bytes clock bytes s) h
        (drain_bytes-IsTimely bytes s h)

  sample-IsAhead :
      (now : ℕ) (s : Flight)
      → IsFlying s
      → s.next_telemetry_deadline ≤ now
      → IsAhead now (sample now s)
  unfolding sample
  sample-IsAhead now s h due =
      advance_bounds (suc (now - s.next_telemetry_deadline))
        s.processor.configuration.telemetry_period_ms now s.next_telemetry_deadline
        (omega (arith, h.governed.period_low)) due (omega arith)

  pub round-IsAhead :
      (bytes : List ℕ) (s : Flight)
      → AreBytes bytes
      → IsFlying s
      → IsTimely clock s
      → IsAhead (clock (drain clock bytes s).clock_reads) (round clock bytes s)
        × ((round clock bytes s).clock_reads ≡ suc (drain clock bytes s).clock_reads)
  unfolding round
  round-IsAhead bytes s b h t =
      let drained = drain clock bytes s in
      let now = clock drained.clock_reads in
      elim (Bool-cases (leb drained.next_telemetry_deadline now)) [
        | inl due ↦ rw due (
          sample-IsAhead now (timed drained) (with_reads drained (drain-IsFlying clock bytes s b h))
              (leb→le drained.next_telemetry_deadline now due),
          sample_reads now (timed drained),
        )
        | inr early ↦
            rw early
              ((leb→lt drained.next_telemetry_deadline now early, drain-IsTimely bytes s t), refl)
      ]

  round-IsTimely :
      (bytes : List ℕ) (s : Flight)
      → AreBytes bytes
      → IsFlying s
      → IsTimely clock s
      → IsTimely clock (round clock bytes s)
  round-IsTimely bytes s b h t =
      let ahead = round-IsAhead bytes s b h t in
      rw ahead.1 (omega (arith, ahead.0.1, steady (drain clock bytes s).clock_reads))

  rounds-IsTimely :
      (arrivals : List (List ℕ)) (s : Flight)
      → AllBytes arrivals
      → IsFlying s
      → IsTimely clock s
      → IsTimely clock (rounds clock arrivals s)
  unfolding rounds
  rounds-IsTimely [] s b h t = t
  rounds-IsTimely (bytes ∷ later) s b h t =
      rounds-IsTimely later (round clock bytes s) b.1 (round-IsFlying clock bytes s b.0 h)
        (round-IsTimely bytes s b.0 h t)

  start-IsTimely : (uart_ready : Bool) → IsTimely clock (start clock uart_ready)
  unfolding start
  start-IsTimely uart_ready = omega (arith, steady 0)

-- With a clock that does not go back, at the end of every round after boot, whatever bytes arrive,
-- the telemetry deadline lies after the time that the round has read, and at most one telemetry
-- period after it.
pub flight-IsAhead :
    (clock : ℕ → ℕ) (uart_ready : Bool) (arrivals : List (List ℕ)) (bytes : List ℕ)
    → IsClock clock
    → AllBytes arrivals
    → AreBytes bytes
    → let s = rounds clock arrivals (start clock uart_ready) in
      IsAhead (clock (drain clock bytes s).clock_reads) (round clock bytes s)
flight-IsAhead clock uart_ready arrivals bytes steady b b' =
    (round-IsAhead clock steady bytes (rounds clock arrivals (start clock uart_ready)) b'
      (flight-IsFlying clock uart_ready arrivals b)
      (rounds-IsTimely clock steady arrivals (start clock uart_ready) b
        (start-IsFlying clock uart_ready) (start-IsTimely clock steady uart_ready))).0
