-- ===== src/Client/Offline/Whole.antt =====
-- The loop of `run_offline` against one call of `feed`, and the exit code.
use apogee_fc.Base.{
  ℕ, zero, suc, ◌<◌, ◌≡◌, refl, sym, ap, ◌∙◌, ◌↔◌, arith, List, [], ◌∷◌, true, false, not, ltb,
  take, drop, length, length-drop, take-all, take-append-drop, some, inl, inr, Bool-cases, ltb→lt,
  ltb→le,
}
use apogee_fc.Stream
use apogee_fc.Stream.Delivery.{joined}
use apogee_fc.Stream.Ready.{initial-IsReady}
use apogee_fc.Ground
use apogee_fc.Ground.{GroundStreamProcessor, OutputLine, ErrorLine, feed, finish, handle_events}
use apogee_fc.Ground.Feeding.{feed-append}
use apogee_fc.Ground.Tally.{IsTallied, is_empty, initial-IsTallied, feed-IsTallied}
use apogee_fc.Ground.Printing.{AllSent, feed-AllSent}
use apogee_fc.Client.Offline.{read_loop, exit_code, run_offline}

-- With fuel above the length, the buffers together are the whole input.
read_loop-feed :
    (fuel : ℕ) (bytes : List ℕ) (p : GroundStreamProcessor)
    → length bytes < fuel
    → read_loop fuel bytes p ≡ feed bytes p
unfolding read_loop
read_loop-feed zero bytes p h = absurd (omega arith)
read_loop-feed (suc fuel) bytes p h = elim (Bool-cases (ltb (length bytes) 256)) [
  | inl short ↦
      rw short
        (ap (λ b. feed b p) (take-all 256 bytes (omega (arith, ltb→lt (length bytes) 256 short))))
  | inr long ↦ rw long (
      read_loop-feed fuel (drop 256 bytes) (feed (take 256 bytes) p)
        (omega (arith, length-drop 256 bytes, ltb→le (length bytes) 256 long))
      ∙ sym (feed-append (take 256 bytes) (drop 256 bytes) p)
      ∙ ap (λ b. feed b p) (take-append-drop 256 bytes))
]

-- The processor at the end of a file that can be read.
abbrev pub whole : List ℕ → GroundStreamProcessor
whole contents = finish (feed contents Ground.initial)

is_empty_sound : (es : List ErrorLine) → is_empty es ≡ true → es ≡ []
is_empty_sound [] h = refl
is_empty_sound (_ ∷ _) h = cc

exit_code_iff :
    (p : GroundStreamProcessor)
    → IsTallied p
    → (exit_code p ≡ 0) ↔ ((0 < length p.output) × (p.errors ≡ []))
unfolding exit_code
exit_code_iff p h = (
  λ e. (ground (arith, h.counted), is_empty_sound p.errors (ground (arith, h.flagged))),
  λ q.
      let quiet : p.malformed_input ≡ false = h.flagged ∙ ap (λ es. not (is_empty es)) q.1 in
      ground (arith, h.counted),
)

-- A file that can be read is decoded as if it were fed in one piece and then finished, and the exit
-- code is 0 exactly if some message has been printed and no error.
pub run_offline-whole :
    (contents : List ℕ)
    → let run = run_offline (some (record { contents = contents; bad = false })) in
      (run.processor ≡ whole contents)
      × ((run.code ≡ 0) ↔ ((0 < length run.processor.output) × (run.processor.errors ≡ [])))
unfolding run_offline
run_offline-whole contents =
    let read = read_loop-feed (suc (length contents)) contents Ground.initial (omega arith) in
    let tallied = (feed-IsTallied contents Ground.initial initial-IsTallied).1 in
    rw read (refl, exit_code_iff (whole contents) tallied)

finish-empty : (p : GroundStreamProcessor) → p.decoder.size ≡ 0 → finish p ≡ p
unfolding finish handle_events Stream.finish
finish-empty p e = rw e

-- A file of telemetry and acknowledgement frames as the flight computer sends them, at least one, ends
-- with exit code 0, one line for each frame in order, and no error.
pub run_offline-AllSent :
    (ws : List (List ℕ)) (ls : List OutputLine)
    → AllSent ws ls
    → 0 < length ls
    → let run = run_offline (some (record { contents = joined ws; bad = false })) in
      (run.code ≡ 0) × (run.processor.output ≡ ls) × (run.processor.errors ≡ []) × (run.errors ≡ [])
unfolding run_offline
run_offline-AllSent ws ls h nonempty =
    let contents = joined ws in
    let run = run_offline-whole contents in
    let fed = feed-AllSent ws ls Ground.initial h initial-IsReady refl in
    let finished : whole contents ≡ feed contents Ground.initial =
      finish-empty (feed contents Ground.initial) fed.4 in
    let output = ap (λ p. p.output) (run.0 ∙ finished) ∙ fed.0 in
    let errors = ap (λ p. p.errors) (run.0 ∙ finished) ∙ fed.2 in
    (run.1.1 (rw output nonempty, errors), output, errors, refl)
