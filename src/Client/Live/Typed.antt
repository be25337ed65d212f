-- ===== src/Client/Live/Typed.antt =====
-- The commands that the operator types, as `parse` reads them.
use apogee_fc.Base.{
  ℕ, ◌+◌, ◌%◌, ◌^◌, ◌<◌, refl, sym, subst, arith, List, [], ◌∷◌, ◌++◌, not, if◌then◌else◌, Option,
  none, some,
}
use apogee_fc.Command.{CommandMessage}
use apogee_fc.Ground.Sequencer.{CommandSequencer, LocalCommandStatus, LocalCommandResult, parse}
use apogee_fc.Ground.Sequencer.Lines.{Request, quit, request, Spelled, granted}
use apogee_fc.Ground.Sequencer.Grammar.{spelled, refused, parse-Reading}
use apogee_fc.Client.Live.{PollBoth, Turn}
use apogee_fc.Client.Live.Commands.{Numbered, Spelled-IsKnown}

-- The command of a parsed line, if it is one.
abbrev pub command_of : LocalCommandStatus → CommandMessage → List CommandMessage
command_of LocalCommandStatus.command c = c ∷ []
command_of _ c = []

-- The line that a round reads, if it reads one, and what `parse` makes of it.
abbrev pub line_of : PollBoth → Option (List ℕ) → Option (List ℕ)
line_of (PollBoth.poll_failed _) line = none
line_of (PollBoth.polled _ input) line = if not input.readable then none else line

abbrev pub parsed : CommandSequencer × LocalCommandResult → CommandSequencer × List CommandMessage
parsed (q, result) = (q, command_of result.status result.command)

abbrev pub entered : Option (List ℕ) → CommandSequencer → CommandSequencer × List CommandMessage
entered none q = (q, [])
entered (some line) q = parsed (parse line q)

-- The commands that the operator types in the rounds, one line after the other.
abbrev pub typed : List Turn → CommandSequencer → CommandSequencer × List CommandMessage
typed [] q = (q, [])
typed (t ∷ ts) q =
    let (q', cs) = entered (line_of t.poll t.line) q in
    let (q'', cs') = typed ts q' in (q'', cs ++ cs')

-- The commands of parsed lines are known, and numbered one after the other.
granted-Numbered :
    (text : List ℕ) (r : Request) (q : CommandSequencer)
    → Spelled text r
    → q.next_sequence < 2 ^ 32
    → Numbered q.next_sequence (parsed (granted r q)).1 (parsed (granted r q)).0.next_sequence
granted-Numbered text quit q h f = refl
granted-Numbered text (request id period_ms) q h f =
    (refl, Spelled-IsKnown text (request id period_ms) q h f refl, refl)

entered-Numbered :
    (line : Option (List ℕ)) (q : CommandSequencer)
    → q.next_sequence < 2 ^ 32
    → Numbered q.next_sequence (entered line q).1 (entered line q).0.next_sequence
entered-Numbered none q f = refl
entered-Numbered (some line) q f =
    let numbered = λ (x : CommandSequencer × LocalCommandResult).
      Numbered q.next_sequence (parsed x).1 (parsed x).0.next_sequence in
    elim (parse-Reading line q) [
      | spelled before text after r hb ha e h reads ↦
          subst numbered (sym reads) (granted-Numbered text r q h f)
      | refused reads ↦ subst numbered (sym reads) refl
    ]

Numbered-concat :
    (n m k : ℕ) (cs ds : List CommandMessage)
    → Numbered n cs m
    → Numbered m ds k
    → Numbered n (cs ++ ds) k
Numbered-concat n m k [] ds h g = subst (λ j. Numbered j ds k) (sym h) g
Numbered-concat n m k (c ∷ cs) ds h g =
    (h.0, h.1, Numbered-concat ((n + 1) % 2 ^ 32) m k cs ds h.2 g)

Numbered-lt : (n m : ℕ) (cs : List CommandMessage) → n < 2 ^ 32 → Numbered n cs m → m < 2 ^ 32
Numbered-lt n m [] h e = omega arith
Numbered-lt n m (c ∷ cs) h e = Numbered-lt ((n + 1) % 2 ^ 32) m cs (omega arith) e.2

-- The commands that are typed from a sequencer on are known, and numbered without a gap from its next
-- number to the one after them, modulo 2^32.
pub typed-Numbered :
    (ts : List Turn) (q : CommandSequencer)
    → q.next_sequence < 2 ^ 32
    → Numbered q.next_sequence (typed ts q).1 (typed ts q).0.next_sequence
typed-Numbered [] q f = refl
typed-Numbered (t ∷ ts) q f =
    let (q', cs) = entered (line_of t.poll t.line) q in
    let first = entered-Numbered (line_of t.poll t.line) q f in
    let f' = Numbered-lt q.next_sequence q'.next_sequence cs f first in
    let (q'', ds) = typed ts q' in
    Numbered-concat q.next_sequence q'.next_sequence q''.next_sequence cs ds first
      (typed-Numbered ts q' f')
