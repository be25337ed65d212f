-- ===== src/Client/Socket/SendAll.antt =====
-- The bytes that `send_all` hands to the socket.
use apogee_fc.Base.{
  ℕ, zero, suc, ◌+◌, ◌-◌, ◌≤◌, ◌<◌, ◌≡◌, ◌≢◌, refl, sym, ap, ◌∙◌, subst, arith, List, [], ◌∷◌, ◌++◌,
  true, false, ltb, ltb→lt, ltb→le, take, drop, length-take, drop-all, take-append-drop,
  append_assoc, append-nil, inl, inr, Bool-cases,
}
use Prim.Native.Nat.{min}
use native.Mathlib.Nat.{zero-add, suc-add}
use apogee_fc.Frame.{EncodedFrame, span}
use apogee_fc.Client.Socket.{
  Errno, eintr, eagain, ewouldblock, SendReply, room, send_failed, PollReply, returned, waiting,
  retry, SendStatus, all_sent, not_sent, pending, Sending, sending, send_from, send_all,
}

-- The socket holds `n` of the frame's bytes behind `wire`; `all_sent` says that these are all.
pub record Handed (frame : EncodedFrame) (wire : List ℕ) (s : Sending) : Type 0 where
  pub count : ℕ
  pub within : count ≤ frame.size
  pub gone : s.wire ≡ wire ++ take count frame.bytes
  pub complete : s.status ≡ all_sent → count ≡ frame.size
  pub partial : s.status ≢ all_sent → count < frame.size

take-nothing : (n : ℕ) → ◌≡◌ {A = List ℕ} (take n []) []
take-nothing zero = refl
take-nothing (suc n) = refl

take-add : (m n : ℕ) (xs : List ℕ) → take (m + n) xs ≡ take m xs ++ take n (drop m xs)
take-add zero n xs = rw zero-add
take-add (suc m) n [] = take-nothing (suc m + n) ∙ sym (take-nothing n)
take-add (suc m) n (x ∷ xs) = rw (suc-add m n) (ap (λ r. x ∷ r) (take-add m n xs))

-- Where the loop stops at `offset`: behind the last byte, or before it.
finished-Handed :
    (frame : EncodedFrame) (offset : ℕ) (wire : List ℕ)
    → offset ≤ frame.size
    → ltb offset frame.size ≡ false
    → Handed frame wire (sending all_sent (wire ++ take offset frame.bytes))
finished-Handed frame offset wire h e = record {
  count = offset;
  within = h;
  gone = refl;
  complete = λ _. omega (arith, ltb→le offset frame.size e);
  partial = λ p. absurd (p refl);
}

broken-Handed :
    (frame : EncodedFrame) (offset : ℕ) (wire : List ℕ) (status : SendStatus)
    → offset < frame.size
    → status ≢ all_sent
    → Handed frame wire (sending status (wire ++ take offset frame.bytes))
broken-Handed frame offset wire status h p = record {
  count = offset;
  within = omega arith;
  gone = refl;
  complete = λ e. absurd (p e);
  partial = λ _. h;
}

-- One `send` moves the bytes at `offset` to the socket.
move :
    (frame : EncodedFrame) (offset sent : ℕ) (wire : List ℕ)
    → (wire ++ take offset frame.bytes) ++ take sent (drop offset frame.bytes)
      ≡ wire ++ take (offset + sent) frame.bytes
move frame offset sent wire =
    append_assoc wire (take offset frame.bytes) (take sent (drop offset frame.bytes))
    ∙ ap (λ t. wire ++ t) (sym (take-add offset sent frame.bytes))

not_sent-ne-all_sent : not_sent ≢ all_sent
not_sent-ne-all_sent e = ground arith

pending-ne-all_sent : pending ≢ all_sent
pending-ne-all_sent e = ground arith

send_from-Handed :
    (frame : EncodedFrame) (offset : ℕ) (wire : List ℕ) (sends : List SendReply)
    (polls : List PollReply)
    → offset ≤ frame.size
    → Handed frame wire (send_from frame offset (wire ++ take offset frame.bytes) sends polls)
unfolding send_from
send_from-Handed frame offset wire [] polls h = elim (Bool-cases (ltb offset frame.size)) [
  | inr finished ↦ rw finished (finished-Handed frame offset wire h finished)
  | inl more ↦
      rw more (broken-Handed frame offset wire pending (ltb→lt _ _ more) pending-ne-all_sent)
]
send_from-Handed frame offset wire (room n ∷ sends) polls h =
    let sent = min n (frame.size - offset) in
    elim (Bool-cases (ltb offset frame.size)) [
      | inr finished ↦ rw finished (finished-Handed frame offset wire h finished)
      | inl more ↦ elim (Bool-cases (ltb 0 sent)) [
        | inl some_sent ↦
            rw (more, some_sent, move frame offset sent wire)
              (send_from-Handed frame (offset + sent) wire sends polls (omega arith))
        | inr none_sent ↦
            rw (more, none_sent)
              (broken-Handed frame offset wire not_sent (ltb→lt _ _ more) not_sent-ne-all_sent)
      ]
    ]
send_from-Handed frame offset wire (send_failed errno ∷ sends) polls h =
    elim (Bool-cases (ltb offset frame.size)) [
      | inr finished ↦ rw finished (finished-Handed frame offset wire h finished)
      | inl more ↦
          rw more
            (elim (retry errno polls)
              as (λ w. Handed frame wire (elim w [
                | returned true polls' ↦
                    send_from frame offset (wire ++ take offset frame.bytes) sends polls'
                | returned false _ ↦ sending not_sent (wire ++ take offset frame.bytes)
                | waiting ↦ sending pending (wire ++ take offset frame.bytes)
              ])) [
                | returned true polls' ↦ send_from-Handed frame offset wire sends polls' h
                | returned false _ ↦
                    broken-Handed frame offset wire not_sent (ltb→lt _ _ more) not_sent-ne-all_sent
                | waiting ↦
                    broken-Handed frame offset wire pending (ltb→lt _ _ more) pending-ne-all_sent
              ])
    ]

-- However the socket takes the bytes: `send_all` has put the first `count` bytes of the frame on it, in
-- order and once; these are all the frame's bytes if it returns true, and fewer if it returns false or
-- waits.
pub send_all-Handed :
    (frame : EncodedFrame) (wire : List ℕ) (sends : List SendReply) (polls : List PollReply)
    → Handed frame wire (send_all frame wire sends polls)
unfolding send_all
send_all-Handed frame wire sends polls =
    subst (λ w. Handed frame wire (send_from frame 0 w sends polls)) (append-nil wire)
      (send_from-Handed frame 0 wire sends polls (omega arith))

-- Replies of a socket that stays open: it takes some byte, or the call is interrupted.
abbrev pub AreServing : List SendReply → Type 0
AreServing [] = Unit
AreServing (room n ∷ sends) = (0 < n) × AreServing sends
AreServing (send_failed eintr ∷ sends) = AreServing sends
AreServing (send_failed _ ∷ sends) = ⊥

abbrev pub capacity : List SendReply → ℕ
capacity [] = 0
capacity (room n ∷ sends) = n + capacity sends
capacity (send_failed _ ∷ sends) = capacity sends

send_from-all_sent :
    (frame : EncodedFrame) (offset : ℕ) (wire : List ℕ) (sends : List SendReply)
    (polls : List PollReply)
    → AreServing sends
    → frame.size ≤ offset + capacity sends
    → (send_from frame offset wire sends polls).status ≡ all_sent
unfolding send_from retry
send_from-all_sent frame offset wire [] polls h c = ground arith
send_from-all_sent frame offset wire (room n ∷ sends) polls h c =
    let sent = min n (frame.size - offset) in
    ground (
      arith,
      send_from-all_sent frame (offset + sent) (wire ++ take sent (drop offset frame.bytes)) sends
          polls h.1,
    )
send_from-all_sent frame offset wire (send_failed eintr ∷ sends) polls h c =
    ground (arith, send_from-all_sent frame offset wire sends polls h c)
send_from-all_sent frame offset wire (send_failed eagain ∷ sends) polls h c = absurd h
send_from-all_sent frame offset wire (send_failed ewouldblock ∷ sends) polls h c = absurd h
send_from-all_sent frame offset wire (send_failed (Errno.unlisted _) ∷ sends) polls h c = absurd h

-- With a socket that goes on taking bytes, interruptions included, until it has had room for the frame,
-- `send_all` returns true.
pub send_all-all_sent :
    (frame : EncodedFrame) (wire : List ℕ) (sends : List SendReply) (polls : List PollReply)
    → AreServing sends
    → frame.size ≤ capacity sends
    → (send_all frame wire sends polls).status ≡ all_sent
unfolding send_all
send_all-all_sent frame wire sends polls h c =
    send_from-all_sent frame 0 wire sends polls h (omega arith)

take-take : (m n : ℕ) (xs : List ℕ) → m ≤ n → take m (take n xs) ≡ take m xs
take-take zero n xs h = refl
take-take (suc m) zero xs h = absurd (omega arith)
take-take (suc m) (suc n) [] h = refl
take-take (suc m) (suc n) (x ∷ xs) h = ap (λ r. x ∷ r) (take-take m n xs (omega arith))

-- What is still to be sent.
pub Handed-rest :
    (frame : EncodedFrame) (wire : List ℕ) (s : Sending)
    → Handed frame wire s
    → (rest : List ℕ) × (s.wire ++ rest ≡ wire ++ span frame) × (s.status ≡ all_sent → rest ≡ [])
Handed-rest frame wire s h =
    let rest = drop h.count (span frame) in
    let split : take h.count frame.bytes ++ rest ≡ span frame =
      ap (λ t. t ++ rest) (sym (take-take h.count frame.size frame.bytes h.within))
      ∙ take-append-drop h.count (span frame) in
    (
      rest,
      ap (λ t. t ++ rest) h.gone
          ∙ append_assoc wire (take h.count frame.bytes) rest
          ∙ ap (λ t. wire ++ t) split,
      λ e.
          drop-all h.count (span frame)
            (omega (arith, h.complete e, length-take frame.size frame.bytes)),
    )
