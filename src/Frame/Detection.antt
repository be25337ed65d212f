-- ===== src/Frame/Detection.antt =====
-- `decode` after a change of one byte.
use apogee_fc.Base.{
  ℕ, zero, suc, ◌+◌, ◌%◌, ◌/◌, ◌≤◌, ◌<◌, ◌≡◌, ◌≢◌, refl, sym, ap, ◌∙◌, arith, true, false, List, [],
  ◌∷◌, inl, inr, Bool-cases, ltb, ltb→lt, ltb→le, bit_or, u16, ◌<<<◌, length, set, take, drop,
  length-set, get_or-set_self, get_or-set_ne, length-take, length-drop, AreBytes-take,
  AreBytes-drop, get_or-take, get_or-drop, ap₂, subst, AreBytes, AreBytes-set,
}
use apogee_fc.Frame.{MessageType, byte_at, read_u16_le, decode_ok}
use apogee_fc.Frame.Crc.{crc16_ccitt_false}
use apogee_fc.Frame.Decode.{decode}
use apogee_fc.Frame.Fields.{read_u16_parts}
use apogee_fc.Frame.Accept.{IsAccepted, IsAccepted_of_ok}
use apogee_fc.Frame.Checksum.{crc_from-set}

-- The bytes that the checksum covers, with `n` payload bytes.
abbrev covered : ℕ → List ℕ → List ℕ
covered n bytes = take (8 + n) (drop 2 bytes)

take-set_commute :
    (n : ℕ) (bytes : List ℕ) (i v : ℕ)
    → i < n
    → i < length bytes
    → take n (set bytes i v) ≡ set (take n bytes) i v
take-set_commute zero bytes i v p h = absurd (omega arith)
take-set_commute (suc n) [] i v p h = absurd (omega arith)
take-set_commute (suc n) (x ∷ bytes) zero v p h = refl
take-set_commute (suc n) (x ∷ bytes) (suc i) v p h =
    ap (λ r. x ∷ r) (take-set_commute n bytes i v (omega arith) (omega arith))

take-set_outside :
    (n : ℕ) (bytes : List ℕ) (i v : ℕ)
    → n ≤ i
    → i < length bytes
    → take n (set bytes i v) ≡ take n bytes
take-set_outside zero bytes i v p h = refl
take-set_outside (suc n) bytes zero v p h = absurd (omega arith)
take-set_outside (suc n) [] (suc i) v p h = absurd (omega arith)
take-set_outside (suc n) (x ∷ bytes) (suc i) v p h =
    ap (λ r. x ∷ r) (take-set_outside n bytes i v (omega arith) (omega arith))

drop-set_two :
    (bytes : List ℕ) (i v : ℕ) → drop 2 (set bytes (suc (suc i)) v) ≡ set (drop 2 bytes) i v
drop-set_two [] i v = refl
drop-set_two (x ∷ []) i v = refl
drop-set_two (x ∷ y ∷ bytes) i v = refl

-- What a write at `2 + i` does to the covered bytes.
module _ (n : ℕ) (bytes : List ℕ) (i v : ℕ) (h : suc (suc i) < length bytes) where
  covered-set : i < 8 + n → covered n (set bytes (suc (suc i)) v) ≡ set (covered n bytes) i v
  covered-set p =
      ap (take (8 + n)) (drop-set_two bytes i v)
      ∙ take-set_commute (8 + n) (drop 2 bytes) i v p (omega (arith, length-drop 2 bytes))

  covered-set_outside : 8 + n ≤ i → covered n (set bytes (suc (suc i)) v) ≡ covered n bytes
  covered-set_outside p =
      ap (take (8 + n)) (drop-set_two bytes i v)
      ∙ take-set_outside (8 + n) (drop 2 bytes) i v p (omega (arith, length-drop 2 bytes))

-- A field of 16 bits tells its two bytes.
read_u16_tells :
    (xs ys : List ℕ) (k : ℕ)
    → AreBytes xs
    → AreBytes ys
    → read_u16_le xs k ≡ read_u16_le ys k
    → (byte_at xs k ≡ byte_at ys k) × (byte_at xs (k + 1) ≡ byte_at ys (k + 1))
read_u16_tells xs ys k h h' e =
    let (low, high, _) = read_u16_parts xs k h in
    let (low', high', _) = read_u16_parts ys k h' in
    (sym low ∙ ap (λ w. w % 256) e ∙ low', sym high ∙ ap (λ w. w / 256 % 256) e ∙ high')

-- A write at `2 + i` of a span whose checksum holds before and after it, with `n` payload bytes.
module _ (n : ℕ) (bytes : List ℕ) (i v : ℕ) where
  -- Where the checksum covers the byte, its field is not written.
  kept_field :
      suc (suc i) < length bytes
      → i < 8 + n
      → read_u16_le (set bytes (suc (suc i)) v) (10 + n) ≡ read_u16_le bytes (10 + n)
  kept_field l h =
      ap₂ (λ a b. u16 (bit_or a (u16 (b <<< 8))))
        (get_or-set_ne bytes (suc (suc i)) (10 + n) v 0 l (λ e. absurd (omega arith)))
        (get_or-set_ne bytes (suc (suc i)) (10 + n + 1) v 0 l (λ e. absurd (omega arith)))

  covered_same :
      AreBytes bytes
      → v < 256
      → i < 8 + n
      → length bytes ≡ 12 + n
      → crc16_ccitt_false (set (covered n bytes) i v) ≡ crc16_ccitt_false (covered n bytes)
      → v ≡ byte_at bytes (suc (suc i))
  unfolding crc16_ccitt_false
  covered_same h k l z e =
      crc_from-set 0xffff (covered n bytes) i v
        (AreBytes-take (8 + n) (drop 2 bytes) (AreBytes-drop 2 bytes h)) k
        (omega (arith, length-take (8 + n) (drop 2 bytes), length-drop 2 bytes)) e
      ∙ get_or-take (8 + n) i (drop 2 bytes) 0 l
      ∙ get_or-drop 2 i bytes 0
      ∙ ap (byte_at bytes) (omega arith)

  field_same :
      AreBytes bytes
      → v < 256
      → 8 + n ≤ i
      → suc (suc i) < length bytes
      → length bytes ≡ 12 + n
      → read_u16_le (set bytes (suc (suc i)) v) (10 + n) ≡ read_u16_le bytes (10 + n)
      → v ≡ byte_at bytes (suc (suc i))
  field_same h k l l' z e =
      let tells =
        read_u16_tells (set bytes (suc (suc i)) v) bytes (10 + n)
          (AreBytes-set bytes (suc (suc i)) v h k) h e in
      let same = λ (j : ℕ). byte_at (set bytes (suc (suc i)) v) j ≡ byte_at bytes j in
      let at_place : same (suc (suc i)) = elim (Bool-cases (ltb i (9 + n))) [
        | inl p ↦ subst same (omega (arith, ltb→lt i (9 + n) p)) tells.0
        | inr p ↦ subst same (omega (arith, ltb→le i (9 + n) p)) tells.1
      ] in
      sym (get_or-set_self bytes (suc (suc i)) v 0 l') ∙ at_place

  write_same :
      AreBytes bytes
      → v < 256
      → suc (suc i) < length bytes
      → length bytes ≡ 12 + n
      → crc16_ccitt_false (covered n bytes) ≡ read_u16_le bytes (10 + n)
      → crc16_ccitt_false (covered n (set bytes (suc (suc i)) v))
        ≡ read_u16_le (set bytes (suc (suc i)) v) (10 + n)
      → v ≡ byte_at bytes (suc (suc i))
  write_same h k l z e e' = elim (Bool-cases (ltb i (8 + n))) [
    | inl p ↦
        let l' = ltb→lt i (8 + n) p in
        let inside = sym (ap crc16_ccitt_false (covered-set n bytes i v l l')) in
        covered_same h k l' z (inside ∙ e' ∙ kept_field l l' ∙ sym e)
    | inr p ↦
        let l' = ltb→le i (8 + n) p in
        let outside = ap crc16_ccitt_false (covered-set_outside n bytes i v l l') in
        field_same h k l' l z (sym e' ∙ outside ∙ e)
  ]

-- The guards passed on both sides of a write: the byte was the same.
module _ (bytes : List ℕ) (v : ℕ) (m m' : MessageType) where
  accepted_same :
      (i : ℕ)
      → AreBytes bytes
      → v < 256
      → i < length bytes
      → IsAccepted bytes m
      → IsAccepted (set bytes i v) m'
      → v ≡ byte_at bytes i
  accepted_same zero h k l a a' =
      sym (get_or-set_self bytes 0 v 0 l) ∙ a'.sync_first ∙ sym a.sync_first
  accepted_same (suc zero) h k l a a' =
      sym (get_or-set_self bytes 1 v 0 l) ∙ a'.sync_second ∙ sym a.sync_second
  accepted_same (suc (suc i)) h k l a a' =
      let n = read_u16_le bytes 4 in
      let bytes' = set bytes (suc (suc i)) v in
      let same : read_u16_le bytes' 4 ≡ n =
        omega (arith, a.exact, a'.exact, length-set bytes (suc (suc i)) v l) in
      write_same n bytes i v h k l a.exact a.checksum (
        subst (λ t. crc16_ccitt_false (covered t bytes') ≡ read_u16_le bytes' (10 + t)) same
          a'.checksum)

-- A span of bytes that `decode` accepts is refused after any one of its bytes has been changed to
-- another byte.
pub decode_changed :
    (bytes : List ℕ) (i v : ℕ)
    → AreBytes bytes
    → decode_ok (decode bytes).status ≡ true
    → i < length bytes
    → v < 256
    → v ≢ byte_at bytes i
    → decode_ok (decode (set bytes i v)).status ≡ false
decode_changed bytes i v h ok l k other =
    elim (Bool-cases (decode_ok (decode (set bytes i v)).status)) [
      | inl ok' ↦
          let (m, a, _) = IsAccepted_of_ok bytes ok in
          let (m', a', _) = IsAccepted_of_ok (set bytes i v) ok' in
          absurd (other (accepted_same bytes v m m' i h k l a a'))
      | inr refused ↦ refused
    ]
