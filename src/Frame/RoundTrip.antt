-- ===== src/Frame/RoundTrip.antt =====
-- `decode` after `encode`.
use apogee_fc.Base.{
  ℕ, ◌+◌, ◌≤◌, ◌<◌, ◌≡◌, refl, ap, ◌∙◌, arith, true, some, [], ◌∷◌, ◌++◌, length, take, drop,
  replicate, length-append, take-append, AreBytes, AreBytes-append, AreBytes-take, length-take,
}
use apogee_fc.Frame.{
  Frame, IsFrame, MessageType, EncodeStatus, DecodeStatus, encode_message_type, decode_message_type,
  decode_ok, span, read_u16_le,
}
use apogee_fc.Frame.Crc.{crc16_ccitt_false, crc16-lt}
use apogee_fc.Frame.Encode.{write_frame, encode}
use apogee_fc.Frame.Decode.{decode, read_frame, read_payload}
use apogee_fc.Frame.Wire.{covered, wire, length-covered, write_frame-wire, u16_bytes, u32_bytes}
use apogee_fc.Frame.Accept.{
  IsAccepted, decode_of_IsAccepted, read_u16_split, read_u32_split, read_u16_behind,
  read_payload-zero,
}

-- The frame with the unused end of its payload cleared, as `decode` returns it.
abbrev pub cleared : Frame → Frame
cleared f = record f {
  payload = take f.payload_length f.payload ++ drop f.payload_length (replicate 64 0);
}

pub decode-encode_message_type :
    (m : MessageType) (t : ℕ) → encode_message_type m ≡ some t → decode_message_type t ≡ some m
decode-encode_message_type m t h = ground arith

module _ (f : Frame) (t : ℕ) (fr : IsFrame f) (v : f.version ≡ 1)
    (kind : encode_message_type f.message_type ≡ some t) (fits : f.payload_length ≤ 64) where
  wire_payload_length : read_u16_le (wire f t) 4 ≡ f.payload_length
  wire_payload_length = read_u16_split f.payload_length fr.length_fits

  pub length-wire : length (wire f t) ≡ 12 + f.payload_length
  length-wire = omega (
    arith,
    length-covered f t fr.payload_size fits,
    length-append (covered f t) (u16_bytes (crc16_ccitt_false (covered f t))),
  )

  wire-covered : take (8 + f.payload_length) (drop 2 (wire f t)) ≡ covered f t
  wire-covered =
      take-append (8 + f.payload_length) (covered f t) (u16_bytes (crc16_ccitt_false (covered f t)))
        (length-covered f t fr.payload_size fits)

  wire_checksum : read_u16_le (wire f t) (10 + f.payload_length) ≡ crc16_ccitt_false (covered f t)
  wire_checksum =
      read_u16_behind (10 + f.payload_length) (0xa5 ∷ 0x5a ∷ covered f t) []
        (crc16_ccitt_false (covered f t)) (omega (arith, length-covered f t fr.payload_size fits))
        (crc16-lt (covered f t))

  kind_back : decode_message_type t ≡ some f.message_type
  kind_back = decode-encode_message_type f.message_type t kind

  wire-IsAccepted : IsAccepted (wire f t) f.message_type
  wire-IsAccepted = record {
    long = omega (arith, length-wire);
    sync_first = refl;
    sync_second = refl;
    version = v;
    kind = kind_back;
    fits = omega (arith, wire_payload_length);
    exact = omega (arith, length-wire, wire_payload_length);
    checksum = rw (wire_payload_length, wire-covered, wire_checksum);
  }

  wire_payload : take f.payload_length (drop 10 (wire f t)) ≡ take f.payload_length f.payload
  wire_payload =
      take-append f.payload_length (take f.payload_length f.payload)
        (u16_bytes (crc16_ccitt_false (covered f t)))
        (omega (arith, length-take f.payload_length f.payload, fr.payload_size))

  read_payload-wire :
      read_payload (read_u16_le (wire f t) 4) 0 (wire f t) (replicate 64 0) ≡ (cleared f).payload
  read_payload-wire = rw (
    wire_payload_length,
    read_payload-zero f.payload_length (wire f t) fits (omega (arith, length-wire)),
    wire_payload,
  )

  read_frame-wire : read_frame (wire f t) f.message_type ≡ cleared f
  unfolding read_frame
  read_frame-wire = λ i. record {
    version = f.version;
    message_type = f.message_type;
    payload_length = wire_payload_length i;
    sequence = read_u32_split f.sequence fr.sequence_fits i;
    payload = read_payload-wire i;
  }

  pub decode-wire : decode (wire f t) ≡ record { status = DecodeStatus.ok; frame = cleared f }
  decode-wire =
      decode_of_IsAccepted (wire f t) f.message_type wire-IsAccepted
      ∙ ap (λ g. record { status = DecodeStatus.ok; frame = g }) read_frame-wire

-- A frame that `encode` takes, with the code of its type.
pub record IsSendable (f : Frame) (t : ℕ) : Type 0 where
  pub frame : IsFrame f
  pub version : f.version ≡ 1
  pub kind : encode_message_type f.message_type ≡ some t
  pub fits : f.payload_length ≤ 64

pub encode_of_IsSendable :
    (f : Frame) (t : ℕ)
    → IsSendable f t
    → encode f ≡ record { status = EncodeStatus.ok; frame = write_frame f t }
unfolding encode
encode_of_IsSendable f t s = ground arith

pub span-encode : (f : Frame) (t : ℕ) → IsSendable f t → span (encode f).frame ≡ wire f t
span-encode f t s =
    ap (λ r. span r.frame) (encode_of_IsSendable f t s)
    ∙ write_frame-wire f t s.frame.payload_size s.fits

-- A frame with fields in the ranges of their types, of the current version, with a known type and at
-- most 64 payload bytes, encodes without error, and decoding the encoded bytes gives the frame back,
-- its payload cleared behind its length.
pub decode-encode :
    (f : Frame) (t : ℕ)
    → IsSendable f t
    → ((encode f).status ≡ EncodeStatus.ok)
      × (decode (span (encode f).frame) ≡ record { status = DecodeStatus.ok; frame = cleared f })
decode-encode f t s = (
  ap (λ r. r.status) (encode_of_IsSendable f t s),
  rw (span-encode f t s) (decode-wire f t s.frame s.version s.kind s.fits),
)

pub decode-write_frame :
    (f : Frame) (t : ℕ)
    → IsSendable f t
    → decode (span (write_frame f t)) ≡ record { status = DecodeStatus.ok; frame = cleared f }
decode-write_frame f t s =
    rw (write_frame-wire f t s.frame.payload_size s.fits)
      (decode-wire f t s.frame s.version s.kind s.fits)

type_code-lt : (m : MessageType) (t : ℕ) → encode_message_type m ≡ some t → t < 256
type_code-lt m t h = ground arith

u16_bytes-AreBytes : (n : ℕ) → AreBytes (u16_bytes n)
u16_bytes-AreBytes n = omega arith

pub wire-AreBytes : (f : Frame) (t : ℕ) → IsSendable f t → AreBytes (wire f t)
wire-AreBytes f t s =
    AreBytes-append (0xa5 ∷ 0x5a ∷ covered f t) (u16_bytes (crc16_ccitt_false (covered f t)))
      (
        omega arith,
        (
          omega arith,
          AreBytes-append (f.version ∷ t ∷ u16_bytes f.payload_length ++ u32_bytes f.sequence)
              (take f.payload_length f.payload)
              (omega (arith, s.frame.version_fits, type_code-lt f.message_type t s.kind))
              (AreBytes-take f.payload_length f.payload s.frame.payload_bytes),
        ),
      )
      (u16_bytes-AreBytes (crc16_ccitt_false (covered f t)))

-- What `encode` writes is bytes, and `decode` accepts it.
pub write_frame_sound :
    (f : Frame) (t : ℕ)
    → IsSendable f t
    → AreBytes (span (write_frame f t))
      × (decode_ok (decode (span (write_frame f t))).status ≡ true)
write_frame_sound f t s = (
  rw (write_frame-wire f t s.frame.payload_size s.fits) (wire-AreBytes f t s),
  ap (λ r. decode_ok r.status) (decode-write_frame f t s),
)
