-- ===== src/Stratum/Messages/RoundTrip.antt =====
-- A message that travels as a frame arrives as it was sent.
use mathlib.Core.Option.{some-injective}
use bic_os.Base.{
  >>=-eq-ok, ℕ, ◌≤◌, ◌<◌, ◌≡◌, refl, Bool, Option, none, some, List, ok, length, arith,
}
use bic_os.Stratum.Serialization.{Shape}
use bic_os.Stratum.Serialization.Deserializer.{from_slice, limits_of}
use bic_os.Stratum.Serialization.Size.{bound}
use bic_os.Stratum.Serialization.RoundTrip.{deserialize-serialize, from_slice-to_vec}
use bic_os.Stratum.Framing.{
  Header, Frame, lazy_bytes, serialized_bytes, max_len, payload_bytes, from_serializable_payload,
  serialize_frame, deserialize_frame,
}
use bic_os.Stratum.Framing.Headers.{IsHeader}
use bic_os.Stratum.Framing.Frames.{deserialize-serialize_frame}
use bic_os.Stratum.Messages.{
  Message, MessageType, code, from_primitive, type_of, is_channel_message,
}
use bic_os.Stratum.Messages.Encode.{to_value}
use bic_os.Stratum.Messages.Layout.{shape_of}
use bic_os.Stratum.Messages.Valid.{IsMessage}
use bic_os.Stratum.Messages.Shapes.{to_value-Fits, of_value-to_value}
use bic_os.Stratum.Messages.Dispatch.{
  base, message_payload, frame_of, build_message_from_frame, over_the_wire,
}

-- The codes are distinct bytes: `from_primitive` finds each type by its code.
pub from_primitive-code : (t : MessageType) → (from_primitive (code t) ≡ some t) × (code t < 256)
unfolding from_primitive
from_primitive-code MessageType.setup_connection = (refl, omega arith)
from_primitive-code _ = (refl, omega arith)

-- No message with a shape can outgrow a frame.
shape-bound : (t : MessageType) (s : Shape) → shape_of t ≡ some s → bound s ≤ max_len
unfolding bound limits_of
shape-bound MessageType.setup_connection s e = rw (← some-injective _ _ e) (omega arith)
shape-bound MessageType.setup_connection_success s e = rw (← some-injective _ _ e) (omega arith)
shape-bound MessageType.setup_connection_error s e = rw (← some-injective _ _ e) (omega arith)
shape-bound MessageType.open_standard_mining_channel s e = rw (← some-injective _ _ e) (omega arith)
shape-bound MessageType.open_standard_mining_channel_success s e =
    rw (← some-injective _ _ e) (omega arith)
shape-bound MessageType.open_standard_mining_channel_error s e =
    rw (← some-injective _ _ e) (omega arith)
shape-bound MessageType.submit_shares_standard s e = rw (← some-injective _ _ e) (omega arith)
shape-bound MessageType.submit_shares_success s e = rw (← some-injective _ _ e) (omega arith)
shape-bound MessageType.submit_shares_error s e = rw (← some-injective _ _ e) (omega arith)
shape-bound MessageType.new_mining_job s e = rw (← some-injective _ _ e) (omega arith)
shape-bound MessageType.set_new_prev_hash s e = rw (← some-injective _ _ e) (omega arith)
shape-bound MessageType.set_target s e = rw (← some-injective _ _ e) (omega arith)
shape-bound _ s e = cc

-- The header of a message that is sent.
abbrev pub header_of : Message → Option ℕ → Header
header_of m len = record {
  is_channel_message = is_channel_message m;
  extension_type = base;
  msg_type = code (type_of m);
  msg_length = len;
}

abbrev frame : Message → Frame Message
frame m = record { header = header_of m none; payload = lazy_bytes m }

frame_of-frame : (m : Message) → frame_of m ≡ ok (frame m)
unfolding frame_of from_serializable_payload
frame_of-frame m = refl

header_of-IsHeader : (m : Message) → IsHeader (header_of m none)
header_of-IsHeader m = record {
  extension_fits = omega arith;
  type_fits = (from_primitive-code (type_of m)).1;
}

module _ (utf8 : List ℕ → Bool) where
  -- What arrives as bytes is built into the message that they are the value of.
  built :
      (m : Message) (s : Shape) (h : Header) (bs : List ℕ)
      → h.msg_type ≡ code (type_of m)
      → shape_of (type_of m) ≡ some s
      → from_slice utf8 s bs ≡ ok (to_value m)
      → build_message_from_frame utf8 (record { header = h; payload = serialized_bytes bs })
        ≡ ok (h, m)
  unfolding build_message_from_frame
  built m s h bs ty e read =
      rw (ty, (from_primitive-code (type_of m)).0) (rw e (rw read (rw (of_value-to_value m s e))))

  -- A valid message of a type that `build_message_from_frame` knows, sent as a frame in bytes,
  -- arrives as it was, with the header of its type and the length of its payload.
  pub over_the_wire_lem :
      (m : Message) (s : Shape)
      → IsMessage utf8 m
      → shape_of (type_of m) ≡ some s
      → (n : ℕ) × (over_the_wire utf8 m ≡ ok (header_of m (some n), m))
  unfolding over_the_wire payload_bytes
  over_the_wire_lem m s v e =
      let fits = to_value-Fits utf8 m s v e in
      let (bs, written, back, short) = deserialize-serialize utf8 s (to_value m) fits in
      let read : from_slice utf8 s bs ≡ ok (to_value m) =
        rw written at (from_slice-to_vec utf8 s (to_value m) fits) in
      let small : length bs ≤ max_len = omega (arith, shape-bound (type_of m) s e) in
      let (sent, out, received) =
        >>=-eq-ok (serialize_frame message_payload (frame m)) (deserialize_frame {P = Message}) (
          deserialize-serialize_frame message_payload (frame m) bs (header_of-IsHeader m)
            (rw written) small) in
      (
        length bs,
        rw (frame_of-frame m)
            (rw out (rw received (built m s (header_of m (some (length bs))) bs refl e read))),
      )
