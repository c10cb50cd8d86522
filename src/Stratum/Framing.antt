-- ===== src/Stratum/Framing.antt =====
-- open/protocols/stratum/src/v2/framing.rs and open/protocols/stratum/src/payload.rs: the header of
-- a frame, its payload, and frames as bytes. A panic (`assert!`, `expect`, a read past the end of
-- a buffer) is an error.
pub mod Headers
pub mod Frames
mod Tests
use bic_os.Base.{
  ℕ, Bool, true, false, Option, none, some, List, [], ◌∷◌, ◌++◌, ◌+◌, ◌*◌, ◌^◌, ◌%◌, Result, ok,
  err, ◌>>=◌, ◌>>◌, guard, leb, ◌==◌, not, length, le_bytes, from_le, if◌then◌else◌,
}
use Prim.Native.Nat.{bit_and, bit_or}
use bic_os.Stratum.Serialization

pub data Error : Type 0 where
  -- `Header::new`: message too large.
  message_too_large : Error
  -- `Header::serialize`: no message length specified.
  no_message_length : Error
  -- A `get_*` of `bytes` on a buffer that is too short.
  short_buffer : Error
  -- `Frame::deserialize`: the length and the remaining data do not match.
  malformed_header : Error
  -- An error of the payload's serializer.
  payload : Serialization.Error → Error

pub record Header : Type 0 where
  pub is_channel_message : Bool
  pub extension_type : ℕ
  pub msg_type : ℕ
  pub msg_length : Option ℕ

abbrev pub header_size : ℕ
header_size = 6

abbrev pub len_size : ℕ
len_size = 3

abbrev pub max_len : ℕ
max_len = 0xff_ffff

-- `1u16 << CHANNEL_MSG_SHIFT`, and its complement in 16 bits.
abbrev pub channel_msg_mask : ℕ
channel_msg_mask = 32768

abbrev pub extension_mask : ℕ
extension_mask = 32767

abbrev unwrap_or : Option ℕ → ℕ → ℕ
unwrap_or none d = d
unwrap_or (some n) d = n

-- `Option::or`.
abbrev or_else : Option ℕ → Option ℕ → Option ℕ
or_else none o = o
or_else (some n) o = some n

unfoldable pub new : Bool → ℕ → ℕ → Option ℕ → Result Error Header
new channel ext ty len = do
  guard (leb (unwrap_or len 0) max_len) message_too_large
  ok (record {
    is_channel_message = channel;
    extension_type = ext;
    msg_type = ty;
    msg_length = len;
  })

-- The extension type with the flag of a channel message in its top bit.
unfoldable pub extension_field : Header → ℕ
extension_field h = bit_or h.extension_type (if h.is_channel_message then channel_msg_mask else 0)

write_header : Header → Option ℕ → Result Error (List ℕ)
write_header h none = err no_message_length
write_header h (some n) = ok (le_bytes 2 (extension_field h) ++ (h.msg_type ∷ le_bytes len_size n))

-- `Header::serialize`: the bytes that are appended to `dst`.
unfoldable pub serialize_header : Header → Option ℕ → Result Error (List ℕ)
unfolding write_header
serialize_header h len = write_header h (or_else len h.msg_length)

-- `Header::deserialize`: the header, and what is left of `src`.
unfoldable pub deserialize_header : List ℕ → Result Error (Header × List ℕ)
deserialize_header (e0 ∷ e1 ∷ ty ∷ l0 ∷ l1 ∷ l2 ∷ src) =
    let field = from_le (e0 ∷ e1 ∷ []) in
    ok (
      record {
        is_channel_message = not (bit_and field channel_msg_mask == 0);
        extension_type = bit_and field extension_mask;
        msg_type = ty;
        msg_length = some (from_le (l0 ∷ l1 ∷ l2 ∷ []));
      },
      src,
    )
deserialize_header _ = err short_buffer

-- `AnyPayload`: what a frame needs of the messages that it carries unserialized.
pub record AnyPayload (P : Type 0) : Type 0 where
  pub serialize_to_writer : P → Result Serialization.Error (List ℕ)

pub data Payload (P : Type 0) : Type 0 where
  serialized_bytes : List ℕ → Payload P
  lazy_bytes : P → Payload P

pub record Frame (P : Type 0) : Type 0 where
  pub header : Header
  pub payload : Payload P

module _ {P : Type 0} (p : AnyPayload P) where
  lift_payload : Result Serialization.Error (List ℕ) → Result Error (List ℕ)
  lift_payload (ok bs) = ok bs
  lift_payload (err e) = err (payload e)

  -- `Payload::serialize_to_writer` and `into_bytes_mut`.
  unfoldable pub payload_bytes : Payload P → Result Error (List ℕ)
  unfolding lift_payload
  payload_bytes (serialized_bytes bs) = ok bs
  payload_bytes (lazy_bytes m) = lift_payload (p.serialize_to_writer m)

  -- `Frame::serialize`: the payload first, then the header with its length cast to `u32`.
  unfoldable pub serialize_frame : Frame P → Result Error (List ℕ)
  serialize_frame f = do
    body ← payload_bytes f.payload
    head ← serialize_header f.header (some (length body % 2 ^ 32))
    ok (head ++ body)

-- `Frame::deserialize`.
unfoldable pub deserialize_frame : {P : Type 0} → List ℕ → Result Error (Frame P)
deserialize_frame src = do
  (h, rest) ← deserialize_header src
  guard (unwrap_or h.msg_length 0 == length rest) malformed_header
  ok (record { header = h; payload = serialized_bytes rest })

-- `from_serialized_payload`.
unfoldable pub from_serialized_payload :
    {P : Type 0} → Bool → ℕ → ℕ → List ℕ → Result Error (Frame P)
unfolding new
from_serialized_payload channel ext ty bs = do
  h ← new channel ext ty (some (length bs % 2 ^ 32))
  ok (record { header = h; payload = serialized_bytes bs })

-- `from_serializable_payload`: the length is not known yet.
unfoldable pub from_serializable_payload : {P : Type 0} → Bool → ℕ → ℕ → P → Result Error (Frame P)
unfolding new
from_serializable_payload channel ext ty m = do
  h ← new channel ext ty none
  ok (record { header = h; payload = lazy_bytes m })
