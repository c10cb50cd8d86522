-- ===== src/Stratum/Messages/Dispatch.antt =====
-- Messages as frames and frames as messages: `impl_message_conversion!` of
-- open/protocols/stratum/src/v2/macros.rs and `build_message_from_frame` of
-- open/protocols/stratum/src/v2.rs.
use bic_os.Base.{ℕ, Bool, Option, none, some, List, Result, ok, err, ◌>>=◌}
use bic_os.Stratum.Serialization
use bic_os.Stratum.Serialization.{Value, Shape, custom}
use bic_os.Stratum.Serialization.Serializer.{to_vec}
use bic_os.Stratum.Serialization.Deserializer.{from_slice}
use bic_os.Stratum.Framing
use bic_os.Stratum.Framing.{
  Header, AnyPayload, Frame, Payload, serialized_bytes, lazy_bytes, serialize_frame,
  deserialize_frame, from_serializable_payload,
}
use bic_os.Stratum.Messages.{
  Message, MessageType, code, from_primitive, type_of, is_channel_message,
}
use bic_os.Stratum.Messages.Encode.{to_value}
use bic_os.Stratum.Messages.Layout.{shape_of}
use bic_os.Stratum.Messages.Decode.{of_value}

pub data Error : Type 0 where
  unknown_message : Error
  serde : Serialization.Error → Error
  framing : Framing.Error → Error

-- `extensions::BASE`.
abbrev pub base : ℕ
base = 0

abbrev lift_serde {ℓ} : {A : Type ℓ} → Result Serialization.Error A → Result Error A
lift_serde (ok a) = ok a
lift_serde (err e) = err (serde e)

abbrev lift_framing {ℓ} : {A : Type ℓ} → Result Framing.Error A → Result Error A
lift_framing (ok a) = ok a
lift_framing (err e) = err (framing e)

-- `AnyPayload` of a message.
abbrev pub message_payload : AnyPayload Message
message_payload = record { serialize_to_writer = λ m. to_vec (to_value m) }

-- `TryFrom<$message> for Frame`.
unfoldable pub frame_of : Message → Result Framing.Error (Frame Message)
frame_of m = from_serializable_payload (is_channel_message m) base (code (type_of m)) m

-- What the typed value is made of always has the type's fields, so the first case is never met.
abbrev pub or_custom : Option Message → Result Error Message
or_custom none = err (serde custom)
or_custom (some m) = ok m

module _ (utf8 : List ℕ → Bool) where
  -- `TryFrom<&[u8]> for $message`, for the message types that have it.
  unfoldable pub message_of_bytes : MessageType → Shape → List ℕ → Result Error Message
  message_of_bytes t s bs = do v ← lift_serde (from_slice utf8 s bs); or_custom (of_value t v)

  -- The `match`: message types without a shape fall to its last arm.
  by_shape : MessageType → Option Shape → List ℕ → Result Error Message
  by_shape t none bs = err unknown_message
  by_shape t (some s) bs = message_of_bytes t s bs

  dispatch : Option MessageType → List ℕ → Result Error Message
  dispatch none bs = err unknown_message
  dispatch (some t) bs = by_shape t (shape_of t) bs

  from_payload : Payload Message → ℕ → Result Error Message
  unfolding dispatch by_shape message_of_bytes
  from_payload (lazy_bytes m) ty = ok m
  from_payload (serialized_bytes bs) ty = dispatch (from_primitive ty) bs

  unfoldable pub build_message_from_frame : Frame Message → Result Error (Header × Message)
  unfolding from_payload
  build_message_from_frame f = do m ← from_payload f.payload f.header.msg_type; ok (f.header, m)

  -- A message to a frame, to bytes, to a frame, to a message.
  unfoldable pub over_the_wire : Message → Result Error (Header × Message)
  over_the_wire m = do
    f ← lift_framing (frame_of m)
    bs ← lift_framing (serialize_frame message_payload f)
    g ← lift_framing (deserialize_frame bs)
    build_message_from_frame g
