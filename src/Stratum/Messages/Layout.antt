-- ===== src/Stratum/Messages/Layout.antt =====
-- The shape of each message type: what its derived `Deserialize` asks for, for the types that
-- `build_message_from_frame` knows.
use bic_os.Base.{Option, none, some, List, [], ◌∷◌}
use bic_os.Stratum.Serialization.{
  Width, Name, Shape, Shapes, str0_32, str0_255, str1_255, bytes0_32,
}
use bic_os.Stratum.Types.{uint256_shape}
use bic_os.Stratum.Messages.{MessageType}

abbrev pub shapes : List Shape → Shapes
shapes [] = Shapes.nil
shapes (s ∷ ss) = Shapes.cons s (shapes ss)

abbrev pub struct_shape : List Shape → Shape
struct_shape ss = Shape.tuple (shapes ss)

abbrev pub text_shape : Name → Shape
text_shape n = Shape.newtype n Shape.string

abbrev pub bytes_shape : Name → Shape
bytes_shape n = Shape.newtype n (Shape.seq (Shape.unsigned Width.w8))

abbrev pub device_info_shape : Shape
device_info_shape =
    struct_shape
      (text_shape str0_255 ∷ text_shape str0_255 ∷ text_shape str0_255 ∷ text_shape str0_255 ∷ [])

-- The shape of each message that `build_message_from_frame` knows.
abbrev pub shape_of : MessageType → Option Shape
shape_of MessageType.setup_connection = some (
    struct_shape (
      Shape.unsigned Width.w8
      ∷ Shape.unsigned Width.w16
      ∷ Shape.unsigned Width.w16
      ∷ Shape.unsigned Width.w32
      ∷ text_shape str0_255
      ∷ Shape.unsigned Width.w16
      ∷ device_info_shape
      ∷ []))
shape_of MessageType.setup_connection_success =
    some (struct_shape (Shape.unsigned Width.w16 ∷ Shape.unsigned Width.w32 ∷ []))
shape_of MessageType.setup_connection_error =
    some (struct_shape (Shape.unsigned Width.w32 ∷ text_shape str0_255 ∷ []))
shape_of MessageType.open_standard_mining_channel =
    some (
      struct_shape
        (Shape.unsigned Width.w32 ∷ text_shape str1_255 ∷ Shape.f32 ∷ uint256_shape ∷ []))
shape_of MessageType.open_standard_mining_channel_success = some (
    struct_shape (
      Shape.unsigned Width.w32
      ∷ Shape.unsigned Width.w32
      ∷ uint256_shape
      ∷ bytes_shape bytes0_32
      ∷ Shape.unsigned Width.w32
      ∷ []))
shape_of MessageType.open_standard_mining_channel_error =
    some (struct_shape (Shape.unsigned Width.w32 ∷ text_shape str0_32 ∷ []))
shape_of MessageType.submit_shares_standard = some (
    struct_shape (
      Shape.unsigned Width.w32
      ∷ Shape.unsigned Width.w32
      ∷ Shape.unsigned Width.w32
      ∷ Shape.unsigned Width.w32
      ∷ Shape.unsigned Width.w32
      ∷ Shape.unsigned Width.w32
      ∷ []))
shape_of MessageType.submit_shares_success = some (
    struct_shape (
      Shape.unsigned Width.w32
      ∷ Shape.unsigned Width.w32
      ∷ Shape.unsigned Width.w32
      ∷ Shape.unsigned Width.w32
      ∷ []))
shape_of MessageType.submit_shares_error =
    some
      (struct_shape (Shape.unsigned Width.w32 ∷ Shape.unsigned Width.w32 ∷ text_shape str0_32 ∷ []))
shape_of MessageType.new_mining_job = some (
    struct_shape (
      Shape.unsigned Width.w32
      ∷ Shape.unsigned Width.w32
      ∷ Shape.bool
      ∷ Shape.unsigned Width.w32
      ∷ uint256_shape
      ∷ []))
shape_of MessageType.set_new_prev_hash = some (
    struct_shape (
      Shape.unsigned Width.w32
      ∷ Shape.unsigned Width.w32
      ∷ uint256_shape
      ∷ Shape.unsigned Width.w32
      ∷ Shape.unsigned Width.w32
      ∷ []))
shape_of MessageType.set_target =
    some (struct_shape (Shape.unsigned Width.w32 ∷ uint256_shape ∷ []))
shape_of _ = none
