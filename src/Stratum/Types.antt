-- ===== src/Stratum/Types.antt =====
-- The sized text, byte and sequence types of open/protocols/stratum/src/v2/types.rs, as the values
-- that their constructors let through and that serde hands to the serializer.
pub mod Checks
mod Tests
use bic_os.Base.{ℕ, zero, suc, Option, none, some, List, [], ◌∷◌, ◌&&◌, leb, length, if◌then◌else◌}
use bic_os.Stratum.Serialization.{
  Name, str0_32, str1_32, str0_255, str1_255, bytes0_32, bytes1_32, bytes0_255, bytes1_255,
  bytes0_64k, bytes1_64k, seq0_255, seq0_64k, plain, Width, Value, Values, Shape, Shapes,
}
use bic_os.Stratum.Serialization.Fits.{count}

-- `MIN_LEN` and `MAX_LEN` of the macro invocations.
unfoldable pub min_len : Name → ℕ
min_len str1_32 = 1
min_len str1_255 = 1
min_len bytes1_32 = 1
min_len bytes1_255 = 1
min_len bytes1_64k = 1
min_len _ = 0

unfoldable pub max_len : Name → ℕ
max_len str0_32 = 32
max_len str1_32 = 32
max_len str0_255 = 255
max_len str1_255 = 255
max_len bytes0_32 = 32
max_len bytes1_32 = 32
max_len bytes0_255 = 255
max_len bytes1_255 = 255
max_len bytes0_64k = 65535
max_len bytes1_64k = 65535
max_len seq0_255 = 255
max_len seq0_64k = 65535
max_len plain = 0

-- The wrappers of the three macros, as serde serializes them.
abbrev pub text : Name → List ℕ → Value
text n s = Value.newtype n (Value.str s)

abbrev pub u8_values : List ℕ → Values
u8_values [] = Values.nil
u8_values (b ∷ bs) = Values.cons (Value.unsigned Width.w8 b) (u8_values bs)

abbrev pub sequence : Name → Values → Value
sequence n vs = Value.newtype n (Value.seq (some (count vs)) vs)

abbrev pub byte_box : Name → List ℕ → Value
byte_box n bs = sequence n (u8_values bs)

-- `TryFrom<String>` and `TryFrom<&str>`.
unfoldable pub try_from_string : Name → List ℕ → Option Value
try_from_string n s =
    if leb (min_len n) (length s) && leb (length s) (max_len n) then some (text n s) else none

-- `TryFrom<Vec<u8>>` and `TryFrom<&[u8]>`.
unfoldable pub try_from_bytes : Name → List ℕ → Option Value
try_from_bytes n bs =
    if leb (min_len n) (length bs) && leb (length bs) (max_len n)
    then some (byte_box n bs)
    else none

-- `TryFrom<Vec<T>>` and `TryFrom<&[T]>`.
unfoldable pub try_from_vec : Name → Values → Option Value
try_from_vec n vs =
    if leb (min_len n) (count vs) && leb (count vs) (max_len n) then some (sequence n vs) else none

-- `new()` of a text type: the derived `Default`, with no check of the length.
unfoldable pub new_string : Name → Value
new_string n = text n []

-- `Uint256Bytes`: a newtype over an array of 32 bytes, which serde treats as a tuple.
abbrev pub u8_shapes : ℕ → Shapes
u8_shapes zero = Shapes.nil
u8_shapes (suc n) = Shapes.cons (Shape.unsigned Width.w8) (u8_shapes n)

abbrev pub uint256_shape : Shape
uint256_shape = Shape.newtype plain (Shape.tuple (u8_shapes 32))

abbrev pub uint256 : List ℕ → Value
uint256 bs = Value.newtype plain (Value.tuple (u8_values bs))
