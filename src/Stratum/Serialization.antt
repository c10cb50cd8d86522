-- ===== src/Stratum/Serialization.antt =====
-- The data that passes between a message type and the binary format of
-- open/protocols/stratum/src/v2/serialization.rs.
--
-- `Value` is what a type's `Serialize` implementation hands to the `Serializer`: one constructor
-- for each `serialize_*` method, or for each group of methods that write the same bytes. `Shape` is
-- what a type's `Deserialize` implementation asks of the `Deserializer`: one constructor for each
-- `deserialize_*` method. Integers of a signed type are `ℤ`, the others and the bit patterns of
-- floats are `ℕ`; text is its UTF-8 bytes.
pub mod Serializer
pub mod Deserializer
pub mod Fits
pub mod Size
pub mod RoundTrip
mod Tests
use bic_os.Base.{ℕ, ℤ, Bool, Option, List, ◌^◌}
use Prim.Native.String.{String}

-- `Error` of the source, and `unreachable` for a panic of `unreachable!()`.
pub data Error : Type 0 where
  overlong too_short unknown_length unicode eof trailing_bytes bad_bool custom io : Error
  unsupported : String → Error
  unreachable : Error

-- The integer types by their size: `u8`/`i8` to `u64`/`i64`.
pub data Width : Type 0 where
  w8 w16 w32 w64 : Width

abbrev pub size : Width → ℕ
size Width.w8 = 1
size Width.w16 = 2
size Width.w32 = 4
size Width.w64 = 8

-- How many values a type of this size has.
abbrev pub patterns : Width → ℕ
patterns w = 256 ^ size w

-- The names of newtype structs that the format treats apart; `plain` is every other name.
pub data Name : Type 0 where
  str0_32 str1_32 str0_255 str1_255 : Name
  bytes0_32 bytes1_32 bytes0_255 bytes1_255 bytes0_64k bytes1_64k : Name
  seq0_255 seq0_64k : Name
  plain : Name

mutual
  pub data Value : Type 0 where
    bool : Bool → Value
    signed : Width → ℤ → Value
    unsigned : Width → ℕ → Value
    f32 f64 : ℕ → Value
    char : ℕ → Value
    str bytes : List ℕ → Value
    opt_none : Value
    opt_some : Value → Value
    unit : Value
    newtype : Name → Value → Value
    -- The length that the type announces, if it does, and the elements that it then writes.
    seq : Option ℕ → Values → Value
    -- Tuples, tuple structs and structs.
    tuple : Values → Value
    -- The index of the variant, and its contents: `unit`, a value or a `tuple`.
    variant : ℕ → Value → Value
    map : Value

  pub data Values : Type 0 where
    nil : Values
    cons : Value → Values → Values

mutual
  pub data Shape : Type 0 where
    bool : Shape
    signed unsigned : Width → Shape
    f32 f64 char : Shape
    str string bytes byte_buf : Shape
    option : Shape → Shape
    unit : Shape
    newtype : Name → Shape → Shape
    seq : Shape → Shape
    tuple : Shapes → Shape
    -- The contents of each variant, in order.
    enum : Shapes → Shape
    map any ignored_any : Shape

  pub data Shapes : Type 0 where
    nil : Shapes
    cons : Shape → Shapes → Shapes
