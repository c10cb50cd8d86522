-- ===== src/Stratum/Serialization/Deserializer.antt =====
-- `Deserializer` and `SizedSeqDeserializer`. The state is the input that is left. Whether bytes are
-- valid UTF-8 is `std::str::from_utf8`'s to say, a parameter.
use bic_os.Base.{
  ℕ, zero, suc, Bool, true, false, Option, none, some, List, [], ◌∷◌, ◌||◌, ◌&&◌, Result, ok, err,
  ◌>>=◌, ◌>>◌, guard, ltb, leb, if◌then◌else◌, length, take, drop, from_le, from_pattern, ◌==◌,
}
use bic_os.Stratum.Serialization.{
  Error, overlong, too_short, unicode, eof, trailing_bytes, bad_bool, custom, unsupported,
  unreachable, Width, w8, w16, size, patterns, Name, str0_32, str1_32, str0_255, str1_255,
  bytes0_32, bytes1_32, bytes0_255, bytes1_255, bytes0_64k, bytes1_64k, seq0_255, seq0_64k, plain,
  Value, Values, Shape, Shapes,
}

-- A reading: what is read, and the input that is left.
abbrev pub De : Type 0 → Type 0
De A = List ℕ → Result Error (A × List ℕ)

unfoldable pub read_u8 : De ℕ
read_u8 [] = err eof
read_u8 (b ∷ rest) = ok (b, rest)

unfoldable pub read_bytes : ℕ → De (List ℕ)
read_bytes n input = if leb n (length input) then ok (take n input, drop n input) else err eof

-- `read_u16`, `read_u32` and `read_u64`.
unfoldable pub read_word : ℕ → De ℕ
read_word n input = do (bs, rest) ← read_bytes n input; ok (from_le bs, rest)

-- An unsigned integer of any size, by the method for it.
unfoldable pub read_uint : Width → De ℕ
read_uint Width.w8 input = read_u8 input
read_uint w input = read_word (size w) input

unfoldable pub read_bool : De Bool
read_bool input = do
  (b, rest) ← read_u8 input
  if b == 0 then ok (false, rest) else if b == 1 then ok (true, rest) else err bad_bool

-- `char::from_u32` accepts every scalar value and no surrogate.
abbrev pub is_char : ℕ → Bool
is_char c = ltb c 0xd800 || (leb 0xe000 c && ltb c 0x11_0000)

-- The bounds and the length prefix that `deserialize_newtype_struct` looks up.
pub record Limits : Type 0 where
  pub min_size : ℕ
  pub max_size : ℕ
  pub prefix : Width

abbrev limits : ℕ → ℕ → Width → Option Limits
limits lo hi w = some (record { min_size = lo; max_size = hi; prefix = w })

unfoldable pub limits_of : Name → Option Limits
limits_of str0_32 = limits 0 32 w8
limits_of str1_32 = limits 1 32 w8
limits_of str0_255 = limits 0 255 w8
limits_of str1_255 = limits 1 255 w8
limits_of bytes0_32 = limits 0 32 w8
limits_of bytes1_32 = limits 1 32 w8
limits_of bytes0_255 = limits 0 255 w8
limits_of bytes1_255 = limits 1 255 w8
limits_of bytes0_64k = limits 0 65535 w16
limits_of bytes1_64k = limits 1 65535 w16
limits_of seq0_255 = limits 0 255 w8
limits_of seq0_64k = limits 0 65535 w16
limits_of plain = none

-- The size that `deserialize_sized_seq` reads and checks.
unfoldable pub read_size : Limits → De ℕ
read_size l input = do
  (n, rest) ← read_uint l.prefix input
  if ltb n l.min_size
      then err too_short
      else if ltb l.max_size n
      then err overlong
      else ok (n, rest)

-- `next_element` until the announced number is used up.
unfoldable pub repeat : De Value → ℕ → De Values
repeat read zero input = ok (Values.nil, input)
repeat read (suc n) input = do
  (v, rest) ← read input
  (vs, rest') ← repeat read n rest
  ok (Values.cons v vs, rest')

module _ (utf8 : List ℕ → Bool) where
  unfoldable pub read_str : ℕ → De (List ℕ)
  read_str n input = do (bs, rest) ← read_bytes n input; guard (utf8 bs) unicode; ok (bs, rest)

  unfoldable mutual
    pub deserialize : Shape → De Value
    deserialize Shape.bool input = do (b, rest) ← read_bool input; ok (Value.bool b, rest)
    deserialize (Shape.signed w) input = do
      (u, rest) ← read_uint w input
      ok (Value.signed w (from_pattern (patterns w) u), rest)
    deserialize (Shape.unsigned w) input = do
      (u, rest) ← read_uint w input
      ok (Value.unsigned w u, rest)
    deserialize Shape.f32 input = do (bits, rest) ← read_word 4 input; ok (Value.f32 bits, rest)
    deserialize Shape.f64 input = do (bits, rest) ← read_word 8 input; ok (Value.f64 bits, rest)
    deserialize Shape.char input = do
      (c, rest) ← read_word 4 input
      guard (is_char c) unicode
      ok (Value.char c, rest)
    deserialize Shape.str input = do
      (n, rest) ← read_word 2 input
      (s, rest') ← read_str n rest
      ok (Value.str s, rest')
    deserialize Shape.string input = do
      (n, rest) ← read_word 2 input
      (s, rest') ← read_str n rest
      ok (Value.str s, rest')
    deserialize Shape.bytes input = do
      (n, rest) ← read_word 2 input
      (b, rest') ← read_bytes n rest
      ok (Value.bytes b, rest')
    deserialize Shape.byte_buf input = do
      (n, rest) ← read_word 2 input
      (b, rest') ← read_bytes n rest
      ok (Value.bytes b, rest')
    deserialize (Shape.option s) input = do
      (flag, rest) ← read_bool input
      elim flag [
        | true ↦ do (v, rest') ← deserialize s rest; ok (Value.opt_some v, rest')
        | false ↦ ok (Value.opt_none, rest)
      ]
    deserialize Shape.unit input = ok (Value.unit, input)
    deserialize (Shape.newtype n s) input = do
      (v, rest) ← elim (limits_of n) [
        | none ↦ deserialize s input
        | some l ↦ do (size, rest) ← read_size l input; deserialize_sized s size rest
      ]
      ok (Value.newtype n v, rest)
    deserialize (Shape.seq s) input = do
      (n, rest) ← read_word 2 input
      (vs, rest') ← repeat (deserialize s) n rest
      ok (Value.seq (some n) vs, rest')
    deserialize (Shape.tuple ss) input = do
      (vs, rest) ← deserialize_all ss input
      ok (Value.tuple vs, rest)
    deserialize (Shape.enum ss) input = do
      (i, rest) ← read_word 4 input
      deserialize_variant ss i i rest
    deserialize Shape.map input = err (unsupported "Map")
    deserialize Shape.any input = err (unsupported "Any / Dynamic")
    deserialize Shape.ignored_any input = err (unsupported "Any / Dynamic type")

    -- `SizedSeqDeserializer`: text or a sequence of the size that was read.
    pub deserialize_sized : Shape → ℕ → De Value
    deserialize_sized Shape.string n input = do (s, rest) ← read_str n input; ok (Value.str s, rest)
    deserialize_sized (Shape.seq s) n input = do
      (vs, rest) ← repeat (deserialize s) n input
      ok (Value.seq (some n) vs, rest)
    deserialize_sized (Shape.newtype m s) n input = do
      (v, rest) ← deserialize_sized s n input
      ok (Value.newtype m v, rest)
    deserialize_sized _ n input = err unreachable

    pub deserialize_all : Shapes → De Values
    deserialize_all Shapes.nil input = ok (Values.nil, input)
    deserialize_all (Shapes.cons s ss) input = do
      (v, rest) ← deserialize s input
      (vs, rest') ← deserialize_all ss rest
      ok (Values.cons v vs, rest')

    -- `variant_seed`: an index past the last variant is an error of serde.
    pub deserialize_variant : Shapes → ℕ → ℕ → De Value
    deserialize_variant Shapes.nil i index input = err custom
    deserialize_variant (Shapes.cons s ss) zero index input = do
      (v, rest) ← deserialize s input
      ok (Value.variant index v, rest)
    deserialize_variant (Shapes.cons s ss) (suc i) index input =
        deserialize_variant ss i index input

  unfoldable pub from_slice : Shape → List ℕ → Result Error Value
  from_slice s input = do
    (v, rest) ← deserialize s input
    if length rest == 0 then ok v else err trailing_bytes
