-- ===== src/Stratum/Serialization/Serializer.antt =====
-- `Serializer` and `SizedSeqEmitter`. The writer is the buffer of `to_vec`, so a piece that is
-- written is appended: a function returns the bytes that it appends, and an error drops the buffer.
use bic_os.Base.{
  ℕ, Option, none, some, List, [], ◌∷◌, ◌++◌, Result, ok, err, ◌>>=◌, ltb, if◌then◌else◌, length,
  le_bytes, to_pattern,
}
use bic_os.Stratum.Serialization.{
  Error, overlong, unknown_length, unsupported, unreachable, Width, w8, w16, size, patterns, Name,
  str0_32, str1_32, str0_255, str1_255, bytes0_32, bytes1_32, bytes0_255, bytes1_255, bytes0_64k,
  bytes1_64k, seq0_255, seq0_64k, plain, Value, bool, signed, unsigned, f32, f64, char, str, bytes,
  opt_none, opt_some, unit, newtype, seq, tuple, variant, map, Values, nil, cons,
}

-- `I::try_from(len)` and `len.serialize(..)`: the length prefix.
unfoldable pub write_len : Width → ℕ → Result Error (List ℕ)
write_len w n = if ltb n (patterns w) then ok (le_bytes (size w) n) else err overlong

-- A length prefix and the bytes themselves.
unfoldable pub write_sized : Width → List ℕ → Result Error (List ℕ)
write_sized w bs = do len ← write_len w (length bs); ok (len ++ bs)

-- `SizedSeqEmitter::serialize_seq`, then its elements.
unfoldable pub write_seq : Width → Option ℕ → Result Error (List ℕ) → Result Error (List ℕ)
write_seq w none elements = err unknown_length
write_seq w (some n) elements = do len ← write_len w n; body ← elements; ok (len ++ body)

-- Which `SizedSeqEmitter` the `match name` of `serialize_newtype_struct` picks.
unfoldable pub index_width : Name → Option Width
index_width str0_32 = some w8
index_width str1_32 = some w8
index_width str0_255 = some w8
index_width str1_255 = some w8
index_width bytes0_32 = some w8
index_width bytes1_32 = some w8
index_width bytes0_255 = some w8
index_width bytes1_255 = some w8
index_width bytes0_64k = some w16
index_width bytes1_64k = some w16
index_width seq0_255 = some w8
index_width seq0_64k = some w16
index_width plain = none

unfoldable mutual
  pub serialize : Value → Result Error (List ℕ)
  serialize (bool v) = ok ((if v then 1 else 0) ∷ [])
  serialize (signed w v) = ok (le_bytes (size w) (to_pattern (patterns w) v))
  serialize (unsigned w v) = ok (le_bytes (size w) v)
  serialize (f32 bits) = ok (le_bytes 4 bits)
  serialize (f64 bits) = ok (le_bytes 8 bits)
  serialize (char c) = ok (le_bytes 4 c)
  serialize (str s) = write_sized w16 s
  serialize (bytes b) = write_sized w16 b
  serialize opt_none = ok (0 ∷ [])
  serialize (opt_some v) = do bs ← serialize v; ok (1 ∷ bs)
  serialize unit = ok []
  serialize (newtype n v) = elim (index_width n) [ none ↦ serialize v | some w ↦ emit_sized w v ]
  serialize (seq len vs) = write_seq w16 len (serialize_all vs)
  serialize (tuple vs) = serialize_all vs
  serialize (variant i v) = do bs ← serialize v; ok (le_bytes 4 i ++ bs)
  serialize map = err (unsupported "Map")

  -- The elements of a sequence, or the fields of a tuple.
  pub serialize_all : Values → Result Error (List ℕ)
  serialize_all nil = ok []
  serialize_all (cons v vs) = do bs ← serialize v; rest ← serialize_all vs; ok (bs ++ rest)

  -- `SizedSeqEmitter` as a serializer: it is only there for text and sequences.
  pub emit_sized : Width → Value → Result Error (List ℕ)
  emit_sized w (str s) = write_sized w s
  emit_sized w (seq len vs) = write_seq w len (serialize_all vs)
  emit_sized w _ = err unreachable

unfoldable pub to_vec : Value → Result Error (List ℕ)
to_vec v = serialize v
