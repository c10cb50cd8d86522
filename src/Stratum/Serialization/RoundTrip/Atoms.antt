-- ===== src/Stratum/Serialization/RoundTrip/Atoms.antt =====
-- The round trip of values without parts: numbers, text and bytes.
use bic_os.Base.{
  ℕ, ◌<◌, ◌^◌, ◌≡◌, refl, Bool, true, false, List, [], ◌∷◌, ◌++◌, append_assoc, Result, ok, length,
  length-append, le_bytes, length-le_bytes, ◌+◌, ◌*◌, ◌≤◌, ℤ, InSigned, to_pattern, from_pattern,
  from_pattern-to_pattern, to_pattern-lt, arith,
}
use bic_os.Stratum.Serialization.{Error, Width, w8, w16, w32, w64, size, patterns, Value, Shape}
use bic_os.Stratum.Serialization.Serializer.{serialize, write_sized}
use bic_os.Stratum.Serialization.Deserializer.{De, deserialize, read_bool, read_u8, is_char}
use bic_os.Stratum.Serialization.Size.{bound}
use bic_os.Stratum.Serialization.RoundTrip.Reads.{
  read_word-le_bytes, read_uint-le_bytes, read_bytes-append, read_str-append, write_len-ok,
  is_char-lt,
}

-- The bytes that are written exist, in front of any input they read as `a`, and they are at most
-- `cap` many.
abbrev pub ReadsBack : {A : Type 0} → Result Error (List ℕ) → De A → A → ℕ → Type 0
ReadsBack written read a cap =
    (bs : List ℕ) × (written ≡ ok bs)
    × ((rest : List ℕ) → read (bs ++ rest) ≡ ok (a, rest))
    × (length bs ≤ cap)

signed_halves :
    (w : Width) (v : ℤ)
    → InSigned (patterns w) v
    → from_pattern (patterns w) (to_pattern (patterns w) v) ≡ v
signed_halves w8 v h = from_pattern-to_pattern 128 v h
signed_halves w16 v h = from_pattern-to_pattern (2 ^ 15) v h
signed_halves w32 v h = from_pattern-to_pattern (2 ^ 31) v h
signed_halves w64 v h = from_pattern-to_pattern (2 ^ 63) v h

patterns_pos : (w : Width) → 0 < patterns w
patterns_pos w8 = omega arith
patterns_pos w16 = omega arith
patterns_pos w32 = omega arith
patterns_pos w64 = omega arith

pub length-prefixed : (k n : ℕ) (body : List ℕ) → length (le_bytes k n ++ body) ≡ k + length body
length-prefixed k n body = omega (arith, length-append (le_bytes k n) body, length-le_bytes k n)

pub scaled_le : (a b x : ℕ) → a ≤ b → a * x ≤ b * x
scaled_le a b x h = grind arith

module _ (utf8 : List ℕ → Bool) where
  abbrev pub Trip : Shape → Value → Type 0
  Trip s v = ReadsBack (serialize v) (deserialize utf8 s) v (bound s)

  pub bool-Trip : (b : Bool) → Trip Shape.bool (Value.bool b)
  unfolding serialize deserialize bound read_bool read_u8
  bool-Trip true = (1 ∷ [], refl, λ rest. refl, omega arith)
  bool-Trip false = (0 ∷ [], refl, λ rest. refl, omega arith)

  pub signed-Trip :
      (w : Width) (v : ℤ) → InSigned (patterns w) v → Trip (Shape.signed w) (Value.signed w v)
  unfolding serialize deserialize bound
  signed-Trip w v h = (
    le_bytes (size w) (to_pattern (patterns w) v),
    refl,
    λ rest. rw (
      read_uint-le_bytes w (to_pattern (patterns w) v) rest
          (to_pattern-lt (patterns w) v (patterns_pos w)),
      signed_halves w v h,
    ),
    omega (arith, length-le_bytes (size w) (to_pattern (patterns w) v)),
  )

  pub unsigned-Trip :
      (w : Width) (n : ℕ) → n < patterns w → Trip (Shape.unsigned w) (Value.unsigned w n)
  unfolding serialize deserialize bound
  unsigned-Trip w n h = (
    le_bytes (size w) n,
    refl,
    λ rest. rw (read_uint-le_bytes w n rest h),
    omega (arith, length-le_bytes (size w) n),
  )

  pub f32-Trip : (bits : ℕ) → bits < 256 ^ 4 → Trip Shape.f32 (Value.f32 bits)
  unfolding serialize deserialize bound
  f32-Trip bits h = (
    le_bytes 4 bits,
    refl,
    λ rest. rw (read_word-le_bytes 4 bits rest h),
    omega (arith, length-le_bytes 4 bits),
  )

  pub f64-Trip : (bits : ℕ) → bits < 256 ^ 8 → Trip Shape.f64 (Value.f64 bits)
  unfolding serialize deserialize bound
  f64-Trip bits h = (
    le_bytes 8 bits,
    refl,
    λ rest. rw (read_word-le_bytes 8 bits rest h),
    omega (arith, length-le_bytes 8 bits),
  )

  pub char-Trip : (c : ℕ) → is_char c ≡ true → Trip Shape.char (Value.char c)
  unfolding serialize deserialize bound
  char-Trip c h = (
    le_bytes 4 c,
    refl,
    λ rest. rw (read_word-le_bytes 4 c rest (is_char-lt c h), h),
    omega (arith, length-le_bytes 4 c),
  )

  pub str-Trip : (s : List ℕ) → utf8 s ≡ true → length s < 65536 → Trip Shape.str (Value.str s)
  unfolding serialize deserialize bound write_sized
  str-Trip s valid h = (
    le_bytes 2 (length s) ++ s,
    rw (write_len-ok w16 (length s) h),
    λ rest. rw (
      append_assoc,
      read_word-le_bytes 2 (length s) (s ++ rest) h,
      read_str-append utf8 s rest valid,
    ),
    omega (arith, length-prefixed 2 (length s) s),
  )

  pub string-Trip :
      (s : List ℕ) → utf8 s ≡ true → length s < 65536 → Trip Shape.string (Value.str s)
  unfolding serialize deserialize bound write_sized
  string-Trip s valid h = (
    le_bytes 2 (length s) ++ s,
    rw (write_len-ok w16 (length s) h),
    λ rest. rw (
      append_assoc,
      read_word-le_bytes 2 (length s) (s ++ rest) h,
      read_str-append utf8 s rest valid,
    ),
    omega (arith, length-prefixed 2 (length s) s),
  )

  pub bytes-Trip : (b : List ℕ) → length b < 65536 → Trip Shape.bytes (Value.bytes b)
  unfolding serialize deserialize bound write_sized
  bytes-Trip b h = (
    le_bytes 2 (length b) ++ b,
    rw (write_len-ok w16 (length b) h),
    λ rest.
        rw (append_assoc, read_word-le_bytes 2 (length b) (b ++ rest) h, read_bytes-append b rest),
    omega (arith, length-prefixed 2 (length b) b),
  )

  pub byte_buf-Trip : (b : List ℕ) → length b < 65536 → Trip Shape.byte_buf (Value.bytes b)
  unfolding serialize deserialize bound write_sized
  byte_buf-Trip b h = (
    le_bytes 2 (length b) ++ b,
    rw (write_len-ok w16 (length b) h),
    λ rest.
        rw (append_assoc, read_word-le_bytes 2 (length b) (b ++ rest) h, read_bytes-append b rest),
    omega (arith, length-prefixed 2 (length b) b),
  )
