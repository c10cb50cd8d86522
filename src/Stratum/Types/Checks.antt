-- ===== src/Stratum/Types/Checks.antt =====
-- The checks of the constructors against those of the deserializer.
use bic_os.Base.{
  ℕ, suc, ◌<◌, ◌≡◌, refl, ap, ◌↔◌, ◌⊎◌, inl, inr, Bool, true, false, some, List, [], ◌∷◌, ◌++◌,
  ◌&&◌, ok, err, ◌>>=◌, leb, ltb, length, All, IsByte, Bool-cases, ltb→lt, le_bytes, arith,
  if◌then◌else◌,
}
use bic_os.Stratum.Serialization.{
  Error, overlong, too_short, Name, str1_32, str1_255, plain, size, patterns, Width, Value, Shape,
}
use bic_os.Stratum.Serialization.Serializer.{serialize, to_vec, index_width, write_sized, write_len}
use bic_os.Stratum.Serialization.Deserializer.{
  deserialize, from_slice, Limits, limits_of, read_size, read_uint, read_u8,
}
use bic_os.Stratum.Serialization.Fits.{
  count, Within, Fits, FitsEach, FitsAll, unsigned, sized_text, sized_seq, no_items, item,
  no_fields, field,
}
use bic_os.Stratum.Serialization.RoundTrip.{from_slice-to_vec}
use bic_os.Stratum.Serialization.RoundTrip.Reads.{limits_width, write_len-ok, read_uint-le_bytes}
use bic_os.Stratum.Types.{
  min_len, max_len, text, byte_box, u8_values, try_from_string, try_from_bytes, new_string,
  u8_shapes, uint256_shape, uint256,
}

-- Names that are looked up: all but the plain ones.
abbrev pub IsSized : Name → Type 0
IsSized plain = ⊥
IsSized _ = Unit {0}

-- The bounds of the macros are those that the deserializer looks up.
pub limits-len :
    (n : Name)
    → IsSized n
    → (l : Limits) × (limits_of n ≡ some l) × (l.min_size ≡ min_len n) × (l.max_size ≡ max_len n)
unfolding limits_of min_len max_len
limits-len plain h = absurd h
limits-len _ h = (_, refl, refl, refl)

count-u8_values : (bs : List ℕ) → count (u8_values bs) ≡ length bs
count-u8_values [] = refl
count-u8_values (b ∷ bs) = ap suc (count-u8_values bs)

module _ (utf8 : List ℕ → Bool) where
  -- A text that a constructor lets through fits the shape of its type.
  pub text-Fits :
      (n : Name) (s : List ℕ) (v : Value)
      → IsSized n
      → utf8 s ≡ true
      → try_from_string n s ≡ some v
      → Fits utf8 (Shape.newtype n Shape.string) v
  unfolding try_from_string
  text-Fits n s v sized valid e =
      let (l, found, lo, hi) = limits-len n sized in
      let within : Within l (length s) = ground arith in
      let same : text n s ≡ v = ground arith in rw (← same) (sized_text n l s found within valid)

  u8_values-FitsEach :
      (bs : List ℕ) → All IsByte bs → FitsEach utf8 (Shape.unsigned Width.w8) (u8_values bs)
  u8_values-FitsEach [] h = no_items (Shape.unsigned Width.w8)
  u8_values-FitsEach (b ∷ bs) h = item (unsigned Width.w8 b h.0) (u8_values-FitsEach bs h.1)

  u8_values-FitsAll :
      (bs : List ℕ) → All IsByte bs → FitsAll utf8 (u8_shapes (length bs)) (u8_values bs)
  u8_values-FitsAll [] h = no_fields
  u8_values-FitsAll (b ∷ bs) h = field (unsigned Width.w8 b h.0) (u8_values-FitsAll bs h.1)

  -- A 256-bit number in 32 bytes fits the shape of `Uint256Bytes`.
  pub uint256-Fits :
      (bs : List ℕ) → All IsByte bs → length bs ≡ 32 → Fits utf8 uint256_shape (uint256 bs)
  uint256-Fits bs h e = Fits.plain (Fits.tuple (rw e at (u8_values-FitsAll bs h)))

  -- A byte string that a constructor lets through fits the shape of its type.
  pub byte_box-Fits :
      (n : Name) (bs : List ℕ) (v : Value)
      → IsSized n
      → All IsByte bs
      → try_from_bytes n bs ≡ some v
      → Fits utf8 (Shape.newtype n (Shape.seq (Shape.unsigned Width.w8))) v
  unfolding try_from_bytes
  byte_box-Fits n bs v sized h e =
      let (l, found, lo, hi) = limits-len n sized in
      let many : count (u8_values bs) ≡ length bs = count-u8_values bs in
      let within : Within l (count (u8_values bs)) = ground (arith, many) in
      let same : byte_box n bs ≡ v = ground arith in
      rw (← same) (sized_seq n l found within (u8_values-FitsEach bs h))

  -- What `read_size` says of a length that is out of bounds.
  read_size_refused :
      (l : Limits) (n : ℕ) (rest : List ℕ)
      → n < patterns l.prefix
      → (leb l.min_size n && leb n l.max_size) ≡ false
      → (e : Error) × (read_size l (le_bytes (size l.prefix) n ++ rest) ≡ err e)
  unfolding read_size
  read_size_refused l n rest h bad = (
    if ltb n l.min_size then too_short else overlong,
    rw (read_uint-le_bytes l.prefix n rest h) (ground arith),
  )

  -- A text whose length is out of bounds is refused by the writer, or else by the reader.
  text_refused :
      (n : Name) (s : List ℕ)
      → IsSized n
      → (leb (min_len n) (length s) && leb (length s) (max_len n)) ≡ false
      → (e : Error) × ((to_vec (text n s) >>= from_slice utf8 (Shape.newtype n Shape.string))
          ≡ err e)
  unfolding to_vec serialize write_sized
  text_refused n s sized bad =
      let (l, found, lo, hi) = limits-len n sized in
      let (wide, cap) = limits_width n l found in
      elim (Bool-cases (ltb (length s) (patterns l.prefix))) [
        | inr long ↦ (overlong, rw (wide, serialize) (unfold write_len in rw long))
        | inl fits ↦
            let lt : length s < patterns l.prefix = ltb→lt _ _ fits in
            let (e, refused) = read_size_refused l (length s) s lt (rw (lo, hi) bad) in
            (
              e,
              rw (wide, serialize)
                  (rw (write_len-ok l.prefix (length s) lt)
                    (unfold from_slice deserialize in rw (found, deserialize) (rw refused))),
            )
      ]

  -- The constructors of the sized text types accept exactly the valid UTF-8 texts that survive the
  -- wire: one that is let through is written and read back as it was, and any other is not.
  pub try_from_string_iff :
      (n : Name) (s : List ℕ)
      → IsSized n
      → utf8 s ≡ true
      → (try_from_string n s ≡ some (text n s))
        ↔ ((to_vec (text n s) >>= from_slice utf8 (Shape.newtype n Shape.string)) ≡ ok (text n s))
  unfolding try_from_string
  try_from_string_iff n s sized valid = (
    λ e.
        from_slice-to_vec utf8 (Shape.newtype n Shape.string) (text n s)
          (text-Fits n s (text n s) sized valid e),
    λ e. elim (Bool-cases (leb (min_len n) (length s) && leb (length s) (max_len n))) [
      | inl good ↦ rw good
      | inr bad ↦ let (x, refused) = text_refused n s sized bad in absurd (cc)
    ],
  )

  -- An empty `Str1_32` or `Str1_255`, which `new()` makes, is written and then refused.
  pub new_string_refused :
      (n : Name)
      → (n ≡ str1_32) ⊎ (n ≡ str1_255)
      → (to_vec (new_string n) >>= from_slice utf8 (Shape.newtype n Shape.string)) ≡ err too_short
  unfolding new_string to_vec serialize index_width write_sized write_len from_slice deserialize
      limits_of read_size read_uint read_u8 le_bytes
  new_string_refused n (inl e) = rw e
  new_string_refused n (inr e) = rw e
