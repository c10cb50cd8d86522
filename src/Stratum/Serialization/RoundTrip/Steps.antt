-- ===== src/Stratum/Serialization/RoundTrip/Steps.antt =====
-- The round trip of a value of each shape that has parts, from round trips of the parts.
use bic_os.Base.{
  ℕ, zero, suc, ◌<◌, ◌^◌, ◌≡◌, refl, Bool, true, some, List, [], ◌∷◌, ◌++◌, append_assoc, ok,
  length, le_bytes, ◌*◌, arith,
}
use bic_os.Stratum.Serialization.{w16, size, patterns, Name, Value, Values, Shape, Shapes}
use bic_os.Stratum.Serialization.Serializer.{
  serialize, serialize_all, write_sized, write_seq, index_width,
}
use bic_os.Stratum.Serialization.Deserializer.{
  deserialize, deserialize_all, deserialize_variant, repeat, read_bool, read_u8, Limits, limits_of,
}
use bic_os.Stratum.Serialization.Fits.{count, shape_at, Within}
use bic_os.Stratum.Serialization.Size.{bound, bound_all, bound-shape_at}
use bic_os.Stratum.Serialization.RoundTrip.Reads.{
  read_word-le_bytes, read_str-append, read_size-le_bytes, limits_width, write_len-ok,
}
use bic_os.Stratum.Serialization.RoundTrip.Atoms.{ReadsBack, Trip, length-prefixed, scaled_le}

module _ (utf8 : List ℕ → Bool) where
  pub absent-Trip : (s : Shape) → Trip utf8 (Shape.option s) Value.opt_none
  unfolding serialize deserialize bound read_bool read_u8
  absent-Trip s = (0 ∷ [], refl, λ rest. refl, omega arith)

  pub present-Trip :
      (s : Shape) (v : Value) → Trip utf8 s v → Trip utf8 (Shape.option s) (Value.opt_some v)
  unfolding serialize deserialize bound read_bool read_u8
  present-Trip s v (bs, w, r, c) = (1 ∷ bs, rw w, λ rest. rw (r rest), omega arith)

  pub unit-Trip : Trip utf8 Shape.unit Value.unit
  unfolding serialize deserialize bound
  unit-Trip = ([], refl, λ rest. refl, omega arith)

  pub plain-Trip :
      (s : Shape) (v : Value)
      → Trip utf8 s v
      → Trip utf8 (Shape.newtype Name.plain s) (Value.newtype Name.plain v)
  unfolding serialize deserialize bound index_width limits_of
  plain-Trip s v (bs, w, r, c) = (bs, w, λ rest. rw (r rest), c)

  pub sized_text-Trip :
      (n : Name) (l : Limits) (s : List ℕ)
      → limits_of n ≡ some l
      → Within l (length s)
      → utf8 s ≡ true
      → Trip utf8 (Shape.newtype n Shape.string) (Value.newtype n (Value.str s))
  unfolding serialize deserialize bound write_sized
  sized_text-Trip n l s e within valid =
      let (wide, cap) = limits_width n l e in
      let fits : length s < patterns l.prefix = omega arith in
      (
        le_bytes (size l.prefix) (length s) ++ s,
        rw (wide, serialize) (rw (write_len-ok l.prefix (length s) fits)),
        λ rest.
            rw (e, deserialize)
              (rw (
                append_assoc,
                read_size-le_bytes l (length s) (s ++ rest) fits within,
                read_str-append utf8 s rest valid,
              )),
        rw (e, bound) (omega (arith, length-prefixed (size l.prefix) (length s) s)),
      )

  pub sized_seq-Trip :
      (n : Name) (l : Limits) (s : Shape) (vs : Values)
      → limits_of n ≡ some l
      → Within l (count vs)
      → ReadsBack
          (serialize_all vs)
          (repeat (deserialize utf8 s) (count vs))
          vs
          (count vs * bound s)
      → Trip utf8 (Shape.newtype n (Shape.seq s)) (Value.newtype n (Value.seq (some (count vs)) vs))
  unfolding serialize deserialize bound write_seq
  sized_seq-Trip n l s vs e within (bs, w, r, c) =
      let (wide, cap) = limits_width n l e in
      let fits : count vs < patterns l.prefix = omega arith in
      (
        le_bytes (size l.prefix) (count vs) ++ bs,
        rw (wide, serialize) (rw (write_len-ok l.prefix (count vs) fits, w)),
        λ rest.
            rw (e, deserialize)
              (rw (append_assoc, read_size-le_bytes l (count vs) (bs ++ rest) fits within, r rest)),
        rw (e, bound)
            (omega (
              arith,
              length-prefixed (size l.prefix) (count vs) bs,
              scaled_le (count vs) l.max_size (bound s) within.1,
            )),
      )

  pub seq-Trip :
      (s : Shape) (vs : Values)
      → count vs < 65536
      → ReadsBack
          (serialize_all vs)
          (repeat (deserialize utf8 s) (count vs))
          vs
          (count vs * bound s)
      → Trip utf8 (Shape.seq s) (Value.seq (some (count vs)) vs)
  unfolding serialize deserialize bound write_seq
  seq-Trip s vs h (bs, w, r, c) = (
    le_bytes 2 (count vs) ++ bs,
    rw (write_len-ok w16 (count vs) h, w),
    λ rest. rw (append_assoc, read_word-le_bytes 2 (count vs) (bs ++ rest) h, r rest),
    omega (
      arith,
      length-prefixed 2 (count vs) bs,
      scaled_le (count vs) 65535 (bound s) (omega arith),
    ),
  )

  pub tuple-Trip :
      (ss : Shapes) (vs : Values)
      → ReadsBack (serialize_all vs) (deserialize_all utf8 ss) vs (bound_all ss)
      → Trip utf8 (Shape.tuple ss) (Value.tuple vs)
  unfolding serialize deserialize bound
  tuple-Trip ss vs (bs, w, r, c) = (bs, w, λ rest. rw (r rest), c)

  variant_read :
      (ss : Shapes) (i index : ℕ) (s : Shape) (v : Value) (bs rest : List ℕ)
      → shape_at ss i ≡ some s
      → deserialize utf8 s bs ≡ ok (v, rest)
      → deserialize_variant utf8 ss i index bs ≡ ok (Value.variant index v, rest)
  unfolding deserialize
  variant_read Shapes.nil i index s v bs rest e r = cc
  variant_read (Shapes.cons s' ss) zero index s v bs rest e r =
      let same : s' ≡ s = cc in rw (same, r)
  variant_read (Shapes.cons s' ss) (suc i) index s v bs rest e r =
      variant_read ss i index s v bs rest e r

  pub variant-Trip :
      (i : ℕ) (ss : Shapes) (s : Shape) (v : Value)
      → i < 256 ^ 4
      → shape_at ss i ≡ some s
      → Trip utf8 s v
      → Trip utf8 (Shape.enum ss) (Value.variant i v)
  unfolding serialize deserialize bound
  variant-Trip i ss s v h e (bs, w, r, c) = (
    le_bytes 4 i ++ bs,
    rw w,
    λ rest. rw (
      append_assoc,
      read_word-le_bytes 4 i (bs ++ rest) h,
      variant_read ss i i s v (bs ++ rest) rest e (r rest),
    ),
    omega (arith, length-prefixed 4 i bs, bound-shape_at ss i s e),
  )
