-- ===== src/Stratum/Serialization/RoundTrip.antt =====
-- What `to_vec` writes for a value of a type, `from_slice` reads back at that type.
pub mod Reads
pub mod Atoms
pub mod Steps
use bic_os.Base.{
  ◌+◌, ◌*◌, ◌≤◌, length, length-append, ℕ, ◌≡◌, refl, Bool, List, [], ◌++◌, append-nil,
  append_assoc, ok, ◌>>=◌, arith,
}
use bic_os.Stratum.Serialization.{Value, Values, Shape, Shapes}
use bic_os.Stratum.Serialization.Serializer.{serialize_all, to_vec}
use bic_os.Stratum.Serialization.Deserializer.{deserialize, deserialize_all, repeat, from_slice}
use bic_os.Stratum.Serialization.Fits.{
  count, Fits, FitsEach, FitsAll, bool, signed, unsigned, f32, f64, char, str, string, bytes,
  byte_buf, absent, present, unit, plain, sized_text, sized_seq, seq, tuple, variant, no_items,
  item, no_fields, field,
}
use bic_os.Stratum.Serialization.Size.{bound, bound_all}
use Atoms.{
  ReadsBack, Trip, bool-Trip, signed-Trip, unsigned-Trip, f32-Trip, f64-Trip, char-Trip, str-Trip,
  string-Trip, bytes-Trip, byte_buf-Trip,
}
use Steps.{
  absent-Trip, present-Trip, unit-Trip, plain-Trip, sized_text-Trip, sized_seq-Trip, seq-Trip,
  tuple-Trip, variant-Trip,
}

module _ (utf8 : List ℕ → Bool) where
  no_fields-ReadsBack :
      ReadsBack
        (serialize_all Values.nil)
        (deserialize_all utf8 Shapes.nil)
        Values.nil
        (bound_all Shapes.nil)
  unfolding serialize_all deserialize_all bound_all
  no_fields-ReadsBack = ([], refl, λ rest. refl, omega arith)

  field-ReadsBack :
      (s : Shape) (ss : Shapes) (v : Value) (vs : Values)
      → Trip utf8 s v
      → ReadsBack (serialize_all vs) (deserialize_all utf8 ss) vs (bound_all ss)
      → ReadsBack
          (serialize_all (Values.cons v vs))
          (deserialize_all utf8 (Shapes.cons s ss))
          (Values.cons v vs)
          (bound_all (Shapes.cons s ss))
  unfolding serialize_all deserialize_all bound_all
  field-ReadsBack s ss v vs (b, w, r, c) (bs, ws, rs, cs) = (
    b ++ bs,
    rw (w, ws),
    λ rest. rw (append_assoc, r (bs ++ rest), rs rest),
    omega (arith, length-append b bs),
  )

  no_items-ReadsBack :
      (s : Shape)
      → ReadsBack
          (serialize_all Values.nil)
          (repeat (deserialize utf8 s) 0)
          Values.nil
          (0 * bound s)
  unfolding serialize_all repeat
  no_items-ReadsBack s = ([], refl, λ rest. refl, omega arith)

  item-ReadsBack :
      (s : Shape) (v : Value) (vs : Values)
      → Trip utf8 s v
      → ReadsBack
          (serialize_all vs)
          (repeat (deserialize utf8 s) (count vs))
          vs
          (count vs * bound s)
      → ReadsBack
          (serialize_all (Values.cons v vs))
          (repeat (deserialize utf8 s) (count (Values.cons v vs)))
          (Values.cons v vs)
          (count (Values.cons v vs) * bound s)
  unfolding serialize_all repeat
  item-ReadsBack s v vs (b, w, r, c) (bs, ws, rs, cs) = (
    b ++ bs,
    rw (w, ws),
    λ rest. rw (append_assoc, r (bs ++ rest), rs rest),
    omega (arith, length-append b bs),
  )

  mutual
    trip : {s : Shape} {v : Value} → Fits utf8 s v → Trip utf8 s v
    trip (bool b) = bool-Trip utf8 b
    trip (signed w v h) = signed-Trip utf8 w v h
    trip (unsigned w n h) = unsigned-Trip utf8 w n h
    trip (f32 bits h) = f32-Trip utf8 bits h
    trip (f64 bits h) = f64-Trip utf8 bits h
    trip (char c h) = char-Trip utf8 c h
    trip (str s valid h) = str-Trip utf8 s valid h
    trip (string s valid h) = string-Trip utf8 s valid h
    trip (bytes b h) = bytes-Trip utf8 b h
    trip (byte_buf b h) = byte_buf-Trip utf8 b h
    trip (absent s) = absent-Trip utf8 s
    trip (present f) = present-Trip utf8 _ _ (trip f)
    trip unit = unit-Trip utf8
    trip (plain f) = plain-Trip utf8 _ _ (trip f)
    trip (sized_text n l s e within valid) = sized_text-Trip utf8 n l s e within valid
    trip (sized_seq n l e within fs) = sized_seq-Trip utf8 n l _ _ e within (trip_each fs)
    trip (seq h fs) = seq-Trip utf8 _ _ h (trip_each fs)
    trip (tuple fs) = tuple-Trip utf8 _ _ (trip_all fs)
    trip (variant i ss h e f) = variant-Trip utf8 i ss _ _ h e (trip f)

    trip_all :
        {ss : Shapes} {vs : Values}
        → FitsAll utf8 ss vs
        → ReadsBack (serialize_all vs) (deserialize_all utf8 ss) vs (bound_all ss)
    trip_all no_fields = no_fields-ReadsBack
    trip_all (field f fs) = field-ReadsBack _ _ _ _ (trip f) (trip_all fs)

    trip_each :
        {s : Shape} {vs : Values}
        → FitsEach utf8 s vs
        → ReadsBack
            (serialize_all vs)
            (repeat (deserialize utf8 s) (count vs))
            vs
            (count vs * bound s)
    trip_each (no_items s) = no_items-ReadsBack s
    trip_each (item f fs) = item-ReadsBack _ _ _ (trip f) (trip_each fs)

  -- Every value that fits a shape is written without an error, in front of any further input the
  -- reader takes exactly the bytes written and gives the value back, and the bytes are at most as
  -- many as the shape's bound.
  pub deserialize-serialize :
      (s : Shape) (v : Value)
      → Fits utf8 s v
      → (bs : List ℕ) × (to_vec v ≡ ok bs)
        × ((rest : List ℕ) → deserialize utf8 s (bs ++ rest) ≡ ok (v, rest))
        × (length bs ≤ bound s)
  unfolding to_vec
  deserialize-serialize s v f = trip f

  -- `from_slice` of what `to_vec` wrote is the value, for every value that fits its shape.
  pub from_slice-to_vec :
      (s : Shape) (v : Value) → Fits utf8 s v → (to_vec v >>= from_slice utf8 s) ≡ ok v
  unfolding to_vec from_slice
  from_slice-to_vec s v f =
      let (bs, w, r, c) = trip f in
      let whole : deserialize utf8 s bs ≡ ok (v, []) = rw append-nil at (r []) in rw (w, whole)
