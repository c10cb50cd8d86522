-- ===== src/Stratum/Serialization/Tests.antt =====
-- A struct with a text, an option and a sequence through the format.
use bic_os.Base.{
  ℕ, negsuc, Bool, true, some, List, [], ◌∷◌, ◌++◌, ◌≤◌, ◌≡◌, refl, ok, length, arith,
}
use bic_os.Stratum.Serialization.{Width, Value, Values, Shape, Shapes, str1_32}
use bic_os.Stratum.Serialization.Serializer.{to_vec}
use bic_os.Stratum.Serialization.Deserializer.{deserialize, limits_of}
use bic_os.Stratum.Serialization.Size.{bound}
use bic_os.Stratum.Serialization.Fits.{Fits, FitsAll, FitsEach}
use bic_os.Stratum.Serialization.RoundTrip.{deserialize-serialize}

abbrev any_text : List ℕ → Bool
any_text s = true

abbrev job : Value
job = Value.tuple (
    Values.cons (Value.newtype str1_32 (Value.str (104 ∷ 105 ∷ []))) (
      Values.cons (Value.opt_some (Value.unsigned Width.w16 513)) (
        Values.cons (Value.seq (some 1) (Values.cons (Value.signed Width.w8 (negsuc 0)) Values.nil))
          Values.nil)))

abbrev job_shape : Shape
job_shape = Shape.tuple (
    Shapes.cons (Shape.newtype str1_32 Shape.string) (
      Shapes.cons (Shape.option (Shape.unsigned Width.w16))
        (Shapes.cons (Shape.seq (Shape.signed Width.w8)) Shapes.nil)))

job-Fits : Fits any_text job_shape job
unfolding limits_of
job-Fits = Fits.tuple (
    FitsAll.field (Fits.sized_text str1_32 _ (104 ∷ 105 ∷ []) refl (omega arith, omega arith) refl)
      (FitsAll.field (Fits.present (Fits.unsigned Width.w16 513 (omega arith))) (
        FitsAll.field
          (Fits.seq (omega arith) (
            FitsEach.item (Fits.signed Width.w8 (negsuc 0) (omega arith))
              (FitsEach.no_items (Shape.signed Width.w8))))
          FitsAll.no_fields)))

deserialize-serialize_example :
    (bs : List ℕ) × (to_vec job ≡ ok bs)
    × ((rest : List ℕ) → deserialize any_text job_shape (bs ++ rest) ≡ ok (job, rest))
    × (length bs ≤ bound job_shape)
deserialize-serialize_example = deserialize-serialize any_text job_shape job job-Fits
