-- ===== src/Stratum/Serialization/Fits.antt =====
-- Which values a type of a given shape holds: the range of each Rust type, the size limits of the
-- sized types (open/protocols/stratum/src/v2/types.rs), and a length announced as it is.
use bic_os.Base.{
  ℕ, zero, suc, ◌≤◌, ◌<◌, ◌^◌, ◌≡◌, Bool, true, Option, none, some, List, length, ℤ, InSigned,
}
use bic_os.Stratum.Serialization.{Width, patterns, Name, Value, Values, Shape, Shapes}
use bic_os.Stratum.Serialization.Deserializer.{is_char, Limits, limits_of}

abbrev pub count : Values → ℕ
count Values.nil = 0
count (Values.cons v vs) = suc (count vs)

abbrev pub shape_at : Shapes → ℕ → Option Shape
shape_at Shapes.nil i = none
shape_at (Shapes.cons s ss) zero = some s
shape_at (Shapes.cons s ss) (suc i) = shape_at ss i

abbrev pub Within : Limits → ℕ → Type 0
Within l n = (l.min_size ≤ n) × (n ≤ l.max_size)

module _ (utf8 : List ℕ → Bool) where
  mutual
    pub data Fits : Shape → Value → Type 0 where
      bool : (b : Bool) → Fits Shape.bool (Value.bool b)
      signed :
          (w : Width) (v : ℤ) → InSigned (patterns w) v → Fits (Shape.signed w) (Value.signed w v)
      unsigned : (w : Width) (n : ℕ) → n < patterns w → Fits (Shape.unsigned w) (Value.unsigned w n)
      f32 : (bits : ℕ) → bits < 256 ^ 4 → Fits Shape.f32 (Value.f32 bits)
      f64 : (bits : ℕ) → bits < 256 ^ 8 → Fits Shape.f64 (Value.f64 bits)
      char : (c : ℕ) → is_char c ≡ true → Fits Shape.char (Value.char c)
      str : (s : List ℕ) → utf8 s ≡ true → length s < 65536 → Fits Shape.str (Value.str s)
      string : (s : List ℕ) → utf8 s ≡ true → length s < 65536 → Fits Shape.string (Value.str s)
      bytes : (b : List ℕ) → length b < 65536 → Fits Shape.bytes (Value.bytes b)
      byte_buf : (b : List ℕ) → length b < 65536 → Fits Shape.byte_buf (Value.bytes b)
      absent : (s : Shape) → Fits (Shape.option s) Value.opt_none
      present : {s : Shape} {v : Value} → Fits s v → Fits (Shape.option s) (Value.opt_some v)
      unit : Fits Shape.unit Value.unit
      plain :
          {s : Shape} {v : Value}
          → Fits s v
          → Fits (Shape.newtype Name.plain s) (Value.newtype Name.plain v)
      sized_text :
          (n : Name) (l : Limits) (s : List ℕ)
          → limits_of n ≡ some l
          → Within l (length s)
          → utf8 s ≡ true
          → Fits (Shape.newtype n Shape.string) (Value.newtype n (Value.str s))
      sized_seq :
          (n : Name) (l : Limits) {s : Shape} {vs : Values}
          → limits_of n ≡ some l
          → Within l (count vs)
          → FitsEach s vs
          → Fits (Shape.newtype n (Shape.seq s)) (Value.newtype n (Value.seq (some (count vs)) vs))
      seq :
          {s : Shape} {vs : Values}
          → count vs < 65536
          → FitsEach s vs
          → Fits (Shape.seq s) (Value.seq (some (count vs)) vs)
      tuple : {ss : Shapes} {vs : Values} → FitsAll ss vs → Fits (Shape.tuple ss) (Value.tuple vs)
      variant :
          (i : ℕ) (ss : Shapes) {s : Shape} {v : Value}
          → i < 256 ^ 4
          → shape_at ss i ≡ some s
          → Fits s v
          → Fits (Shape.enum ss) (Value.variant i v)

    pub data FitsEach : Shape → Values → Type 0 where
      no_items : (s : Shape) → FitsEach s Values.nil
      item :
          {s : Shape} {v : Value} {vs : Values}
          → Fits s v
          → FitsEach s vs
          → FitsEach s (Values.cons v vs)

    pub data FitsAll : Shapes → Values → Type 0 where
      no_fields : FitsAll Shapes.nil Values.nil
      field :
          {s : Shape} {ss : Shapes} {v : Value} {vs : Values}
          → Fits s v
          → FitsAll ss vs
          → FitsAll (Shapes.cons s ss) (Values.cons v vs)
