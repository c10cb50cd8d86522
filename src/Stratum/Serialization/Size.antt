-- ===== src/Stratum/Serialization/Size.antt =====
-- How many bytes a value of a shape takes at most.
use bic_os.Base.{ℕ, zero, suc, ◌+◌, ◌*◌, ◌≤◌, ◌≡◌, none, some, arith}
use bic_os.Stratum.Serialization.{size, Shape, Shapes}
use bic_os.Stratum.Serialization.Deserializer.{limits_of}
use bic_os.Stratum.Serialization.Fits.{shape_at}

-- `bound_item` is for one unit of a sized newtype: a byte of text, or an element.
unfoldable mutual
  pub bound : Shape → ℕ
  bound Shape.bool = 1
  bound (Shape.signed w) = size w
  bound (Shape.unsigned w) = size w
  bound Shape.f32 = 4
  bound Shape.f64 = 8
  bound Shape.char = 4
  bound Shape.str = 65537
  bound Shape.string = 65537
  bound Shape.bytes = 65537
  bound Shape.byte_buf = 65537
  bound (Shape.option s) = 1 + bound s
  bound Shape.unit = 0
  bound (Shape.newtype n s) = elim (limits_of n) [
    | none ↦ bound s
    | some l ↦ size l.prefix + l.max_size * bound_item s
  ]
  bound (Shape.seq s) = 2 + 65535 * bound s
  bound (Shape.tuple ss) = bound_all ss
  bound (Shape.enum ss) = 4 + bound_all ss
  bound _ = 0

  pub bound_item : Shape → ℕ
  bound_item Shape.string = 1
  bound_item (Shape.seq s) = bound s
  bound_item _ = 0

  pub bound_all : Shapes → ℕ
  bound_all Shapes.nil = 0
  bound_all (Shapes.cons s ss) = bound s + bound_all ss

pub bound-shape_at :
    (ss : Shapes) (i : ℕ) (s : Shape) → shape_at ss i ≡ some s → bound s ≤ bound_all ss
unfolding bound
bound-shape_at Shapes.nil i s e = cc
bound-shape_at (Shapes.cons s' ss) zero s e = let same : s' ≡ s = cc in rw same (omega arith)
bound-shape_at (Shapes.cons s' ss) (suc i) s e = omega (arith, bound-shape_at ss i s e)
