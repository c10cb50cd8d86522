-- ===== src/Stratum/Serialization/RoundTrip/Reads.antt =====
-- How each reading method takes what the writer put in front of the input.
use bic_os.Base.{
  ℕ, ◌%◌, ◌<◌, ◌^◌, ◌≡◌, Bool, true, some, List, ◌++◌, ok, length, take-append, drop-append,
  length-append, le_bytes, length-le_bytes, from_le-le_bytes, lt→ltb, le→leb, arith,
}
use native.Mathlib.Nat.{mod-eq_of_lt}
use bic_os.Stratum.Serialization.{Width, w8, w16, w32, w64, size, patterns, Name, str0_32}
use bic_os.Stratum.Serialization.Serializer.{write_len, index_width}
use bic_os.Stratum.Serialization.Deserializer.{
  read_u8, read_bytes, read_word, read_uint, read_str, read_size, is_char, Limits, limits_of,
}
use bic_os.Stratum.Serialization.Fits.{Within}

pub read_bytes-append : (xs rest : List ℕ) → read_bytes (length xs) (xs ++ rest) ≡ ok (xs, rest)
unfolding read_bytes
read_bytes-append xs rest = rw (
  le→leb (length xs) (length (xs ++ rest)) (omega (arith, length-append xs rest)),
  take-append xs rest,
  drop-append xs rest,
)

read_bytes-le_bytes :
    (k n : ℕ) (rest : List ℕ) → read_bytes k (le_bytes k n ++ rest) ≡ ok (le_bytes k n, rest)
read_bytes-le_bytes k n rest = rw (length-le_bytes k n) at (read_bytes-append (le_bytes k n) rest)

pub read_word-le_bytes :
    (k n : ℕ) (rest : List ℕ) → n < 256 ^ k → read_word k (le_bytes k n ++ rest) ≡ ok (n, rest)
unfolding read_word
read_word-le_bytes k n rest h = rw (read_bytes-le_bytes k n rest, from_le-le_bytes k n h)

pub read_uint-le_bytes :
    (w : Width) (n : ℕ) (rest : List ℕ)
    → n < patterns w
    → read_uint w (le_bytes (size w) n ++ rest) ≡ ok (n, rest)
unfolding read_uint
read_uint-le_bytes w8 n rest h =
    let e : n % 256 ≡ n = mod-eq_of_lt h in unfold read_u8 le_bytes in rw e
read_uint-le_bytes w16 n rest h = read_word-le_bytes 2 n rest h
read_uint-le_bytes w32 n rest h = read_word-le_bytes 4 n rest h
read_uint-le_bytes w64 n rest h = read_word-le_bytes 8 n rest h

pub read_str-append :
    (utf8 : List ℕ → Bool) (s rest : List ℕ)
    → utf8 s ≡ true
    → read_str utf8 (length s) (s ++ rest) ≡ ok (s, rest)
unfolding read_str
read_str-append utf8 s rest h = rw (read_bytes-append s rest, h)

pub read_size-le_bytes :
    (l : Limits) (n : ℕ) (rest : List ℕ)
    → n < patterns l.prefix
    → Within l n
    → read_size l (le_bytes (size l.prefix) n ++ rest) ≡ ok (n, rest)
unfolding read_size
read_size-le_bytes l n rest h within = rw (read_uint-le_bytes l.prefix n rest h) (ground arith)

-- The two `match name` tables agree, and no limit exceeds its prefix.
pub limits_width :
    (n : Name) (l : Limits)
    → limits_of n ≡ some l
    → (index_width n ≡ some l.prefix) × (l.max_size < patterns l.prefix)
unfolding limits_of index_width
limits_width str0_32 l h = ground arith
limits_width _ l h = ground arith

pub write_len-ok : (w : Width) (n : ℕ) → n < patterns w → write_len w n ≡ ok (le_bytes (size w) n)
unfolding write_len
write_len-ok w n h = rw (lt→ltb n (patterns w) h)

pub is_char-lt : (c : ℕ) → is_char c ≡ true → c < 256 ^ 4
is_char-lt c h = ground arith
