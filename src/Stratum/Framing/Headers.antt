-- ===== src/Stratum/Framing/Headers.antt =====
-- A header is read back as it was written.
use bic_os.Base.{
  ℕ, Bool, true, false, Option, none, some, List, [], ◌∷◌, ◌++◌, ◌+◌, ◌/◌, ◌%◌, ◌^◌, ◌≤◌, ◌<◌, ◌≡◌,
  refl, ok, err, ◌>>=◌, length, arith, le_bytes, from_le, not, ◌==◌, or_zero15, or_bit15, and_bit15,
  and_low15,
}
use Prim.Native.Nat.{bit_and}
use bic_os.Stratum.Framing.{
  no_message_length, Header, max_len, extension_field, serialize_header, deserialize_header,
}

-- What a header can hold: an extension type whose top bit is free, and a byte.
pub record IsHeader (h : Header) : Type 0 where
  pub extension_fits : h.extension_type < 32768
  pub type_fits : h.msg_type < 256

abbrev flag_value : Bool → ℕ
flag_value true = 32768
flag_value false = 0

flag_value-le : (c : Bool) → flag_value c ≤ 32768
flag_value-le true = omega arith
flag_value-le false = omega arith

field_value :
    (c : Bool) (e : ℕ) (ty : ℕ) (len : Option ℕ)
    → e < 32768
    → extension_field
        (record { is_channel_message = c; extension_type = e; msg_type = ty; msg_length = len })
      ≡ e + flag_value c
unfolding extension_field
field_value true e ty len h = or_bit15 e h
field_value false e ty len h = rw (or_zero15 e h) (omega arith)

flag_read : (c : Bool) (e : ℕ) → e < 32768 → not (bit_and (e + flag_value c) 32768 == 0) ≡ c
flag_read true e h = ground (arith, and_bit15 (e + 32768))
flag_read false e h = ground (arith, and_bit15 (e + 0))

extension_read : (c : Bool) (e : ℕ) → e < 32768 → bit_and (e + flag_value c) 32767 ≡ e
extension_read true e h = omega (arith, and_low15 (e + 32768) (omega arith))
extension_read false e h = omega (arith, and_low15 (e + 0) (omega arith))

field_bytes : (f : ℕ) → f < 65536 → from_le ((f % 256) ∷ (f / 256 % 256) ∷ []) ≡ f
unfolding from_le
field_bytes f h = omega arith

-- Three bytes hold a length modulo 2 ^ 24.
len_bytes :
    (n : ℕ) → from_le ((n % 256) ∷ (n / 256 % 256) ∷ (n / 256 / 256 % 256) ∷ []) ≡ n % 2 ^ 24
unfolding from_le
len_bytes n = omega arith

-- A header is read back from in front of any bytes, with the length cut to three bytes.
pub header_read :
    (h : Header) (n : ℕ) (rest : List ℕ)
    → IsHeader h
    → (serialize_header h (some n) >>= λ bs. deserialize_header (bs ++ rest))
      ≡ ok (record h { msg_length = some (n % 2 ^ 24) }, rest)
unfolding serialize_header deserialize_header le_bytes
header_read h n rest v =
    let c = h.is_channel_message in
    let e = h.extension_type in
    let field : extension_field h ≡ e + flag_value c =
      field_value c e h.msg_type h.msg_length v.extension_fits in
    rw (
      field_bytes (extension_field h) (omega (arith, flag_value-le c)),
      len_bytes n,
      field,
      flag_read c e v.extension_fits,
      extension_read c e v.extension_fits,
    )

-- A header that is written with the length `n` is read back whole, with that length, from in front
-- of any further bytes, provided that the extension type leaves the top bit free, that the message
-- type is a byte and that `n` fits the three bytes of the length.
pub deserialize-serialize_header :
    (h : Header) (n : ℕ) (rest : List ℕ)
    → IsHeader h
    → n ≤ max_len
    → (serialize_header h (some n) >>= λ bs. deserialize_header (bs ++ rest))
      ≡ ok (record h { msg_length = some n }, rest)
deserialize-serialize_header h n rest v fits =
    let e : n % 2 ^ 24 ≡ n = omega arith in rw e at (header_read h n rest v)

-- A length that is given is always written.
pub serialize_header-total :
    (h : Header) (n : ℕ) → (bs : List ℕ) × (serialize_header h (some n) ≡ ok bs)
unfolding serialize_header
serialize_header-total h n = (_, refl)

-- The length of what is written.
pub length-serialize_header :
    (h : Header) (n : ℕ) {bs : List ℕ} → serialize_header h (some n) ≡ ok bs → length bs ≡ 6
unfolding serialize_header le_bytes
length-serialize_header h n e = ground arith

-- With no length given and none in the header nothing is written.
pub serialize_header_no_length :
    (h : Header) → h.msg_length ≡ none → serialize_header h none ≡ err no_message_length
unfolding serialize_header
serialize_header_no_length h e = ground arith
