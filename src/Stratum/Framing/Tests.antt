-- ===== src/Stratum/Framing/Tests.antt =====
-- A header and two frames with payloads that are bytes already.
use bic_os.Base.{
  err, length, replicate, length-replicate, ℕ, true, none, some, List, [], ◌∷◌, ◌≡◌, refl, ok,
  ◌>>=◌, arith,
}
use bic_os.Stratum.Framing.{
  malformed_header, Header, AnyPayload, Frame, serialized_bytes, lazy_bytes, payload_bytes,
  serialize_frame, deserialize_frame,
}
use bic_os.Stratum.Framing.Headers.{IsHeader}
use bic_os.Stratum.Framing.Frames.{deserialize_frame_overlong, deserialize-serialize_frame}

abbrev h : Header
h = record { is_channel_message = true; extension_type = 1; msg_type = 30; msg_length = none }

h-IsHeader : IsHeader h
h-IsHeader = record { extension_fits = omega arith; type_fits = omega arith }

-- A payload that is its own serialization.
abbrev itself : AnyPayload (List ℕ)
itself = record { serialize_to_writer = λ bs. ok bs }

abbrev body : List ℕ
body = 1 ∷ 2 ∷ 3 ∷ []

abbrev f : Frame (List ℕ)
f = record { header = h; payload = lazy_bytes body }

f-bytes : payload_bytes itself f.payload ≡ ok body
unfolding payload_bytes
f-bytes = refl

deserialize-serialize_frame_example :
    (serialize_frame itself f >>= deserialize_frame {P = List ℕ})
    ≡ ok (record { header = record h { msg_length = some 3 }; payload = serialized_bytes body })
deserialize-serialize_frame_example =
    deserialize-serialize_frame itself f body h-IsHeader f-bytes (omega arith)

bytes_of_length : (n : ℕ) → (bs : List ℕ) × (length bs ≡ n)
bytes_of_length n = (replicate n 0, length-replicate n 0)

-- One byte more than a frame can announce.
abbrev overlong : List ℕ
overlong = (bytes_of_length 16777216).0

abbrev g : Frame (List ℕ)
g = record { header = h; payload = serialized_bytes overlong }

g-bytes : payload_bytes itself g.payload ≡ ok overlong
unfolding payload_bytes
g-bytes = refl

deserialize_frame_overlong_example :
    (bs : List ℕ) × (serialize_frame itself g ≡ ok bs)
    × (deserialize_frame {P = List ℕ} bs ≡ err malformed_header)
deserialize_frame_overlong_example =
    deserialize_frame_overlong itself g overlong h-IsHeader g-bytes
      (omega (arith, (bytes_of_length 16777216).1))
