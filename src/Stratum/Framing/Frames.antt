-- ===== src/Stratum/Framing/Frames.antt =====
-- Frames as bytes, and back.
use bic_os.Base.{
  ℕ, true, false, some, List, ◌++◌, ◌%◌, ◌^◌, ◌≤◌, ◌<◌, ◌≡◌, refl, ok, err, ◌>>=◌, arith, length,
  ◌==◌, ==_iff,
}
use bic_os.Stratum.Framing.{
  malformed_header, max_len, deserialize_header, AnyPayload, serialized_bytes, Frame, payload_bytes,
  serialize_frame, deserialize_frame,
}
use bic_os.Stratum.Framing.Headers.{IsHeader, header_read, serialize_header-total}

module _ {P : Type 0} (p : AnyPayload P) where
  -- What is written of a frame, whatever its payload's length.
  frame_read :
      (f : Frame P) (body : List ℕ)
      → IsHeader f.header
      → payload_bytes p f.payload ≡ ok body
      → (bs : List ℕ) × (serialize_frame p f ≡ ok bs)
        × (deserialize_header bs
            ≡ ok (record (f.header) { msg_length = some (length body % 2 ^ 32 % 2 ^ 24) }, body))
  unfolding serialize_frame
  frame_read f body v e =
      let n = length body % 2 ^ 32 in
      let (head, written) = serialize_header-total f.header n in
      (head ++ body, rw (e, written), rw written at (header_read f.header n body v))

  -- A frame with a valid header (an extension type that leaves the top bit free, a message type that
  -- is a byte) whose payload serializes to at most `max_len` bytes is written without an error, and
  -- what is written reads as the same header with the payload's length, and the payload's bytes.
  pub deserialize-serialize_frame :
      (f : Frame P) (body : List ℕ)
      → IsHeader f.header
      → payload_bytes p f.payload ≡ ok body
      → length body ≤ max_len
      → (serialize_frame p f >>= deserialize_frame {P = P})
        ≡ ok (record {
          header = record (f.header) { msg_length = some (length body) };
          payload = serialized_bytes body;
        })
  unfolding deserialize_frame
  deserialize-serialize_frame f body v e fits =
      let (bs, written, back) = frame_read f body v e in
      let n : length body % 2 ^ 32 % 2 ^ 24 ≡ length body = omega arith in
      let same : (length body == length body) ≡ true = (==_iff _ _).1 refl in
      rw written (rw back (rw n (rw same)))

  -- A frame with a valid header whose payload serializes to more than `max_len` bytes is written
  -- without an error all the same, with a length that is cut off: reading exactly what was written
  -- fails.
  pub deserialize_frame_overlong :
      (f : Frame P) (body : List ℕ)
      → IsHeader f.header
      → payload_bytes p f.payload ≡ ok body
      → max_len < length body
      → (bs : List ℕ) × (serialize_frame p f ≡ ok bs)
        × (deserialize_frame {P = P} bs ≡ err malformed_header)
  unfolding deserialize_frame
  deserialize_frame_overlong f body v e long =
      let (bs, written, back) = frame_read f body v e in
      let differ : (length body % 2 ^ 32 % 2 ^ 24 == length body) ≡ false = ground arith in
      (bs, written, rw back (rw differ))
