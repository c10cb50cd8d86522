-- ===== src/Bitcoin/Header/Chunks.antt =====
-- What of a header is in its first chunk.
use bic_os.Base.{
  ℕ, ◌+◌, ◌≡◌, ap, ◌∙◌, List, ◌++◌, take, length, le_bytes, length-le_bytes, take-append_over,
  take-append_under, arith,
}
use bic_os.Bitcoin.Header.{BlockHeader, into_bytes, midstate}

chunk :
    (h : BlockHeader)
    → length h.previous_hash ≡ 32
    → length h.merkle_root ≡ 32
    → take 64 (into_bytes h) ≡ le_bytes 4 h.version ++ (h.previous_hash ++ take 28 h.merkle_root)
unfolding into_bytes
chunk h prev root =
    let rest = le_bytes 4 h.time ++ le_bytes 4 h.bits ++ le_bytes 4 h.nonce in
    let version = le_bytes 4 h.version in
    let after_version : 64 ≡ length version + 60 = omega (arith, length-le_bytes 4 h.version) in
    let after_hash : 60 ≡ length h.previous_hash + 28 = omega (arith, prev) in
    ap (λ n. take n (version ++ (h.previous_hash ++ (h.merkle_root ++ rest)))) after_version
    ∙ take-append_over version (h.previous_hash ++ (h.merkle_root ++ rest)) 60
    ∙ ap (λ n. version ++ take n (h.previous_hash ++ (h.merkle_root ++ rest))) after_hash
    ∙ ap (λ r. version ++ r) (take-append_over h.previous_hash (h.merkle_root ++ rest) 28)
    ∙ ap (λ r. version ++ (h.previous_hash ++ r))
        (take-append_under 28 h.merkle_root rest (omega (arith, root)))

-- The midstate of a header with hashes of 32 bytes is that of the version, the hash of the previous
-- block and the first 28 bytes of the merkle root: the last four bytes of the root, the time, the
-- bits and the nonce, which a chip rolls or adds, make no difference.
pub midstate_lem :
    {M : Type 0} (engine : List ℕ → M) (h : BlockHeader)
    → length h.previous_hash ≡ 32
    → length h.merkle_root ≡ 32
    → midstate engine h
      ≡ engine (le_bytes 4 h.version ++ (h.previous_hash ++ take 28 h.merkle_root))
unfolding midstate
midstate_lem engine h prev root = ap engine (chunk h prev root)
