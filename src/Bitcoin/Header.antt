-- ===== src/Bitcoin/Header.antt =====
-- `BlockHeader` of open/coins/bitcoin/src/lib.rs. Hashes are lists of 32 bytes; SHA256 is a
-- parameter: what its engine holds after some input, and the double hash of an input.
mod Chunks
mod Tests
use bic_os.Base.{ℕ, List, ◌++◌, take, replicate, le_bytes}

pub record BlockHeader : Type 0 where
  pub version : ℕ
  pub previous_hash : List ℕ
  pub merkle_root : List ℕ
  pub time : ℕ
  pub bits : ℕ
  pub nonce : ℕ

abbrev pub default : BlockHeader
default = record {
  version = 0;
  previous_hash = replicate 32 0;
  merkle_root = replicate 32 0;
  time = 0;
  bits = 0;
  nonce = 0;
}

abbrev pub block_header_chunk1_size : ℕ
block_header_chunk1_size = 64

unfoldable pub into_bytes : BlockHeader → List ℕ
into_bytes h =
    let rest = le_bytes 4 h.time ++ le_bytes 4 h.bits ++ le_bytes 4 h.nonce in
    le_bytes 4 h.version ++ (h.previous_hash ++ (h.merkle_root ++ rest))

unfoldable pub hash : {H : Type 0} → (List ℕ → H) → BlockHeader → H
hash double_sha h = double_sha (into_bytes h)

unfoldable pub midstate : {M : Type 0} → (List ℕ → M) → BlockHeader → M
midstate engine h = engine (take block_header_chunk1_size (into_bytes h))
