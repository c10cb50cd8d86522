-- ===== src/Bitcoin/Header/Tests.antt =====
-- A header whose hashes are zeros.
use bic_os.Base.{◌≡◌, refl, ◌++◌, take, replicate, le_bytes}
use bic_os.Bitcoin.Header.{default, midstate}
use bic_os.Bitcoin.Header.Chunks.{midstate_lem}

midstate_lem_example :
    midstate (λ bytes. bytes) (record default { version = 0x20000000; nonce = 7 })
    ≡ le_bytes 4 0x20000000 ++ (replicate 32 0 ++ take 28 (replicate 32 0))
midstate_lem_example =
    midstate_lem (λ bytes. bytes) (record default { version = 0x20000000; nonce = 7 }) refl refl
