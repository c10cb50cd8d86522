-- ===== src/Antminer/Address/Cores.antt =====
-- Which chips and cores a nonce can name.
use bic_os.Base.{ℕ, ◌/◌, ◌^◌, ◌<◌, arith, low_digits6, low_digits7}
use bic_os.Antminer.Address.{core_address}

-- Any nonce names a chip below 64 and a core below 128.
pub core_address-bounds :
    (nonce : ℕ) → ((core_address nonce).chip < 64) × ((core_address nonce).core < 128)
unfolding core_address
core_address-bounds nonce =
    (omega (arith, low_digits6 (nonce / 4)), omega (arith, low_digits7 (nonce / 2 ^ 24)))
