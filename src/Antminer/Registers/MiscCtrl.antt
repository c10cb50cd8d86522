-- ===== src/Antminer/Registers/MiscCtrl.antt =====
-- The fields of MiscCtrlReg in its word.
use bic_os.Base.{
  ℕ, zero, suc, ◌/◌, ◌%◌, ◌^◌, ◌<◌, ◌≤◌, ◌≡◌, refl, Bool, true, false, Option, none, some, arith,
}
use bic_os.Antminer.Registers.{
  MiscCtrlReg, TfSelector, RfSelector, I2cBusSelect, hash_doing, uart_receiving, uart_transmitting,
  scl0, open_drain, sda0, bottom, middle, set_i2c, bit, tf_code, rf_code, bus_code, to_reg, flag,
  tf_of, rf_of, bus_of, from_reg,
}

bit-le : (b : Bool) → bit b ≤ 1
unfolding bit
bit-le false = omega arith
bit-le true = omega arith

flag-bit : (b : Bool) → flag (bit b) ≡ b
unfolding bit
flag-bit false = refl
flag-bit true = refl

tf_code-le : (t : TfSelector) → tf_code t ≤ 3
unfolding tf_code
tf_code-le hash_doing = omega arith
tf_code-le uart_receiving = omega arith
tf_code-le uart_transmitting = omega arith
tf_code-le scl0 = omega arith

tf_of-tf_code : (t : TfSelector) → tf_of (tf_code t) ≡ t
unfolding tf_of tf_code
tf_of-tf_code hash_doing = refl
tf_of-tf_code uart_receiving = refl
tf_of-tf_code uart_transmitting = refl
tf_of-tf_code scl0 = refl

rf_code-le : (r : RfSelector) → rf_code r ≤ 1
unfolding rf_code
rf_code-le open_drain = omega arith
rf_code-le sda0 = omega arith

rf_of-rf_code : (r : RfSelector) → rf_of (rf_code r) ≡ r
unfolding rf_of rf_code
rf_of-rf_code open_drain = refl
rf_of-rf_code sda0 = refl

bus_code-le : (b : I2cBusSelect) → bus_code b ≤ 1
unfolding bus_code
bus_code-le bottom = omega arith
bus_code-le middle = omega arith

bus_of-bus_code : (b : I2cBusSelect) → bus_of (bus_code b) ≡ b
unfolding bus_of bus_code
bus_of-bus_code bottom = refl
bus_of-bus_code middle = refl

-- A register whose divisor has five bits is read back from its word, which has 32 bits.
pub from_reg-to_reg :
    (r : MiscCtrlReg) → r.baud_div < 32 → (from_reg (to_reg r) ≡ r) × (to_reg r < 2 ^ 32)
unfolding from_reg to_reg
from_reg-to_reg r small =
    let a = bit-le r.not_set_baud in
    let b = bit-le r.inv_clock in
    let c = bus_code-le r.i2c_bus in
    let d = bit-le r.gate_block in
    let e = rf_code-le r.rfs in
    let f = bit-le r.mmen in
    let g = tf_code-le r.tfs in
    let word = to_reg r in
    let w1 : word / 2 ^ 30 % 2 ≡ bit r.not_set_baud = omega arith in
    let w2 : word / 2 ^ 21 % 2 ≡ bit r.inv_clock = omega arith in
    let w3 : word / 2 ^ 16 % 2 ≡ bus_code r.i2c_bus = omega arith in
    let w4 : word / 2 ^ 15 % 2 ≡ bit r.gate_block = omega arith in
    let w5 : word / 2 ^ 14 % 2 ≡ rf_code r.rfs = omega arith in
    let w6 : word / 2 ^ 8 % 32 ≡ r.baud_div = omega arith in
    let w7 : word / 2 ^ 7 % 2 ≡ bit r.mmen = omega arith in
    let w8 : word / 2 ^ 5 % 4 ≡ tf_code r.tfs = omega arith in
    (
      rw (w1, w2, w3, w4, w5, w6, w7, w8)
          (rw
            (
              flag-bit r.not_set_baud,
              flag-bit r.inv_clock,
              bus_of-bus_code r.i2c_bus,
              flag-bit r.gate_block,
              rf_of-rf_code r.rfs,
              flag-bit r.mmen,
              tf_of-tf_code r.tfs,
            )
            refl),
      omega arith,
    )

bit-flag : (x : ℕ) → x < 2 → bit (flag x) ≡ x
unfolding bit
bit-flag zero lt = refl
bit-flag (suc zero) lt = refl
bit-flag (suc (suc x)) lt = absurd (omega arith)

-- Enabling or disabling I2C by reading a register, altering it and writing it back, whatever its word
-- is: the inversion of the clock, the divisor of the baud rate and the use of many midstates are
-- kept, the flag that the baud rate is not set is put, and no block is gated any more.
pub to_reg-set_i2c :
    (word : ℕ) (bus : Option I2cBusSelect)
    → (to_reg (set_i2c (from_reg word) bus) / 2 ^ 21 % 2 ≡ word / 2 ^ 21 % 2)
      × (to_reg (set_i2c (from_reg word) bus) / 2 ^ 8 % 32 ≡ word / 2 ^ 8 % 32)
      × (to_reg (set_i2c (from_reg word) bus) / 2 ^ 7 % 2 ≡ word / 2 ^ 7 % 2)
      × (to_reg (set_i2c (from_reg word) bus) / 2 ^ 30 % 2 ≡ 1)
      × (to_reg (set_i2c (from_reg word) bus) / 2 ^ 15 % 2 ≡ 0)
unfolding to_reg from_reg set_i2c bit tf_code rf_code
to_reg-set_i2c word none =
    let a = bit-flag (word / 2 ^ 21 % 2) (omega arith) in
    let b = bit-flag (word / 2 ^ 7 % 2) (omega arith) in
    let c = bus_code-le bottom in
    (
      omega (arith, a, b, c),
      omega (arith, a, b, c),
      omega (arith, a, b, c),
      omega (arith, a, b, c),
      omega (arith, a, b, c),
    )
to_reg-set_i2c word (some bus) =
    let a = bit-flag (word / 2 ^ 21 % 2) (omega arith) in
    let b = bit-flag (word / 2 ^ 7 % 2) (omega arith) in
    let c = bus_code-le bus in
    (
      omega (arith, a, b, c),
      omega (arith, a, b, c),
      omega (arith, a, b, c),
      omega (arith, a, b, c),
      omega (arith, a, b, c),
    )
