-- ===== src/Antminer/Registers.antt =====
-- Registers of the chips, open/bosminer/bosminer-am1-s9/src/bm1387.rs: MiscCtrlReg and TicketMaskReg.
-- A register is its word: `to_reg` and `from_reg` put the fields at the bits that their attributes
-- give, as the derived packing documents.
pub mod MiscCtrl
pub mod TicketMask
mod Tests
use bic_os.Base.{
  ℕ, zero, suc, ◌+◌, ◌-◌, ◌*◌, ◌/◌, ◌%◌, ◌^◌, Bool, true, false, not, ◌&&◌, ◌||◌, Option, none,
  some, Result, ok, err, ◌>>=◌, ◌>>◌, guard, leb, ◌==◌, if◌then◌else◌,
}

-- `ErrorKind`: a divisor of the baud rate, and a difficulty.
pub data Error : Type 0 where
  baud_rate zero_difficulty not_power_of_two : Error

pub data TfSelector : Type 0 where
  hash_doing uart_receiving uart_transmitting scl0 : TfSelector

pub data RfSelector : Type 0 where
  open_drain sda0 : RfSelector

pub data I2cBusSelect : Type 0 where
  bottom middle : I2cBusSelect

pub record MiscCtrlReg : Type 0 where
  pub not_set_baud : Bool
  pub inv_clock : Bool
  pub i2c_bus : I2cBusSelect
  pub gate_block : Bool
  pub rfs : RfSelector
  pub baud_div : ℕ
  pub mmen : Bool
  pub tfs : TfSelector

abbrev pub max_baud_clock_div : ℕ
max_baud_clock_div = 26

unfoldable pub misc_ctrl_reg : Bool → Bool → ℕ → Bool → Bool → Result Error MiscCtrlReg
misc_ctrl_reg not_set_baud inv_clock baud_div gate_block mmen = do
  guard (leb baud_div max_baud_clock_div) baud_rate
  ok (record {
    not_set_baud = not_set_baud;
    inv_clock = inv_clock;
    i2c_bus = bottom;
    gate_block = gate_block;
    rfs = open_drain;
    baud_div = baud_div;
    mmen = mmen;
    tfs = hash_doing;
  })

unfoldable pub set_i2c : MiscCtrlReg → Option I2cBusSelect → MiscCtrlReg
set_i2c r (some bus) = record r {
  not_set_baud = true;
  gate_block = false;
  tfs = scl0;
  rfs = sda0;
  i2c_bus = bus;
}
set_i2c r none = record r {
  not_set_baud = true;
  gate_block = false;
  tfs = hash_doing;
  rfs = open_drain;
  i2c_bus = bottom;
}

unfoldable pub bit : Bool → ℕ
bit false = 0
bit true = 1

unfoldable pub tf_code : TfSelector → ℕ
tf_code hash_doing = 0
tf_code uart_receiving = 1
tf_code uart_transmitting = 2
tf_code scl0 = 3

unfoldable pub rf_code : RfSelector → ℕ
rf_code open_drain = 0
rf_code sda0 = 1

unfoldable pub bus_code : I2cBusSelect → ℕ
bus_code bottom = 0
bus_code middle = 1

unfoldable pub to_reg : MiscCtrlReg → ℕ
to_reg r =
    bit r.not_set_baud * 2 ^ 30
    + bit r.inv_clock * 2 ^ 21
    + bus_code r.i2c_bus * 2 ^ 16
    + bit r.gate_block * 2 ^ 15
    + rf_code r.rfs * 2 ^ 14
    + r.baud_div % 32 * 2 ^ 8
    + bit r.mmen * 2 ^ 7
    + tf_code r.tfs * 2 ^ 5

abbrev pub flag : ℕ → Bool
flag n = n == 1

unfoldable pub tf_of : ℕ → TfSelector
tf_of n =
    if n == 0
    then hash_doing
    else if n == 1
    then uart_receiving
    else if n == 2
    then uart_transmitting
    else scl0

unfoldable pub rf_of : ℕ → RfSelector
rf_of n = if n == 0 then open_drain else sda0

unfoldable pub bus_of : ℕ → I2cBusSelect
bus_of n = if n == 0 then bottom else middle

unfoldable pub from_reg : ℕ → MiscCtrlReg
from_reg reg = record {
  not_set_baud = flag (reg / 2 ^ 30 % 2);
  inv_clock = flag (reg / 2 ^ 21 % 2);
  i2c_bus = bus_of (reg / 2 ^ 16 % 2);
  gate_block = flag (reg / 2 ^ 15 % 2);
  rfs = rf_of (reg / 2 ^ 14 % 2);
  baud_div = reg / 2 ^ 8 % 32;
  mmen = flag (reg / 2 ^ 7 % 2);
  tfs = tf_of (reg / 2 ^ 5 % 4);
}

-- Some digits in the reverse order.
unfoldable pub reverse_digits : ℕ → ℕ → ℕ
reverse_digits zero n = 0
reverse_digits (suc digits) n = n % 2 * 2 ^ digits + reverse_digits digits (n / 2)

abbrev pub reverse_bits : ℕ → ℕ
reverse_bits n = reverse_digits 32 n

-- Of a word of four bytes.
abbrev pub swap_bytes : ℕ → ℕ
swap_bytes n =
    n % 256 * 256 ^ 3 + n / 256 % 256 * 256 ^ 2 + n / 256 ^ 2 % 256 * 256 + n / 256 ^ 3 % 256

-- Of a number that has at most so many digits.
unfoldable pub is_power_of_two : ℕ → ℕ → Bool
is_power_of_two zero n = false
is_power_of_two (suc digits) n =
    let rest = is_power_of_two digits (n / 2) in (n == 1) || ((n % 2 == 0) && rest)

unfoldable pub ticket_mask_reg : ℕ → Result Error ℕ
ticket_mask_reg difficulty = do
  guard (not (difficulty == 0)) zero_difficulty
  guard (is_power_of_two 32 difficulty) not_power_of_two
  ok (swap_bytes (reverse_bits (difficulty - 1)))
