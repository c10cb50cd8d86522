-- ===== src/Antminer/Registers/Tests.antt =====
-- The register with which a chain is set up, and the mask of difficulty 64.
use bic_os.Base.{ℕ, ◌/◌, ◌%◌, ◌^◌, ◌<◌, ◌≡◌, ◌↔◌, refl, true, false, some, ok}
use bic_os.Antminer.Registers.{
  MiscCtrlReg, middle, bottom, misc_ctrl_reg, hash_doing, open_drain, set_i2c, to_reg, from_reg,
  ticket_mask_reg,
}
use bic_os.Antminer.Registers.MiscCtrl.{to_reg-set_i2c}
use bic_os.Antminer.Registers.TicketMask.{mask_of, ticket_mask_reg-eq-ok}

abbrev reg : MiscCtrlReg
reg = record {
  not_set_baud = false;
  inv_clock = true;
  i2c_bus = bottom;
  gate_block = true;
  rfs = open_drain;
  baud_div = 26;
  mmen = true;
  tfs = hash_doing;
}

reg-made : misc_ctrl_reg false true 26 true true ≡ ok reg
unfolding misc_ctrl_reg
reg-made = refl

to_reg-set_i2c_example :
    (to_reg (set_i2c (from_reg 0x209a80) (some middle)) / 2 ^ 21 % 2 ≡ 0x209a80 / 2 ^ 21 % 2)
    × (to_reg (set_i2c (from_reg 0x209a80) (some middle)) / 2 ^ 8 % 32 ≡ 0x209a80 / 2 ^ 8 % 32)
    × (to_reg (set_i2c (from_reg 0x209a80) (some middle)) / 2 ^ 7 % 2 ≡ 0x209a80 / 2 ^ 7 % 2)
    × (to_reg (set_i2c (from_reg 0x209a80) (some middle)) / 2 ^ 30 % 2 ≡ 1)
    × (to_reg (set_i2c (from_reg 0x209a80) (some middle)) / 2 ^ 15 % 2 ≡ 0)
to_reg-set_i2c_example = to_reg-set_i2c 0x209a80 (some middle)

ticket_mask_reg-eq-ok_example :
    (ticket_mask_reg 64 ≡ ok 252) ↔ ((k : ℕ) × (k < 32) × (64 ≡ 2 ^ k) × (252 ≡ mask_of k))
ticket_mask_reg-eq-ok_example = ticket_mask_reg-eq-ok 64 252
