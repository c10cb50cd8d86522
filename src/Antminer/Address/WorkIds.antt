-- ===== src/Antminer/Address/WorkIds.antt =====
-- Work ids in the 16 bits of the FPGA core, there and back.
use native.Mathlib.Nat.{mod-lt}
use Prim.Native.Nat.{bit_or}
use bic_os.Base.{
  ℕ, zero, suc, ◌*◌, ◌+◌, ◌/◌, ◌%◌, ◌^◌, ◌≤◌, ◌<◌, ◌≡◌, ap, Bool, List, some, ok, ◌>>=◌, arith,
  lt→ltb, length, get_elem?, and_mask, or_mask,
}
use bic_os.Antminer.Registry.{WorkRegistry, new, store_all}
use bic_os.Antminer.Registry.History.{find_work-store_all}
use bic_os.Antminer.Address.{
  MidstateCount, midstate_count, to_count, ExtWorkId, get_work_id_count, from_hw, to_hw,
}

-- The counts that `MidstateCount::new` lets through.
pub midstate_count_log2 :
    (k : ℕ) (c : MidstateCount) → midstate_count k ≡ ok c → (c.log2 ≤ 2) × (to_count c ≡ k)
unfolding midstate_count
midstate_count_log2 k c e = ground arith

split_bounds : (b x : ℕ) → b ≤ 2 → x < 65536 → (x / 2 ^ b < 65536 / 2 ^ b) × (x % 2 ^ b < 2 ^ b)
split_bounds zero x h lt = (omega arith, omega arith)
split_bounds (suc zero) x h lt = (omega arith, omega arith)
split_bounds (suc (suc zero)) x h lt = (omega arith, omega arith)
split_bounds (suc (suc (suc b))) x h lt = absurd (omega arith)

-- The number that a work id and an index below the count make up, and how it comes apart.
joined :
    (b w i : ℕ)
    → b ≤ 2
    → w < 65536 / 2 ^ b
    → i < 2 ^ b
    → (w * 2 ^ b + i < 65536) × ((w * 2 ^ b + i) / 2 ^ b ≡ w) × ((w * 2 ^ b + i) % 2 ^ b ≡ i)
joined zero w i h lw li = (omega arith, omega arith, omega arith)
joined (suc zero) w i h lw li = (omega arith, omega arith, omega arith)
joined (suc (suc zero)) w i h lw li = (omega arith, omega arith, omega arith)
joined (suc (suc (suc b))) w i h lw li = absurd (omega arith)

or_joined :
    (b w i : ℕ) → b ≤ 2 → w < 65536 / 2 ^ b → i < 2 ^ b → bit_or (w * 2 ^ b) i ≡ w * 2 ^ b + i
or_joined b w i h lw li =
    let (small, high, low) = joined b w i h lw li in
    rw (high, low) at (or_mask b (w * 2 ^ b + i) h small)

-- Any 16 bits from the FPGA core, taken apart, make up the same 16 bits again, for every count of
-- midstates that the hardware supports.
pub to_hw-from_hw :
    (k : ℕ) (c : MidstateCount) (x : ℕ)
    → midstate_count k ≡ ok c
    → x < 65536
    → (from_hw c x >>= to_hw c) ≡ ok x
unfolding from_hw to_hw
to_hw-from_hw k c x e lt =
    let valid = (midstate_count_log2 k c e).0 in
    let (high, low) = split_bounds c.log2 x valid lt in
    rw (lt→ltb x 65536 lt) (
      rw (and_mask c.log2 x valid lt) (
        rw (lt→ltb _ _ high)
          (rw (lt→ltb _ _ low) (rw (or_mask c.log2 x valid lt) (ap ok (omega arith))))))

-- A work id and a midstate index below their bounds survive the way to the FPGA core and back.
pub from_hw-to_hw :
    (c : MidstateCount) (w : ExtWorkId)
    → c.log2 ≤ 2
    → w.work_id < get_work_id_count c
    → w.midstate_idx < to_count c
    → (to_hw c w >>= from_hw c) ≡ ok w
unfolding from_hw to_hw
from_hw-to_hw c w valid lw li =
    let (small, high, low) = joined c.log2 w.work_id w.midstate_idx valid lw li in
    let whole = w.work_id * 2 ^ c.log2 + w.midstate_idx in
    let kept : whole % 2 ^ 32 ≡ whole = omega arith in
    rw (lt→ltb _ _ lw) (
      rw (lt→ltb _ _ li) (
        rw (or_joined c.log2 w.work_id w.midstate_idx valid lw li, kept)
          (rw (lt→ltb whole 65536 small) (rw (and_mask c.log2 whole valid small, high, low)))))

-- For every count of midstates that the hardware supports, every id that a registry with as many
-- slots as there are work ids gives to work, with any index of a midstate, fits the 16 bits of the
-- FPGA core and is read back from them.
pub from_hw-to_hw-store_all :
    {W : Type 0} (k : ℕ) (c : MidstateCount) (ws : List (W × Bool)) (i m : ℕ)
    → midstate_count k ≡ ok c
    → i < length ws
    → m < k
    → (ids : List ℕ) × (r : WorkRegistry W) × (store_all (new (get_work_id_count c)) ws
        ≡ ok (ids, r))
      × (id : ℕ) × (get_elem? ids i ≡ some id)
      × ((to_hw c (record { work_id = id; midstate_idx = m }) >>= from_hw c)
          ≡ ok (record { work_id = id; midstate_idx = m }))
from_hw-to_hw-store_all k c ws i m e lt idx =
    let (valid, count) = midstate_count_log2 k c e in
    let n = get_work_id_count c in
    let pos : 0 < n = omega (arith, (split_bounds c.log2 0 valid (omega arith)).0) in
    let (ids, r, run, places, answers) = find_work-store_all n ws pos in
    (
      ids,
      r,
      run,
      i % n,
      places i lt,
      from_hw-to_hw c (record { work_id = i % n; midstate_idx = m }) valid (mod-lt i pos)
          (rw count idx),
    )
