-- ===== src/Antminer/Pll.antt =====
-- `PllReg` and `PllFrequency` of open/bosminer/bosminer-am1-s9/src/bm1387.rs. A `usize` has 32 bits,
-- as on the board. The binary search of the standard library is a parameter.
pub mod Loops
pub mod Table
pub mod Best
pub mod Order
pub mod Search
pub mod Lookup
mod Tests
use bic_os.Base.{
  ℕ, zero, suc, ◌+◌, ◌-◌, ◌*◌, ◌/◌, ◌%◌, ◌^◌, Bool, true, false, ◌||◌, Option, none, some, List, [],
  ◌∷◌, length, get_elem?, set, replicate, Result, ok, err, ◌>>=◌, ◌>>◌, guard, leb, ltb, ◌==◌,
  if◌then◌else◌,
}

pub data Panic : Type 0 where
  division_by_zero index_out_of_bounds : Panic

pub record PllReg : Type 0 where
  pub fbdiv : ℕ
  pub refdiv : ℕ
  pub postdiv1 : ℕ
  pub postdiv2 : ℕ

pub record PllFrequency : Type 0 where
  pub frequency : ℕ
  pub reg : PllReg

unfoldable pub divide : ℕ → ℕ → Result Panic ℕ
divide a b = if b == 0 then err division_by_zero else ok (a / b)

unfoldable pub calc : PllReg → ℕ → Result Panic ℕ
calc reg xtal_freq = do
  by_refdiv ← divide (xtal_freq * reg.fbdiv % 2 ^ 64) reg.refdiv
  by_postdiv1 ← divide by_refdiv reg.postdiv1
  by_postdiv2 ← divide by_postdiv1 reg.postdiv2
  ok (by_postdiv2 % 2 ^ 32)

unfoldable pub distance : ℕ → ℕ → ℕ
distance x y = if leb y x then x - y else y - x

abbrev pub bin_size_hz : ℕ
bin_size_hz = 1000000

abbrev pub min_mhz : ℕ
min_mhz = 100000000 / bin_size_hz

abbrev pub max_mhz : ℕ
max_mhz = 1200000000 / bin_size_hz

-- To the nearest MHz.
unfoldable pub bin_of : ℕ → ℕ
bin_of frequency = (frequency + 500000) % 2 ^ 32 / bin_size_hz

-- Whether the divider that a bin holds is as good.
unfoldable pub as_good : ℕ → Option PllFrequency → ℕ → Bool
as_good bin_freq none frequency = false
as_good bin_freq (some old) frequency =
    leb (distance bin_freq old.frequency) (distance bin_freq frequency)

abbrev pub Bins : Type 0
Bins = List (Option PllFrequency)

-- The bin that was looked up, and the new divider for it.
unfoldable pub improve_bin :
    Bins → ℕ → Option (Option PllFrequency) → PllFrequency → Result Panic Bins
improve_bin bins bin_no none new = err index_out_of_bounds
improve_bin bins bin_no (some bin) new =
    if as_good (bin_no * bin_size_hz) bin new.frequency
    then ok bins
    else ok (set bins bin_no (some new))

-- `continue` if the frequency is out of range.
unfoldable pub improve_unless : Bool → Bins → ℕ → PllFrequency → Result Panic Bins
improve_unless true bins bin_no new = ok bins
improve_unless false bins bin_no new = improve_bin bins bin_no (get_elem? bins bin_no) new

-- The body of the loops.
unfoldable pub improve : ℕ → Bins → PllReg → Result Panic Bins
improve xtal_freq bins reg = do
  frequency ← calc reg xtal_freq
  let bin_no = bin_of frequency
  improve_unless (ltb bin_no min_mhz || ltb max_mhz bin_no) bins bin_no
      (record { frequency = frequency; reg = reg })

-- `for i in first..first + n`.
unfoldable pub for_range : {S : Type 0} → ℕ → ℕ → (ℕ → S → Result Panic S) → S → Result Panic S
for_range first zero body state = ok state
for_range first (suc n) body state = do next ← body first state; for_range (suc first) n body next

abbrev pub divider : ℕ → ℕ → ℕ → ℕ → PllReg
divider postdiv1 refdiv postdiv2 fbdiv = record {
  fbdiv = fbdiv;
  refdiv = refdiv;
  postdiv1 = postdiv1;
  postdiv2 = postdiv2;
}

abbrev pub all_fbdivs : ℕ → ℕ → ℕ → ℕ → Bins → Result Panic Bins
all_fbdivs xtal_freq postdiv1 refdiv postdiv2 =
    for_range 32 96 λ fbdiv bins. improve xtal_freq bins (divider postdiv1 refdiv postdiv2 fbdiv)

abbrev pub all_postdivs2 : ℕ → ℕ → ℕ → Bins → Result Panic Bins
all_postdivs2 xtal_freq postdiv1 refdiv =
    for_range 1 postdiv1 λ postdiv2. all_fbdivs xtal_freq postdiv1 refdiv postdiv2

abbrev pub all_refdivs : ℕ → ℕ → Bins → Result Panic Bins
all_refdivs xtal_freq postdiv1 = for_range 1 63 λ refdiv. all_postdivs2 xtal_freq postdiv1 refdiv

unfoldable pub all_dividers : ℕ → Bins → Result Panic Bins
all_dividers xtal_freq = for_range 1 7 λ postdiv1. all_refdivs xtal_freq postdiv1

unfoldable pub filled : Bins → List PllFrequency
filled [] = []
filled (none ∷ bins) = filled bins
filled (some pll ∷ bins) = pll ∷ filled bins

unfoldable pub precompute_pll_table : ℕ → Result Panic (List PllFrequency)
precompute_pll_table xtal_freq = do
  bins ← all_dividers xtal_freq (replicate (max_mhz + 1) none)
  ok (filled bins)

-- What the binary search returns: the index of a match, or where one could be inserted.
pub data Found : Type 0 where
  found insert : ℕ → Found

pub data LookupError : Type 0 where
  out_of_range index_panic : LookupError

unfoldable pub index : {E A : Type 0} → E → Option A → Result E A
index panic none = err panic
index panic (some a) = ok a

unfoldable pub closer : PllFrequency → PllFrequency → ℕ → PllFrequency
closer low high target_freq =
    if leb (distance low.frequency target_freq) (distance high.frequency target_freq)
    then low
    else high

unfoldable pub pick : List PllFrequency → ℕ → Found → Result LookupError PllFrequency
pick plls target_freq (found i) = index index_panic (get_elem? plls i)
pick plls target_freq (insert i) = if i == 0 || leb (length plls) i then err out_of_range else do
  low ← index index_panic (get_elem? plls (i - 1))
  high ← index index_panic (get_elem? plls i)
  ok (closer low high target_freq)

-- The frequencies of the table in the place of the keys.
unfoldable pub lookup_freq :
    (List PllFrequency → ℕ → Found) → List PllFrequency → ℕ → Result LookupError PllFrequency
lookup_freq binary_search plls target_freq = pick plls target_freq (binary_search plls target_freq)
