-- ===== src/Proxy/Text.antt =====
-- Texts of open/stratum-proxy/src/translation.rs as their bytes: literals, numbers in decimals, and
-- the slice `[..32]` of an error text.
use Prim.Native.Char.{code}
use Prim.Native.String.{String}
use bic_os.Base.{
  ℕ, zero, suc, ◌+◌, ◌/◌, ◌%◌, Bool, ◌&&◌, ◌||◌, Option, none, some, List, [], ◌∷◌, ◌++◌, ltb, leb,
  length, get_elem?, take, if◌then◌else◌,
}

-- The bytes of an ASCII literal.
abbrev pub ascii : String → List ℕ
ascii String.[] = []
ascii (String.◌∷◌ c s) = code c ∷ ascii s

-- `Display` of an unsigned number, for at most as many digits as the fuel.
unfoldable pub digits : ℕ → ℕ → List ℕ
digits zero n = []
digits (suc fuel) n =
    let front = digits fuel (n / 10) in
    if ltb n 10 then (48 + n) ∷ [] else front ++ ((48 + n % 10) ∷ [])

-- A `u32` has ten digits at most.
abbrev pub decimal : ℕ → List ℕ
decimal n = digits 10 n

-- `is_char_boundary` for the byte that a slice would begin with.
abbrev pub starts_char : Option ℕ → Bool
starts_char none = Bool.true
starts_char (some b) = ltb b 128 || leb 192 b

-- `text[..32]`, which panics on a shorter text and inside of a character.
unfoldable pub first_32 : List ℕ → Option (List ℕ)
first_32 text =
    if leb 32 (length text) && starts_char (get_elem? text 32) then some (take 32 text) else none
