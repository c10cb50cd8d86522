-- ===== src/Stratum/Types/Tests.antt =====
-- A text at the limit of its type.
use bic_os.Base.{ℕ, Bool, true, List, replicate}

abbrev any_text : List ℕ → Bool
any_text s = true

abbrev longest : List ℕ
longest = replicate 32 97
