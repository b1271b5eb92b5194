-- ===== src/Common/Display.antt =====
-- `to_string` of an unsigned integer.
use Prim.Native.Nat.{ℕ, zero, suc, ◌/◌, ◌%◌}
use Prim.Native.String.{String, ◌++◌}
use iroh_raft.Common.Tests.{ltb, if◌then◌else◌}

abbrev digit : ℕ → String
digit zero = "0"
digit (suc zero) = "1"
digit (suc (suc zero)) = "2"
digit (suc (suc (suc zero))) = "3"
digit (suc (suc (suc (suc zero)))) = "4"
digit (suc (suc (suc (suc (suc zero))))) = "5"
digit (suc (suc (suc (suc (suc (suc zero)))))) = "6"
digit (suc (suc (suc (suc (suc (suc (suc zero))))))) = "7"
digit (suc (suc (suc (suc (suc (suc (suc (suc zero)))))))) = "8"
digit _ = "9"

-- The first argument bounds the number of digits.
show_digits : ℕ → ℕ → String
show_digits zero n = ""
show_digits (suc places) n =
    let front = show_digits places (n / 10) in if ltb n 10 then digit n else front ++ digit (n % 10)

-- A 64-bit integer has at most 20 digits.
unfoldable pub show : ℕ → String
unfolding show_digits
show n = show_digits 20 n
