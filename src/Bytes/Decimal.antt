-- ===== src/Bytes/Decimal.antt =====
-- Numbers in strconv's decimal notation.
pub mod Written
use platform_agent.Prelude.{
  ℕ, zero, suc, ◌+◌, ◌-◌, ◌*◌, ◌/◌, ◌%◌, ◌++◌, List, [], ◌∷◌, ◌==◌, if◌then◌else◌,
}
use platform_agent.Prelude.Int.{ℤ, pos, negsuc}
use platform_agent.Bytes.{Bytes}

-- At most `fuel` digits.
unfoldable pub digits : ℕ → ℕ → Bytes
digits zero n = []
digits (suc fuel) n =
    let front = digits fuel (n / 10) in (if n / 10 == 0 then [] else front) ++ ((48 + n % 10) ∷ [])

-- A 64-bit number has at most 20 digits.
unfoldable pub format_int : ℤ → Bytes
format_int (pos n) = digits 20 n
format_int (negsuc n) = b'-' ∷ digits 20 (suc n)

unfoldable pub decimal_from : ℕ → Bytes → ℕ
decimal_from acc [] = acc
decimal_from acc (c ∷ s) = decimal_from (acc * 10 + (c - 48)) s
