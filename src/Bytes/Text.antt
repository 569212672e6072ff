-- ===== src/Bytes/Text.antt =====
-- Quoted texts as byte strings, and tests and maps on ASCII bytes.
pub mod Split
pub mod Trim
use Prim.Native.Char.{Char, code}
use Prim.Native.String
use platform_agent.Prelude.{
  ℕ, suc, ◌+◌, ◌-◌, Bool, true, false, ◌&&◌, ◌||◌, String, List, [], ◌∷◌, leb, ltb, ◌==◌,
  if◌then◌else◌, arith, ◌≡◌, refl, length,
}

-- The bytes of an ASCII text.
abbrev pub codes : String → List ℕ
codes String.[] = []
codes (String.◌∷◌ c s) = code c ∷ codes s

unfoldable pub is_upper : ℕ → Bool
is_upper c = leb b'A' c && leb c b'Z'

unfoldable pub is_lower : ℕ → Bool
is_lower c = leb b'a' c && leb c b'z'

unfoldable pub is_digit : ℕ → Bool
is_digit c = leb b'0' c && leb c b'9'

-- strings.TrimSpace of ASCII text cuts these at both ends.
unfoldable pub is_space : ℕ → Bool
is_space c = (leb 9 c && leb c 13) || c == 32

module _ (cut : ℕ → Bool) where
  unfoldable pub trim_left : List ℕ → List ℕ
  trim_left [] = []
  trim_left (c ∷ s) = let rest = trim_left s in if cut c then rest else c ∷ s

  -- What is left of `s` when its tail has been trimmed.
  put_before : ℕ → List ℕ → List ℕ
  put_before c [] = if cut c then [] else c ∷ []
  put_before c (d ∷ s) = c ∷ d ∷ s

  unfoldable pub trim_right : List ℕ → List ℕ
  unfolding put_before
  trim_right [] = []
  trim_right (c ∷ s) = put_before c (trim_right s)

  unfoldable pub trim : List ℕ → List ℕ
  unfolding trim_left trim_right
  trim s = trim_right (trim_left s)

-- strings.Split at a one-byte separator: always at least one part.
push_head : ℕ → List (List ℕ) → List (List ℕ)
push_head c [] = (c ∷ []) ∷ []
push_head c (p ∷ ps) = (c ∷ p) ∷ ps

unfoldable pub split : ℕ → List ℕ → List (List ℕ)
unfolding push_head
split sep [] = [] ∷ []
split sep (c ∷ s) = let rest = split sep s in if c == sep then [] ∷ rest else push_head c rest

unfoldable pub ascii_lower_byte : ℕ → ℕ
unfolding is_upper
ascii_lower_byte c = if is_upper c then c + 32 else c

unfoldable pub is_ascii : List ℕ → Bool
is_ascii [] = true
is_ascii (c ∷ s) = ltb c 0x80 && is_ascii s
