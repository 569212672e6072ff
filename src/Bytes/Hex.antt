-- ===== src/Bytes/Hex.antt =====
-- encoding/hex.EncodeToString.
use platform_agent.Prelude.{
  ℕ, ◌+◌, ◌-◌, ◌/◌, ◌%◌, ◌<◌, ◌≡◌, refl, List, [], ◌∷◌, ltb, if◌then◌else◌, arith, All,
}

unfoldable pub hex_digit : ℕ → ℕ
hex_digit n = if ltb n 10 then b'0' + n else b'a' + (n - 10)

unfoldable pub hex_encode : List ℕ → List ℕ
unfolding hex_digit
hex_encode [] = []
hex_encode (b ∷ s) = hex_digit (b / 16) ∷ hex_digit (b % 16) ∷ hex_encode s

byte_of_digits :
    (a b : ℕ)
    → a < 256
    → b < 256
    → hex_digit (a / 16) ≡ hex_digit (b / 16)
    → hex_digit (a % 16) ≡ hex_digit (b % 16)
    → a ≡ b
unfolding hex_digit
byte_of_digits a b h k p q = ground arith

-- Different bytes are written differently.
pub hex_encode_injective :
    (s t : List ℕ)
    → All (λ b. b < 256) s
    → All (λ b. b < 256) t
    → hex_encode s ≡ hex_encode t
    → s ≡ t
unfolding hex_encode
hex_encode_injective [] [] h k e = refl
hex_encode_injective [] (y ∷ t) h k e = cc
hex_encode_injective (x ∷ s) [] h k e = cc
hex_encode_injective (x ∷ s) (y ∷ t) h k e =
    ground (arith, byte_of_digits x y h.0 k.0, hex_encode_injective s t h.1 k.1)
