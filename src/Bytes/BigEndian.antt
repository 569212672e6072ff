-- ===== src/Bytes/BigEndian.antt =====
-- encoding/binary.BigEndian: PutUint16/32/64 and Uint16/32.
use platform_agent.Prelude.{ℕ, ◌+◌, ◌*◌, ◌/◌, ◌%◌, ◌^◌, ◌<◌, ◌≡◌, List, [], ◌∷◌, arith}

abbrev pub be16 : ℕ → List ℕ
be16 n = (n / 256 % 256) ∷ (n % 256) ∷ []

abbrev pub be32 : ℕ → List ℕ
be32 n = (n / 2 ^ 24 % 256) ∷ (n / 2 ^ 16 % 256) ∷ (n / 256 % 256) ∷ (n % 256) ∷ []

abbrev pub be64 : ℕ → List ℕ
be64 n =
    (n / 2 ^ 56 % 256)
    ∷ (n / 2 ^ 48 % 256)
    ∷ (n / 2 ^ 40 % 256)
    ∷ (n / 2 ^ 32 % 256)
    ∷ (n / 2 ^ 24 % 256)
    ∷ (n / 2 ^ 16 % 256)
    ∷ (n / 256 % 256)
    ∷ (n % 256)
    ∷ []

-- The number that two, or four, bytes stand for.
abbrev pub word16 : ℕ → ℕ → ℕ
word16 a b = a * 256 + b

abbrev pub word32 : ℕ → ℕ → ℕ → ℕ → ℕ
word32 a b c d = a * 2 ^ 24 + b * 2 ^ 16 + c * 256 + d

pub word16-be16 : (n : ℕ) → word16 (n / 256 % 256) (n % 256) ≡ n % 65536
word16-be16 n = omega arith

pub word32-be32 :
    (n : ℕ) → word32 (n / 2 ^ 24 % 256) (n / 2 ^ 16 % 256) (n / 256 % 256) (n % 256) ≡ n % 2 ^ 32
word32-be32 n = omega arith

pub word16_lt : (a b : ℕ) → a < 256 → b < 256 → word16 a b < 65536
word16_lt a b h k = omega arith

pub be16-word16 :
    (a b : ℕ) → a < 256 → b < 256 → (word16 a b / 256 % 256 ≡ a) × (word16 a b % 256 ≡ b)
be16-word16 a b h k = omega arith

pub be32_injective :
    (m n : ℕ)
    → m < 2 ^ 32
    → n < 2 ^ 32
    → m / 2 ^ 24 % 256 ≡ n / 2 ^ 24 % 256
    → m / 2 ^ 16 % 256 ≡ n / 2 ^ 16 % 256
    → m / 256 % 256 ≡ n / 256 % 256
    → m % 256 ≡ n % 256
    → m ≡ n
be32_injective m n h k p q r s = omega arith
