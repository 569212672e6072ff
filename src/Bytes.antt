-- ===== src/Bytes.antt =====
-- Go's byte strings and byte slices as lists of numbers, their equality, ASCII tests and
-- encoding/binary's big-endian words.
pub mod Decimal
pub mod Text
pub mod Trim
pub mod Hex
pub mod BigEndian
use platform_agent.Prelude.{
  ℕ, suc, zero, ◌<◌, ◌≡◌, ◌≢◌, ◌↔◌, refl, ap, Bool, true, false, ◌&&◌, List, [], ◌∷◌, ◌++◌, arith,
  ◌==◌, Bool-cases, ◌⊎◌, inl, inr, length, All,
}

abbrev pub Bytes : Type 0
Bytes = List ℕ

-- Every element fits a byte.
abbrev pub IsBytes : Bytes → Type 0
IsBytes = All (λ b. b < 256)

-- `a == b` on strings, bytes.Equal on slices.
unfoldable pub beq : Bytes → Bytes → Bool
beq [] [] = true
beq [] (y ∷ ys) = false
beq (x ∷ xs) [] = false
beq (x ∷ xs) (y ∷ ys) = x == y && beq xs ys

pub beq_refl : (xs : Bytes) → beq xs xs ≡ true
unfolding beq
beq_refl [] = refl
beq_refl (x ∷ xs) = ground (arith, beq_refl xs)

pub eq_of_beq : (xs ys : Bytes) → beq xs ys ≡ true → xs ≡ ys
unfolding beq
eq_of_beq [] [] h = refl
eq_of_beq [] (y ∷ ys) h = cc
eq_of_beq (x ∷ xs) [] h = cc
eq_of_beq (x ∷ xs) (y ∷ ys) h = ground (arith, eq_of_beq xs ys)

pub beq_iff : (xs ys : Bytes) → (beq xs ys ≡ true) ↔ (xs ≡ ys)
beq_iff xs ys = (eq_of_beq xs ys, λ e. subst_beq e)
  where
    subst_beq : xs ≡ ys → beq xs ys ≡ true
    subst_beq e = rw e (beq_refl ys)

pub beq_differs : (a b : Bytes) → a ≢ b → beq a b ≡ false
beq_differs a b h = elim (Bool-cases (beq a b)) [
  | inl same ↦ absurd (h (eq_of_beq a b same))
  | inr other ↦ other
]
