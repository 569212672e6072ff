-- ===== src/SelfUpdate/Version/Numeric.antt =====
-- Numeric identifiers of any length are compared as the numbers that they write.
use platform_agent.Prelude.{
  ℕ, ◌≢◌, ◌+◌, ◌*◌, ◌-◌, ◌≤◌, ◌<◌, ◌≡◌, ◌⊎◌, inl, inr, refl, sym, ap, ◌∙◌, true, false, [], ◌∷◌,
  length, arith, ◌==◌,
}
use platform_agent.Bytes.{Bytes}
use platform_agent.Bytes.Decimal.{decimal_from}
use platform_agent.SelfUpdate.Version.{
  less, equal, greater, cmp_uint, or_else, compare_bytes, compare_numeric_ident,
}

-- Digits only.
abbrev pub Digits : Bytes → Type 0
Digits [] = Unit
Digits (c ∷ s) = (48 ≤ c) × (c ≤ 57) × Digits s

-- More than one digit, and the first is not zero, or one digit.
abbrev Headed : Bytes → Type 0
Headed [] = ⊥
Headed (c ∷ []) = Unit
Headed (c ∷ d ∷ s) = 48 < c

abbrev pub IsNumeral : Bytes → Type 0
IsNumeral s = Digits s × Headed s

-- A smaller start stays smaller before no more digits.
decimal_lt :
    (s t : Bytes) (x y : ℕ)
    → Digits s
    → Digits t
    → length s ≤ length t
    → x < y
    → decimal_from x s < decimal_from y t
unfolding decimal_from
decimal_lt [] [] x y h k l lt = lt
decimal_lt [] (d ∷ t) x y h k l lt =
    decimal_lt [] t x (y * 10 + (d - 48)) tt k.2 (omega arith) (omega arith)
decimal_lt (c ∷ s) [] x y h k l lt = absurd (omega arith)
decimal_lt (c ∷ s) (d ∷ t) x y h k l lt =
    decimal_lt s t (x * 10 + (c - 48)) (y * 10 + (d - 48)) h.2 k.2 (omega arith)
      (omega (arith, h.0, h.1, k.0, lt))

cmp_uint_less : (a b : ℕ) → a < b → cmp_uint a b ≡ less
unfolding cmp_uint
cmp_uint_less a b h = ground arith

cmp_uint_greater : (a b : ℕ) → b < a → cmp_uint a b ≡ greater
unfolding cmp_uint
cmp_uint_greater a b h = ground arith

cmp_uint_equal : (a b : ℕ) → a ≡ b → cmp_uint a b ≡ equal
unfolding cmp_uint
cmp_uint_equal a b h = ground arith

trichotomy : (a b : ℕ) → (a < b) ⊎ ((a ≡ b) ⊎ (b < a))
trichotomy a b = omega arith

-- Two strings of as many digits compare as the numbers that they write.
compare_bytes-decimal :
    (s t : Bytes) (x : ℕ)
    → Digits s
    → Digits t
    → length s ≡ length t
    → compare_bytes s t ≡ cmp_uint (decimal_from x s) (decimal_from x t)
unfolding compare_bytes decimal_from or_else
compare_bytes-decimal [] [] x h k l = sym (cmp_uint_equal x x refl)
compare_bytes-decimal [] (d ∷ t) x h k l = absurd (omega arith)
compare_bytes-decimal (c ∷ s) [] x h k l = absurd (omega arith)
compare_bytes-decimal (c ∷ s) (d ∷ t) x h k l = elim (trichotomy c d) [
  | inl lt ↦
      rw (cmp_uint_less c d lt) (
        sym (cmp_uint_less _ _ (decimal_lt s t _ _ h.2 k.2 (omega arith) (omega (arith, lt, h.0)))))
  | inr (inl e) ↦ rw (cmp_uint_equal c d e) (
      compare_bytes-decimal s t (x * 10 + (c - 48)) h.2 k.2 (omega arith)
      ∙ ap (λ y. cmp_uint (decimal_from (x * 10 + (c - 48)) s) (decimal_from (x * 10 + (y - 48)) t))
          e)
  | inr (inr gt) ↦ rw (cmp_uint_greater c d gt) (
      sym
        (cmp_uint_greater _ _ (decimal_lt t s _ _ k.2 h.2 (omega arith) (omega (arith, gt, k.0)))))
]

shorter_lt :
    (a b : Bytes)
    → IsNumeral a
    → IsNumeral b
    → length a < length b
    → decimal_from 0 a < decimal_from 0 b
unfolding decimal_from
shorter_lt [] b h k l = absurd h.1
shorter_lt (c ∷ a) [] h k l = absurd (omega arith)
shorter_lt (c ∷ a) (d ∷ []) h k l = absurd (omega arith)
shorter_lt (c ∷ a) (d ∷ e ∷ b) h k l =
    decimal_lt (c ∷ a) (e ∷ b) 0 (0 * 10 + (d - 48)) h.0 k.0.2 (omega arith) (omega (arith, k.1))

same : (m n : ℕ) → m ≡ n → (m == n) ≡ true
same m n h = ground arith

not_same : (m n : ℕ) → m ≢ n → (m == n) ≡ false
not_same m n h = ground arith

-- Numeric identifiers, which have no leading zeros, compare as the numbers that they write, however
-- many digits they have.
pub compare_numeric_ident-decimal :
    (a b : Bytes)
    → IsNumeral a
    → IsNumeral b
    → compare_numeric_ident a b ≡ cmp_uint (decimal_from 0 a) (decimal_from 0 b)
unfolding compare_numeric_ident
compare_numeric_ident-decimal a b h k = elim (trichotomy (length a) (length b)) [
  | inl lt ↦
      rw
        (
          not_same (length a) (length b) (omega arith),
          cmp_uint_less (length a) (length b) lt,
          cmp_uint_less _ _ (shorter_lt a b h k lt),
        )
        refl
  | inr (inl e) ↦ rw (same (length a) (length b) e) (compare_bytes-decimal a b 0 h.0 k.0 e)
  | inr (inr gt) ↦
      rw
        (
          not_same (length a) (length b) (omega arith),
          cmp_uint_greater (length a) (length b) gt,
          cmp_uint_greater _ _ (shorter_lt b a k h gt),
        )
        refl
]
