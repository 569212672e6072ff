-- ===== src/Bytes/Decimal/Written.antt =====
-- What the decimal notation of a number looks like, and that it reads back.
use platform_agent.Prelude.{
  ℕ, zero, suc, ◌+◌, ◌-◌, ◌*◌, ◌/◌, ◌%◌, ◌^◌, ◌≤◌, ◌<◌, ◌≡◌, refl, ap, ◌∙◌, subst, true, ◌++◌, [],
  ◌∷◌, ◌==◌, if◌then◌else◌, arith, All, All-append, Bool-cases, inl, inr, length, length-append,
}
use native.Mathlib.Nat.{pow-succ'}
use platform_agent.Bytes.{Bytes}
use platform_agent.Bytes.Decimal.{digits, decimal_from}

abbrev pub IsDigit : ℕ → Type 0
IsDigit c = (48 ≤ c) × (c ≤ 57)

decimal_from-append :
    (acc : ℕ) (s t : Bytes) → decimal_from acc (s ++ t) ≡ decimal_from (decimal_from acc s) t
unfolding decimal_from
decimal_from-append acc [] t = refl
decimal_from-append acc (c ∷ s) t = decimal_from-append (acc * 10 + (c - 48)) s t

short : (n : ℕ) → (n / 10 == 0) ≡ true → 0 * 10 + ((48 + n % 10) - 48) ≡ n
short n h = ground arith

joined : (n : ℕ) → (n / 10) * 10 + ((48 + n % 10) - 48) ≡ n
joined n = omega arith

less_tenth : (n p : ℕ) → n < 10 * p → n / 10 < p
less_tenth n p h = omega arith

tenth : (k n : ℕ) → n < 10 ^ suc k → n / 10 < 10 ^ k
tenth k n h = less_tenth n (10 ^ k) (subst (λ q. n < q) (pow-succ' 10 k) h)

pub decimal_from-digits : (k n : ℕ) → n < 10 ^ k → decimal_from 0 (digits k n) ≡ n
unfolding digits decimal_from
decimal_from-digits zero n h = omega arith
decimal_from-digits (suc k) n h = elim (Bool-cases (n / 10 == 0)) [
  | inl e ↦ rw e (short n e)
  | inr e ↦ rw e (
      decimal_from-append 0 (digits k (n / 10)) ((48 + n % 10) ∷ [])
      ∙ ap (λ a. a * 10 + ((48 + n % 10) - 48)) (decimal_from-digits k (n / 10) (tenth k n h))
      ∙ joined n)
]

pub digits-IsDigit : (k n : ℕ) → All IsDigit (digits k n)
unfolding digits
digits-IsDigit zero n = tt
digits-IsDigit (suc k) n = elim (Bool-cases (n / 10 == 0)) [
  | inl e ↦ rw e ((omega arith, omega arith), tt)
  | inr e ↦ rw e (
      All-append IsDigit (digits k (n / 10)) _ (digits-IsDigit k (n / 10))
        ((omega arith, omega arith), tt))
]

one_digit : (n : ℕ) → n < 10 → (n / 10 == 0) ≡ true
one_digit n h = ground arith

more_digit : (l j : ℕ) → l ≤ suc j → l + 1 ≤ suc (suc j)
more_digit l j h = omega arith

pub length-digits : (k j n : ℕ) → n < 10 ^ suc j → length (digits k n) ≤ suc j
unfolding digits
length-digits zero j n h = omega arith
length-digits (suc k) zero n h = rw (one_digit n h) (omega arith)
length-digits (suc k) (suc j) n h = elim (Bool-cases (n / 10 == 0)) [
  | inl e ↦ rw e (omega arith)
  | inr e ↦
      rw (e, length-append (digits k (n / 10)) ((48 + n % 10) ∷ []))
        (more_digit _ j (length-digits k j (n / 10) (tenth (suc j) n h)))
]

pub digits_nonempty : (k n : ℕ) → 1 ≤ length (digits (suc k) n)
unfolding digits
digits_nonempty k n =
    rw (length-append (if n / 10 == 0 then [] else digits k (n / 10)) ((48 + n % 10) ∷ []))
      (omega arith)
