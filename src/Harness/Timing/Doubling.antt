-- ===== src/Harness/Timing/Doubling.antt =====
-- The backoff after a run of failures, in closed form.
use native.Mathlib.Nat.{pow-suc, mul_assoc, mul-le-mul_left}
use platform_agent.Prelude.{ℕ, zero, suc, ◌*◌, ◌≤◌, ◌<◌, ◌^◌, ◌≡◌, sym, ap, ◌∙◌, arith, min}
use platform_agent.Prelude.Int.{ℤ, pos, mul64, mul64_pos}
use platform_agent.Harness.Timing.{next_backoff}

-- The backoff that `n` failures in a row leave.
pub backoff_after : ℕ → ℤ → ℤ → ℤ → ℤ
backoff_after zero cur lo hi = cur
backoff_after (suc n) cur lo hi = next_backoff (backoff_after n cur lo hi) lo hi

next_backoff-min :
    (cur lo hi : ℕ)
    → lo ≤ cur
    → cur ≤ hi
    → hi < 2 ^ 62
    → next_backoff (pos cur) (pos lo) (pos hi) ≡ pos (min (cur * 2) hi)
unfolding next_backoff
next_backoff-min cur lo hi l k h =
    let doubled : mul64 (pos cur) (pos 2) ≡ pos (cur * 2) = mul64_pos cur 2 (omega arith) in
    ground (arith, doubled)

one_le_pow : (n : ℕ) → 1 ≤ 2 ^ n
one_le_pow zero = omega arith
one_le_pow (suc n) = omega (arith, pow-suc 2 n, one_le_pow n)

least_le : (lo n : ℕ) → lo ≤ lo * 2 ^ n
least_le lo n = omega (arith, mul-le-mul_left lo (one_le_pow n))

twice : (lo n : ℕ) → lo * 2 ^ suc n ≡ lo * 2 ^ n * 2
twice lo n = rw (pow-suc 2 n) (sym (mul_assoc lo (2 ^ n) 2))

cut_twice : (p hi : ℕ) → min (min p hi * 2) hi ≡ min (p * 2) hi
cut_twice p hi = omega arith

-- From the least delay, `n` failed streams in a row leave a backoff of that delay times 2^n, cut at the
-- greatest delay, for bounds in order and below 2^62 nanoseconds.
pub backoff_after-doubles :
    (lo hi n : ℕ)
    → lo ≤ hi
    → hi < 2 ^ 62
    → backoff_after n (pos lo) (pos lo) (pos hi) ≡ pos (min (lo * 2 ^ n) hi)
unfolding backoff_after
backoff_after-doubles lo hi zero l h = ap pos (omega arith)
backoff_after-doubles lo hi (suc n) l h =
    rw (backoff_after-doubles lo hi n l h, twice lo n)
      (next_backoff-min (min (lo * 2 ^ n) hi) lo hi (omega (arith, least_le lo n, l)) (omega arith)
          h
        ∙ ap pos (cut_twice (lo * 2 ^ n) hi))
