-- ===== src/ScreenView/MaskPolicy/Scaled.antt =====
-- The scaling of a mask against exact arithmetic, and the pixels that a scaled strip holds.
use platform_agent.Prelude.{
  ℕ, ◌+◌, ◌*◌, ◌/◌, ◌%◌, ◌^◌, ◌≤◌, ◌<◌, ◌≡◌, ◌↔◌, refl, ap, ◌∙◌, Bool, true, false, arith,
  if◌then◌else◌, ltb,
}
use native.Mathlib.Nat.{add-mul, mul-le-mul_left}
use platform_agent.Prelude.Int.{
  pos, ◌≤ℤ◌, ◌<ℤ◌, add64, mul64, quo64, rem64, add64_pos, mul64_pos, quo64_pos, rem64_pos,
}
use platform_agent.ScreenView.MaskPolicy.{scale_basis_points}

-- The share of `n` ten-thousandths, rounded up or down.
abbrev pub rounded : Bool → ℕ → ℕ
rounded true n = (n + 9999) / 10000
rounded false n = n / 10000

no_part : (n : ℕ) → ltb 0 (n + 0) ≡ false → n ≡ 0
no_part n h = ground arith

same_share : (n w p : ℕ) → n ≡ 10000 * w + p → p ≡ 0 → n / 10000 ≡ (n + 9999) / 10000
same_share n w p h k = omega arith

module _ (t bp : ℕ) where
  whole : ℕ
  whole = (t / 10000) * bp

  part : ℕ
  part = (t % 10000) * bp

  -- t is 10000 times its quotient and its remainder.
  parts : t * bp ≡ 10000 * whole + part
  unfolding whole part
  parts =
      let split : t ≡ 10000 * (t / 10000) + t % 10000 = omega arith in
      ap (λ s. s * bp) split ∙ add-mul (10000 * (t / 10000)) (t % 10000) bp ∙ omega arith

  whole_bound : bp ≤ 10000 → whole ≤ 10000 * (t / 10000)
  unfolding whole
  whole_bound k = omega (arith, mul-le-mul_left (t / 10000) k)

  part_bound : bp ≤ 10000 → part ≤ 10000 * (t % 10000)
  unfolding part
  part_bound k = omega (arith, mul-le-mul_left (t % 10000) k)

  module _ (in_range : t < 2 ^ 63) (k : bp ≤ 10000) where
    first_product : mul64 (quo64 (pos t) 10000) (pos bp) ≡ pos whole
    unfolding whole
    first_product =
        rw (quo64_pos t)
          (mul64_pos (t / 10000) bp (omega (arith, in_range, mul-le-mul_left (t / 10000) k)))

    second_product : mul64 (rem64 (pos t) 10000) (pos bp) ≡ pos part
    unfolding part
    second_product =
        rw (rem64_pos t) (mul64_pos (t % 10000) bp (omega (arith, mul-le-mul_left (t % 10000) k)))

    sum_down : add64 (pos whole) (quo64 (pos part) 10000) ≡ pos ((t * bp) / 10000)
    sum_down =
        rw (quo64_pos part, parts)
          (add64_pos whole (part / 10000) (omega (arith, in_range, whole_bound k, part_bound k))
            ∙ ap pos (omega arith))

    raise : add64 (pos part) (pos 9999) ≡ pos (part + 9999)
    raise = add64_pos part 9999 (omega (arith, part_bound k))

    sum_up : add64 (pos whole) (quo64 (pos (part + 9999)) 10000) ≡ pos ((t * bp + 9999) / 10000)
    sum_up =
        rw (quo64_pos (part + 9999), parts)
          (add64_pos whole ((part + 9999) / 10000)
              (omega (arith, in_range, whole_bound k, part_bound k))
            ∙ ap pos (omega arith))

    -- For every width or height that an int64 holds and every share up to the whole, the scaling is the
    -- exact product's share, rounded up or down as asked: no step of it wraps.
    pub scale_basis_points-rounded :
        (up : Bool) → scale_basis_points (pos t) (pos bp) up ≡ pos (rounded up (t * bp))
    unfolding scale_basis_points
    scale_basis_points-rounded false = rw (first_product, second_product) sum_down
    scale_basis_points-rounded true =
        rw (first_product, second_product) (by_test (ltb 0 (part + 0)) refl)
      where
        by_test :
            (positive : Bool)
            → ltb 0 (part + 0) ≡ positive
            → add64
                (pos whole)
                (quo64 (if ltb 0 (part + 0) then add64 (pos part) (pos 9999) else pos part) 10000)
              ≡ pos ((t * bp + 9999) / 10000)
        by_test true e = rw (e, raise) sum_up
        by_test false e =
            rw e (sum_down ∙ ap pos (same_share (t * bp) whole part parts (no_part part e)))

touched :
    (a b i : ℕ)
    → ((pos (a / 10000) ≤ℤ pos i) × (pos i <ℤ pos ((b + 9999) / 10000)))
      ↔ ((a < (i + 1) * 10000) × (i * 10000 < b))
touched a b i = (
  λ h. (omega (arith, h.0, h.1), omega (arith, h.0, h.1)),
  λ h. (omega (arith, h.0, h.1), omega (arith, h.0, h.1)),
)

-- The strip of pixels between the two scaled edges of a mask is exactly the pixels that the mask's strip
-- of the monitor touches, in part or in whole: none is left out, and none that the mask does not touch
-- is taken.
pub scale_basis_points-Touched :
    (t x w i : ℕ)
    → t < 2 ^ 63
    → x + w ≤ 10000
    → ((scale_basis_points (pos t) (pos x) false ≤ℤ pos i)
        × (pos i <ℤ scale_basis_points (pos t) (pos (x + w)) true))
      ↔ ((t * x < (i + 1) * 10000) × (i * 10000 < t * (x + w)))
scale_basis_points-Touched t x w i h k =
    rw (scale_basis_points-rounded t x h (omega arith) false)
      (rw (scale_basis_points-rounded t (x + w) h k true) (touched (t * x) (t * (x + w)) i))
