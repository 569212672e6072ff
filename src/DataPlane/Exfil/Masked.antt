-- ===== src/DataPlane/Exfil/Masked.antt =====
-- A mask within a frame: what mask_rect does to the frame's pixels.
use platform_agent.Prelude.{
  ℕ, suc, ◌+◌, ◌-◌, ◌*◌, ◌^◌, ◌≤◌, ◌<◌, ◌≡◌, ◌⊎◌, inl, inr, refl, ap, ◌∙◌, true, false, length,
  get_or, arith, leb, ltb,
}
use native.Mathlib.Nat.{mul-le-mul, mul-le-mul_right, mul_comm, add-mul}
use platform_agent.Prelude.Int.{pos, mul64_pos, add64_pos}
use platform_agent.DataPlane.FrameCodec.{RawFrame}
use platform_agent.DataPlane.FrameCodec.Valid.{IsFrame}
use platform_agent.DataPlane.Exfil.{
  Colour, frame_writable, paint_rows, mask_rect, cut_front, cut_back, paint_spans,
}
use platform_agent.DataPlane.Exfil.Painted.{channel, paint_rows-same, paint_rows-other}

above : (a b : ℕ) → a < b → leb (b + 0) (a + 0) ≡ false
above a b h = ground arith

at_least : (a b : ℕ) → a ≤ b → leb (a + 0) (b + 0) ≡ true
at_least a b h = ground arith

below : (a b : ℕ) → a < b → ltb (a + 0) (b + 0) ≡ true
below a b h = ground arith

not_above : (a b : ℕ) → b ≤ a → ltb (a + 0) (b + 0) ≡ false
not_above a b h = ground arith

trichotomy : (a b : ℕ) → (a < b) ⊎ ((a ≡ b) ⊎ (b < a))
trichotomy a b = omega arith

module _ (f : RawFrame) (w h st : ℕ) (is : IsFrame f w h st) (c : Colour) where
  writable : frame_writable f ≡ true
  unfolding frame_writable
  writable =
      let area : st * h < 2 ^ 63 = omega (arith, mul_comm st h, is.filled, is.held) in
      let row : w * 4 < 2 ^ 63 =
        omega (arith, mul-le-mul is.shaped.tall is.padded, is.filled, is.held) in
      rw
        (
          is.shaped.width_is,
          is.shaped.height_is,
          is.stride_is,
          mul64_pos w 4 row,
          mul64_pos st h area,
          below 0 w is.shaped.wide,
          below 0 h is.shaped.tall,
          at_least (w * 4) st is.padded,
          at_least (st * h) (length f.pixels) (omega (arith, mul_comm st h, is.filled)),
        )
        refl

  module _ (x y bw bh : ℕ) (across : x + bw ≤ w) (down : y + bh ≤ h) (wide : 0 < bw)
      (tall : 0 < bh) where
    painted :
        (mask_rect f (pos x) (pos y) (pos bw) (pos bh) c).pixels
        ≡ paint_rows f.pixels c st (y * st + x * 4) bw bh
    unfolding mask_rect cut_front paint_spans cut_back
    painted =
        let narrow = is.shaped.narrow in
        let low = is.shaped.low in
        rw
          (
            writable,
            mask_rect,
            above 0 bw wide,
            above 0 bh tall,
            not_above x 0 (omega arith),
            not_above y 0 (omega arith),
            is.shaped.width_is,
            is.shaped.height_is,
            is.stride_is,
            above x w (omega arith),
            above y h (omega arith),
            add64_pos x bw (omega arith),
            add64_pos y bh (omega arith),
            not_above w (x + bw) across,
            not_above h (y + bh) down,
            above 0 bw wide,
            above 0 bh tall,
          )
          refl

    row_in : (py : ℕ) → py < y + bh → suc py ≤ h
    row_in py e = omega (arith, down, e)

    -- Where a pixel's row starts, counted from the first painted pixel.
    place :
        (px py k : ℕ)
        → x ≤ px
        → y ≤ py
        → py * st + px * 4 + k ≡ (y * st + x * 4) + (py - y) * st + (px - x) * 4 + k
    place px py k a b = omega (arith, add-mul y (py - y) st, ap (λ n. n * st) (split y py b))
      where
        split : (u v : ℕ) → u ≤ v → v ≡ u + (v - u)
        split u v l = omega arith

    pub mask_rect-same :
        (px py k : ℕ)
        → x ≤ px
        → px < x + bw
        → y ≤ py
        → py < y + bh
        → k < 4
        → get_or (mask_rect f (pos x) (pos y) (pos bw) (pos bh) c).pixels (py * st + px * 4 + k) 0
          ≡ channel c k
    mask_rect-same px py k a b d e l =
        ap (λ p. get_or p (py * st + px * 4 + k) 0) painted
        ∙ paint_rows-same c st f.pixels (y * st + x * 4) bw bh (py - y) (px - x) k _
            (place px py k a d) (omega (arith, d, e)) (omega (arith, a, b)) l
            (omega (arith, across, is.padded))
            (omega (
              arith,
              place px py 0 a d,
              mul-le-mul_right st (row_in py e),
              is.padded,
              is.filled,
              across,
              a,
            ))

    apart :
        (px py k r : ℕ)
        → px < w
        → r < bh
        → (px < x) ⊎ ((x + bw ≤ px) ⊎ ((py < y) ⊎ (y + bh ≤ py)))
        → k < 4
        → (py * st + px * 4 + k < (y * st + x * 4) + r * st)
          ⊎ ((y * st + x * 4) + r * st + bw * 4 ≤ py * st + px * 4 + k)
    apart px py k r inside l out small = elim (trichotomy py (y + r)) [
      | inl above_it ↦
          inl
            (omega (arith, mul-le-mul_right st above_it, add-mul y r st, inside, small, is.padded))
      | inr (inl same) ↦ omega (arith, ap (λ n. n * st) same, add-mul y r st, out, l, small, same)
      | inr (inr below_it) ↦
          inr (omega (arith, mul-le-mul_right st below_it, add-mul y r st, across, is.padded))
    ]

    pub mask_rect-other :
        (px py k : ℕ)
        → px < w
        → (px < x) ⊎ ((x + bw ≤ px) ⊎ ((py < y) ⊎ (y + bh ≤ py)))
        → k < 4
        → get_or (mask_rect f (pos x) (pos y) (pos bw) (pos bh) c).pixels (py * st + px * 4 + k) 0
          ≡ get_or f.pixels (py * st + px * 4 + k) 0
    mask_rect-other px py k inside out l =
        ap (λ p. get_or p (py * st + px * 4 + k) 0) painted
        ∙ paint_rows-other c st f.pixels (y * st + x * 4) bw bh _
            (λ r l'. apart px py k r inside l' out l)
