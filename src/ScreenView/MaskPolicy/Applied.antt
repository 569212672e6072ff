-- ===== src/ScreenView/MaskPolicy/Applied.antt =====
-- A mask over a frame: the pixels that it touches are black, and no other is changed.
use platform_agent.Prelude.{
  ℕ, ◌+◌, ◌-◌, ◌*◌, ◌/◌, ◌^◌, ◌≤◌, ◌<◌, ◌≡◌, ◌⊎◌, inl, inr, refl, ap, ◌∙◌, true, false, get_or,
  arith, leb, lt→ltb,
}
use native.Mathlib.Nat.{mul-add, mul-le-mul_left}
use platform_agent.Prelude.Int.{pos, add64, add64_pos, sub64, sub64_pos}
use platform_agent.DataPlane.FrameCodec.{RawFrame}
use platform_agent.DataPlane.FrameCodec.Valid.{IsFrame}
use platform_agent.DataPlane.Exfil.{mask_rect}
use platform_agent.DataPlane.Exfil.Painted.{channel}
use platform_agent.DataPlane.Exfil.Masked.{mask_rect-same, mask_rect-other}
use platform_agent.ScreenView.MaskPolicy.{
  MaskPolicy, enabled, scale_basis_points, black, apply_scaled, apply,
}
use platform_agent.ScreenView.MaskPolicy.Canonical.{IsMask}
use platform_agent.ScreenView.MaskPolicy.Scaled.{scale_basis_points-rounded}

above : (a b : ℕ) → a < b → leb (b + 0) (a + 0) ≡ false
above a b h = ground arith

-- One axis of a mask: `t` pixels, of which the mask takes those from the share `x` on, `w` wide.
module _ (t x w : ℕ) (some_t : 0 < t) (in_range : t + 1 < 2 ^ 63) (wide : 0 < w)
    (fits : x + w ≤ 10000) where
  abbrev pub low : ℕ
  low = (t * x) / 10000

  abbrev pub high : ℕ
  high = (t * (x + w) + 9999) / 10000

  pub starts : scale_basis_points (pos t) (pos x) false ≡ pos low
  starts = scale_basis_points-rounded t x (omega arith) (omega arith) false

  pub stops : scale_basis_points (pos t) (add64 (pos x) (pos w)) true ≡ pos high
  stops =
      rw (add64_pos x w (omega arith))
        (scale_basis_points-rounded t (x + w) (omega arith) fits true)

  pub low_high : low < high
  low_high =
      let more : t * 1 ≤ t * w = mul-le-mul_left t wide in
      omega (arith, mul-add t x w, more, some_t)

  pub high_most : high ≤ t
  high_most = let most : t * (x + w) ≤ t * 10000 = mul-le-mul_left t fits in omega (arith, most)

  -- The mask touches a pixel of the axis.
  abbrev pub Touches : ℕ → Type 0
  Touches i = (t * x < (i + 1) * 10000) × (i * 10000 < t * (x + w))

  pub between : (i : ℕ) → Touches i → (low ≤ i) × (i < high)
  between i h = (omega (arith, h.0), omega (arith, h.1))

  pub beside :
      (i : ℕ) → ((i + 1) * 10000 ≤ t * x) ⊎ (t * (x + w) ≤ i * 10000) → (i < low) ⊎ (high ≤ i)
  beside i h = omega (arith, h)

module _ (p : MaskPolicy) (m : IsMask p) (f : RawFrame) (w h st : ℕ) (is : IsFrame f w h st) where
  abbrev x0 : ℕ
  x0 = low w m.x m.width is.shaped.wide is.shaped.narrow m.wide m.across

  abbrev x1 : ℕ
  x1 = high w m.x m.width is.shaped.wide is.shaped.narrow m.wide m.across

  abbrev y0 : ℕ
  y0 = low h m.y m.height is.shaped.tall is.shaped.low m.tall m.down

  abbrev y1 : ℕ
  y1 = high h m.y m.height is.shaped.tall is.shaped.low m.tall m.down

  x0_x1 : x0 < x1
  x0_x1 = low_high w m.x m.width is.shaped.wide is.shaped.narrow m.wide m.across

  y0_y1 : y0 < y1
  y0_y1 = low_high h m.y m.height is.shaped.tall is.shaped.low m.tall m.down

  x1_w : x1 ≤ w
  x1_w = high_most w m.x m.width is.shaped.wide is.shaped.narrow m.wide m.across

  y1_h : y1 ≤ h
  y1_h = high_most h m.y m.height is.shaped.tall is.shaped.low m.tall m.down

  x_size : sub64 (pos x1) (pos x0) ≡ pos (x1 - x0)
  x_size = sub64_pos x1 x0 (omega (arith, x1_w, is.shaped.narrow)) (omega (arith, x0_x1))

  y_size : sub64 (pos y1) (pos y0) ≡ pos (y1 - y0)
  y_size = sub64_pos y1 y0 (omega (arith, y1_h, is.shaped.low)) (omega (arith, y0_y1))

  applied :
      (apply p f).pixels
      ≡ (mask_rect f (pos x0) (pos y0) (pos (x1 - x0)) (pos (y1 - y0)) black).pixels
  unfolding apply apply_scaled enabled
  applied =
      ap (λ q. (apply q f).pixels) m.made
      ∙ rw
          (
            apply,
            apply_scaled,
            enabled,
            lt→ltb 0 (m.width + 0) (omega (arith, m.wide)),
            lt→ltb 0 (m.height + 0) (omega (arith, m.tall)),
            is.shaped.width_is,
            is.shaped.height_is,
            above 0 w is.shaped.wide,
            above 0 h is.shaped.tall,
            starts w m.x m.width is.shaped.wide is.shaped.narrow m.wide m.across,
            stops w m.x m.width is.shaped.wide is.shaped.narrow m.wide m.across,
            starts h m.y m.height is.shaped.tall is.shaped.low m.tall m.down,
            stops h m.y m.height is.shaped.tall is.shaped.low m.tall m.down,
            above x0 x1 x0_x1,
            above y0 y1 y0_y1,
            x_size,
            y_size,
          )
          refl

  inside : (a b i : ℕ) → a < b → i < b → i < a + (b - a)
  inside a b i h k = omega arith

  over : (a b t : ℕ) → a < b → b ≤ t → a + (b - a) ≤ t
  over a b t h k = omega arith

  past : (a b i : ℕ) → a < b → (i < a) ⊎ (b ≤ i) → (i < a) ⊎ (a + (b - a) ≤ i)
  past a b i h k = omega arith

  room : (a b : ℕ) → a < b → 0 < b - a
  room a b h = omega arith

  -- For a mask with a size that lies within the monitor, and a frame with all of its rows and pixels,
  -- every pixel that the mask touches, in part or in whole, is black and opaque.
  pub apply-same :
      (px py k : ℕ)
      → w * m.x < (px + 1) * 10000
      → px * 10000 < w * (m.x + m.width)
      → h * m.y < (py + 1) * 10000
      → py * 10000 < h * (m.y + m.height)
      → k < 4
      → get_or (apply p f).pixels (py * st + px * 4 + k) 0 ≡ channel black k
  apply-same px py k a b d e l =
      let (left, right) =
        between w m.x m.width is.shaped.wide is.shaped.narrow m.wide m.across px (a, b) in
      let (top, bottom) =
        between h m.y m.height is.shaped.tall is.shaped.low m.tall m.down py (d, e) in
      ap (λ bytes. get_or bytes (py * st + px * 4 + k) 0) applied
      ∙ mask_rect-same f w h st is black x0 y0 (x1 - x0) (y1 - y0) (over x0 x1 w x0_x1 x1_w)
          (over y0 y1 h y0_y1 y1_h) (room x0 x1 x0_x1) (room y0 y1 y0_y1) px py k left
          (inside x0 x1 px x0_x1 right) top (inside y0 y1 py y0_y1 bottom) l

  -- For a mask with a size that lies within the monitor, and a frame with all of its rows and
  -- pixels, no pixel that the mask does not touch is changed.
  pub apply-other :
      (px py k : ℕ)
      → px < w
      → (((px + 1) * 10000 ≤ w * m.x) ⊎ (w * (m.x + m.width) ≤ px * 10000))
        ⊎ (((py + 1) * 10000 ≤ h * m.y) ⊎ (h * (m.y + m.height) ≤ py * 10000))
      → k < 4
      → get_or (apply p f).pixels (py * st + px * 4 + k) 0
        ≡ get_or f.pixels (py * st + px * 4 + k) 0
  apply-other px py k in_row out l =
      ap (λ bytes. get_or bytes (py * st + px * 4 + k) 0) applied
      ∙ mask_rect-other f w h st is black x0 y0 (x1 - x0) (y1 - y0) (over x0 x1 w x0_x1 x1_w)
          (over y0 y1 h y0_y1 y1_h) (room x0 x1 x0_x1) (room y0 y1 y0_y1) px py k in_row
          (beyond out) l
    where
      Out : Type 0
      Out = (px < x0) ⊎ ((x0 + (x1 - x0) ≤ px) ⊎ ((py < y0) ⊎ (y0 + (y1 - y0) ≤ py)))

      beyond :
          (((px + 1) * 10000 ≤ w * m.x) ⊎ (w * (m.x + m.width) ≤ px * 10000))
            ⊎ (((py + 1) * 10000 ≤ h * m.y) ⊎ (h * (m.y + m.height) ≤ py * 10000))
          → Out
      beyond (inl q) =
          elim (past x0 x1 px x0_x1
            (beside w m.x m.width is.shaped.wide is.shaped.narrow m.wide m.across px q)) [
              | inl r ↦ inl r
              | inr r ↦ inr (inl r)
            ]
      beyond (inr q) = inr (
          inr (
            past y0 y1 py y0_y1
              (beside h m.y m.height is.shaped.tall is.shaped.low m.tall m.down py q)))
