-- ===== src/DataPlane/FrameCodec/Valid.antt =====
-- A halved frame is again a frame with all of its rows and pixels.
use platform_agent.Prelude.{
  ℕ, zero, suc, ◌+◌, ◌*◌, ◌/◌, ◌^◌, ◌≤◌, ◌<◌, ◌≡◌, refl, ap, ◌∙◌, false, none, length,
  length-append, ltb, leb, arith,
}
use native.Mathlib.Nat.{mul-le-mul, mul_comm}
use platform_agent.Prelude.Int.{
  pos, pos_part, mul64, mul64_pos, add64, quo64, add64_pos, quo64_half,
}
use platform_agent.DataPlane.FrameCodec.{
  RawFrame, validate_raw_frame, half_scale_raw_frame, half_row, half_rows, half_pixel,
}

length-half_row : (f : RawFrame) (dy dx n : ℕ) → length (half_row f dy dx n) ≡ n * 4
unfolding half_row half_pixel
length-half_row f dy dx zero = omega arith
length-half_row f dy dx (suc n) = omega (arith, length-half_row f dy (suc dx) n)

length-half_rows : (f : RawFrame) (dy n m : ℕ) → length (half_rows f dy n m) ≡ m * (n * 4)
unfolding half_rows
length-half_rows f dy n zero = omega arith
length-half_rows f dy n (suc m) =
    length-append (half_row f dy 0 n) (half_rows f (suc dy) n m)
    ∙ omega (arith, length-half_row f dy 0 n, length-half_rows f (suc dy) n m)

-- Sides that are positive and shorter than the longest slice.
pub record IsShaped (f : RawFrame) (across down : ℕ) : Type 0 where
  pub width_is : f.width ≡ pos across
  pub height_is : f.height ≡ pos down
  pub wide : 0 < across
  pub tall : 0 < down
  pub narrow : across + 1 < 2 ^ 63
  pub low : down + 1 < 2 ^ 63

halved : (n : ℕ) → n + 1 < 2 ^ 63 → quo64 (add64 (pos n) (pos 1)) 2 ≡ pos ((n + 1) / 2)
halved n h = rw (add64_pos n 1 h) (quo64_half (n + 1))

pub half-IsShaped :
    (f : RawFrame) (w h : ℕ)
    → IsShaped f w h
    → IsShaped (half_scale_raw_frame f) ((w + 1) / 2) ((h + 1) / 2)
unfolding half_scale_raw_frame
half-IsShaped f w h s = record {
  width_is = rw s.width_is (halved w s.narrow);
  height_is = rw s.height_is (halved h s.low);
  wide = omega (arith, s.wide);
  tall = omega (arith, s.tall);
  narrow = omega (arith, s.narrow);
  low = omega (arith, s.low);
}

-- A frame that is what the checks ask of it in exact arithmetic.
pub record IsFrame (f : RawFrame) (w h st : ℕ) : Type 0 where
  pub shaped : IsShaped f w h
  pub stride_is : f.stride ≡ pos st
  pub padded : w * 4 ≤ st
  pub filled : h * st ≤ length f.pixels
  pub held : length f.pixels < 2 ^ 63

at_most : (n : ℕ) → 0 < n → (n + 1) / 2 ≤ n
at_most n h = omega arith

not_below : (a b : ℕ) → b ≤ a → ltb (a + 0) (b + 0) ≡ false
not_below a b h = ground arith

positive : (a : ℕ) → 0 < a → leb (a + 0) 0 ≡ false
positive a h = ground arith

-- Such a frame passes the checks.
pub validate_raw_frame-IsFrame :
    (f : RawFrame) (w h st : ℕ) → IsFrame f w h st → validate_raw_frame f ≡ none
unfolding validate_raw_frame
validate_raw_frame-IsFrame f w h st c =
    let area : st * h < 2 ^ 63 = omega (arith, mul_comm st h, c.filled, c.held) in
    let row : w * 4 < 2 ^ 63 = omega (arith, mul-le-mul c.shaped.tall c.padded, c.filled, c.held) in
    rw
      (
        c.shaped.width_is,
        c.shaped.height_is,
        c.stride_is,
        mul64_pos w 4 row,
        mul64_pos st h area,
        positive w c.shaped.wide,
        positive h c.shaped.tall,
        not_below st (w * 4) c.padded,
        not_below (length f.pixels) (st * h) (omega (arith, mul_comm st h, c.filled)),
      )
      refl

module _ (f : RawFrame) (w h st : ℕ) (c : IsFrame f w h st) where
  abbrev half_width : ℕ
  half_width = (w + 1) / 2

  abbrev half_height : ℕ
  half_height = (h + 1) / 2

  half_shape : IsShaped (half_scale_raw_frame f) half_width half_height
  half_shape = half-IsShaped f w h c.shaped

  area_bound : half_height * (half_width * 4) < 2 ^ 63
  area_bound =
      let smaller : half_height * (half_width * 4) ≤ h * st =
        mul-le-mul (at_most h c.shaped.tall) (omega (arith, at_most w c.shaped.wide, c.padded)) in
      omega (arith, smaller, c.filled, c.held)

  half_row_bound : half_width * 4 < 2 ^ 63
  half_row_bound = omega (
    arith,
    mul-le-mul half_shape.tall (at_most w c.shaped.wide),
    at_most w c.shaped.wide,
    c.padded,
    mul-le-mul c.shaped.tall c.padded,
    c.filled,
    c.held,
  )

  half_stride : (half_scale_raw_frame f).stride ≡ pos (half_width * 4)
  unfolding half_scale_raw_frame
  half_stride =
      ap (λ x. mul64 x (pos 4)) half_shape.width_is ∙ mul64_pos half_width 4 half_row_bound

  half_length : length (half_scale_raw_frame f).pixels ≡ half_height * (half_width * 4)
  unfolding half_scale_raw_frame
  half_length =
      length-half_rows f 0 _ _
      ∙ ap (λ x. pos_part (half_scale_raw_frame f).height * (pos_part x * 4)) half_shape.width_is
      ∙ ap (λ x. pos_part x * (half_width * 4)) half_shape.height_is

  -- Halving a frame whose rows and pixels are all there gives a frame of half the width and half the
  -- height, both rounded up, with no padding and with all of its rows and pixels: whatever the first
  -- frame was, each further candidate can be read to its last byte.
  pub half_scale_raw_frame-IsFrame :
      IsFrame (half_scale_raw_frame f) ((w + 1) / 2) ((h + 1) / 2) (((w + 1) / 2) * 4)
  half_scale_raw_frame-IsFrame = record {
    shaped = half_shape;
    stride_is = half_stride;
    padded = omega arith;
    filled = omega (arith, half_length);
    held = omega (arith, half_length, area_bound);
  }
