-- ===== src/DataPlane/FrameCodec/Halved.antt =====
-- The halving of a frame reads only pixels of the frame, and never takes the mean of none.
use platform_agent.Prelude.{
  ℕ, ◌+◌, ◌*◌, ◌≤◌, ◌<◌, ◌≡◌, length, length-append, ltb, ltb→lt, lt→ltb, arith, All, All-append,
  Bool-cases, inl, inr,
}
use native.Mathlib.Nat.{mul-le-mul_right}
use platform_agent.Prelude.Int.{pos}
use platform_agent.DataPlane.FrameCodec.{RawFrame, box_row, box_rows, box}

module _ (f : RawFrame) (w h st : ℕ) (width_is : f.width ≡ pos w) (height_is : f.height ≡ pos h)
    (stride_is : f.stride ≡ pos st) (padded : w * 4 ≤ st) (filled : h * st ≤ length f.pixels) where
  -- The four bytes of the pixel at this offset are in the frame.
  abbrev pub InFrame : ℕ → Type 0
  InFrame i = i + 3 < length f.pixels

  within_row : (sy sx : ℕ) → sy < h → sx < w → InFrame (sy * st + sx * 4)
  within_row sy sx a b = omega (arith, mul-le-mul_right st a, padded, filled, b)

  box_row-InFrame : (sy sx : ℕ) → sy < h → All InFrame (box_row f sy sx)
  unfolding box_row
  box_row-InFrame sy sx a =
      rw (width_is, stride_is)
        (elim (Bool-cases (ltb sx w)) [
          | inl e ↦ rw e (within_row sy sx a (ltb→lt _ _ e), tt)
          | inr e ↦ rw e tt
        ])

  box_rows-InFrame : (sy dx : ℕ) → All InFrame (box_rows f sy dx)
  unfolding box_rows
  box_rows-InFrame sy dx = rw height_is (elim (Bool-cases (ltb sy h)) [
    | inl e ↦ rw e (
        All-append InFrame (box_row f sy (dx * 2)) (box_row f sy (dx * 2 + 1))
          (box_row-InFrame sy (dx * 2) (ltb→lt _ _ e))
          (box_row-InFrame sy (dx * 2 + 1) (ltb→lt _ _ e)))
    | inr e ↦ rw e tt
  ])

  first_pixel : (sy dx : ℕ) → sy < h → dx * 2 < w → 1 ≤ length (box_rows f sy dx)
  unfolding box_rows box_row
  first_pixel sy dx a b = rw (height_is, width_is, lt→ltb _ _ a, lt→ltb _ _ b) (omega arith)

  -- On a frame whose rows and pixels are all there, each box of the halved frame holds at least one
  -- pixel, and all four bytes of each of its pixels lie within the pixels of the frame.
  pub box-InFrame :
      (dy dx : ℕ) → dy * 2 < h → dx * 2 < w → (1 ≤ length (box f dy dx)) × All InFrame (box f dy dx)
  unfolding box
  box-InFrame dy dx a b = (
    rw (length-append (box_rows f (dy * 2) dx) (box_rows f (dy * 2 + 1) dx))
        (omega (arith, first_pixel (dy * 2) dx a b)),
    All-append InFrame (box_rows f (dy * 2) dx) (box_rows f (dy * 2 + 1) dx)
        (box_rows-InFrame (dy * 2) dx) (box_rows-InFrame (dy * 2 + 1) dx),
  )
