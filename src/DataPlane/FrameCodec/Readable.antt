-- ===== src/DataPlane/FrameCodec/Readable.antt =====
-- On a frame with all of its rows and pixels no read leaves the pixels, so a candidate encodes or the
-- PNG encoder refuses it.
use native.Mathlib.Nat.{mul_comm, add-mul}
use platform_agent.Prelude.{
  ℕ, zero, suc, ◌+◌, ◌-◌, ◌*◌, ◌^◌, ◌≤◌, ◌<◌, ◌≡◌, ◌⊎◌, inl, inr, refl, sym, ap, ◌∙◌, subst, true,
  false, length, length-take, take, min, ltb, leb, arith, Result, err, ok,
}
use platform_agent.Prelude.Int.{pos, pos_part, mul64, mul64_pos}
use platform_agent.Bytes.{Bytes}
use platform_agent.DataPlane.FrameCodec.{
  RawFrame, png_encode, is_readable, encode_png, png_result, clone_raw_frame,
  apply_frame_processors, BoundedPngEncoder, encode_candidate, rgba_rows,
}
use platform_agent.DataPlane.FrameCodec.Valid.{IsFrame}

not_below : (a b : ℕ) → b ≤ a → ltb (a + 0) (b + 0) ≡ false
not_below a b h = ground arith

at_most : (a b : ℕ) → a ≤ b → leb a b ≡ true
at_most a b h = ground arith

last_row : (h st w4 : ℕ) → 0 < h → w4 ≤ st → (h - 1) * st + w4 ≤ h * st
last_row zero st w4 p q = absurd (omega arith)
last_row (suc h) st w4 p q =
    let before : suc h - 1 ≡ h = omega arith in
    omega (arith, q, add-mul h 1 st, ap (λ n. n * st) before)

pub is_readable-IsFrame : (f : RawFrame) (w h st : ℕ) → IsFrame f w h st → is_readable f ≡ true
unfolding is_readable
is_readable-IsFrame f w h st c =
    let last = last_row h st (w * 4) c.shaped.tall c.padded in
    rw
      (
        c.shaped.width_is,
        c.shaped.height_is,
        c.stride_is,
        at_most ((h - 1) * st + w * 4) (length f.pixels) (omega (arith, last, c.filled)),
      )
      (ground arith)

area_bound : (f : RawFrame) (w h st : ℕ) → IsFrame f w h st → st * h < 2 ^ 63
area_bound f w h st c = omega (arith, mul_comm st h, c.filled, c.held)

product : (f : RawFrame) (w h st : ℕ) → IsFrame f w h st → mul64 f.stride f.height ≡ pos (st * h)
product f w h st c = rw (c.stride_is, c.shaped.height_is) (mul64_pos st h (area_bound f w h st c))

cut_length :
    (f : RawFrame) (w h st : ℕ)
    → IsFrame f w h st
    → length (take (pos_part (mul64 f.stride f.height)) f.pixels) ≡ h * st
cut_length f w h st c =
    ap (λ n. length (take (pos_part n) f.pixels)) (product f w h st c)
    ∙ length-take (st * h) f.pixels
    ∙ least (st * h) (length f.pixels) (omega (arith, mul_comm st h, c.filled))
    ∙ mul_comm st h
  where
    least : (a b : ℕ) → a ≤ b → min a b ≡ a
    least a b q = omega arith

clone-IsFrame : (f : RawFrame) (w h st : ℕ) → IsFrame f w h st → IsFrame (clone_raw_frame f) w h st
unfolding clone_raw_frame
clone-IsFrame f w h st c = record {
  shaped = record {
    width_is = c.shaped.width_is;
    height_is = c.shaped.height_is;
    wide = c.shaped.wide;
    tall = c.shaped.tall;
    narrow = c.shaped.narrow;
    low = c.shaped.low;
  };
  stride_is = c.stride_is;
  padded = c.padded;
  filled = omega (arith, cut_length f w h st c);
  held = omega (arith, cut_length f w h st c, c.filled, c.held);
}

-- The processors leave a frame with all of its rows and pixels such a frame of the same measures.
abbrev pub Keeps : BoundedPngEncoder → Type 0
Keeps e =
    (g : RawFrame) (w h st : ℕ)
    → IsFrame g w h st
    → IsFrame (apply_frame_processors g e.processors) w h st

-- The candidate encodes, or the PNG encoder refuses it.
abbrev pub Encodes : BoundedPngEncoder → RawFrame → Type 0
Encodes e f =
    ((payload : Bytes) × (encode_candidate e f ≡ ok payload))
    ⊎ ((n : ℕ) × (encode_candidate e f ≡ err (png_encode n)))

module _ (e : BoundedPngEncoder) (keeps : Keeps e) where
  result-cases :
      (x : Result ℕ Bytes)
      → ((payload : Bytes) × (png_result x ≡ ok payload))
        ⊎ ((n : ℕ) × (png_result x ≡ err (png_encode n)))
  unfolding png_result
  result-cases (ok payload) = inl (payload, refl)
  result-cases (err n) = inr (n, refl)

  abbrev processed : RawFrame → RawFrame
  processed f = apply_frame_processors (clone_raw_frame f) e.processors

  abbrev png_of : RawFrame → Result ℕ Bytes
  png_of g = e.enc g.width g.height (rgba_rows g 0 (pos_part g.height))

  encoded :
      (f : RawFrame) (w h st : ℕ)
      → IsFrame f w h st
      → encode_candidate e f ≡ png_result (png_of (processed f))
  unfolding encode_candidate encode_png
  encoded f w h st c =
      let readable : is_readable (processed f) ≡ true =
        is_readable-IsFrame (processed f) w h st
          (keeps (clone_raw_frame f) w h st (clone-IsFrame f w h st c)) in
      let within : st * h ≤ length f.pixels = omega (arith, mul_comm st h, c.filled) in
      rw
        (
          encode_candidate,
          product f w h st c,
          not_below (st * h) 0 (omega arith),
          not_below (length f.pixels) (st * h) within,
          readable,
          encode_png,
        )
        refl

  pub encode_candidate-Encodes : (f : RawFrame) (w h st : ℕ) → IsFrame f w h st → Encodes e f
  encode_candidate-Encodes f w h st c =
      subst (λ r. ((payload : Bytes) × (r ≡ ok payload)) ⊎ ((n : ℕ) × (r ≡ err (png_encode n))))
        (sym (encoded f w h st c)) (result-cases (png_of (processed f)))
