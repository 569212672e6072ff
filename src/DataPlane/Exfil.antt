-- ===== src/DataPlane/Exfil.antt =====
-- internal/remotebridge/dataplane/exfil.go: what is drawn over a frame before it is encoded. The frame
-- that the code is handed is never nil here.
pub mod Painted
pub mod Masked
use platform_agent.Prelude.{
  ℕ, zero, suc, ◌+◌, ◌*◌, Bool, true, false, not, ◌&&◌, ◌||◌, List, [], ◌∷◌, length, if◌then◌else◌,
}
use platform_agent.Prelude.Int.{ℤ, pos, pos_part, leb_ℤ, ltb_ℤ, add64, sub64, mul64}
use platform_agent.Bytes.{Bytes}
use platform_agent.DataPlane.FrameCodec.{RawFrame}

unfoldable pub frame_writable : RawFrame → Bool
frame_writable f =
    (ltb_ℤ (pos 0) f.width && ltb_ℤ (pos 0) f.height)
    && (leb_ℤ (mul64 f.width (pos 4)) f.stride
        && leb_ℤ (mul64 f.stride f.height) (pos (length f.pixels)))

pub record Colour : Type 0 where
  pub blue : ℕ
  pub green : ℕ
  pub red : ℕ
  pub alpha : ℕ

-- `pixels[i] = v`; the callers stay within the pixels.
abbrev pub set : Bytes → ℕ → ℕ → Bytes
set [] i v = []
set (x ∷ xs) zero v = v ∷ xs
set (x ∷ xs) (suc i) v = x ∷ set xs i v

unfoldable pub put_pixel : Bytes → Colour → ℕ → Bytes
put_pixel pixels c at =
    set (set (set (set pixels at c.blue) (at + 1) c.green) (at + 2) c.red) (at + 3) c.alpha

-- `n` pixels of a row, and `m` rows of them.
unfoldable pub paint_row : Bytes → Colour → ℕ → ℕ → Bytes
paint_row pixels c at zero = pixels
paint_row pixels c at (suc n) = paint_row (put_pixel pixels c at) c (at + 4) n

unfoldable pub paint_rows : Bytes → Colour → ℕ → ℕ → ℕ → ℕ → Bytes
paint_rows pixels c st at n zero = pixels
paint_rows pixels c st at n (suc m) = paint_rows (paint_row pixels c at n) c st (at + st) n m

unfoldable pub apply_active_indicator : RawFrame → ℤ → Colour → RawFrame
apply_active_indicator f band_height c =
    if not (frame_writable f) || leb_ℤ band_height (pos 0)
    then f
    else let band = if ltb_ℤ f.height band_height then f.height else band_height in
      record f {
        pixels = paint_rows f.pixels c (pos_part f.stride) 0 (pos_part f.width) (pos_part band);
      }

-- A start and a length on one axis: what lies before the frame is cut off.
abbrev pub Span : Type 0
Span = ℤ × ℤ

unfoldable pub cut_front : Span → Span
cut_front (start, size) = if ltb_ℤ start (pos 0) then (pos 0, add64 size start) else (start, size)

unfoldable pub cut_back : ℤ → Span → ℤ
cut_back side (start, size) = if ltb_ℤ side (add64 start size) then sub64 side start else size

unfoldable pub paint_spans : RawFrame → Colour → Span → Span → RawFrame
unfolding cut_back
paint_spans f c (x, w) (y, h) =
    if (leb_ℤ f.width x || leb_ℤ f.height y) || (leb_ℤ w (pos 0) || leb_ℤ h (pos 0))
    then f
    else record f {
      pixels =
          paint_rows f.pixels c (pos_part f.stride)
            (pos_part y * pos_part f.stride + pos_part x * 4) (pos_part (cut_back f.width (x, w)))
            (pos_part (cut_back f.height (y, h)));
    }

unfoldable pub mask_rect : RawFrame → ℤ → ℤ → ℤ → ℤ → Colour → RawFrame
unfolding cut_front paint_spans
mask_rect f x y w h c =
    if not (frame_writable f) || (leb_ℤ w (pos 0) || leb_ℤ h (pos 0))
    then f
    else paint_spans f c (cut_front (x, w)) (cut_front (y, h))
