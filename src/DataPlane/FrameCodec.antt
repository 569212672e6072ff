-- ===== src/DataPlane/FrameCodec.antt =====
-- internal/remotebridge/dataplane/framecodec.go: raw frames, their halving, and the encoder that stays
-- within a payload budget. The PNG encoder of the standard library is a parameter.
pub mod Halved
pub mod Bounded
pub mod Valid
pub mod Readable
use platform_agent.Prelude.{
  ℕ, zero, suc, not, ◌-◌, ◌==◌, ◌+◌, ◌*◌, ◌/◌, Bool, true, false, ◌&&◌, ◌||◌, Option, none, some,
  List, [], ◌∷◌, ◌++◌, length, take, get_or, leb, ltb, if◌then◌else◌, Result, err, ok,
}
use platform_agent.Prelude.Int.{ℤ, pos, pos_part, leb_ℤ, ltb_ℤ, add64, mul64, quo64, equal_ℤ}
use platform_agent.Bytes.{Bytes}

abbrev pub screen_frame_payload_budget : ℕ
screen_frame_payload_budget = 240 * 1024

-- Rows from the top, four bytes for a pixel: blue, green, red, alpha.
pub record RawFrame : Type 0 where
  pub width : ℤ
  pub height : ℤ
  pub stride : ℤ
  pub pixels : Bytes

-- `out_of_range` is Go's run-time panic, on a read behind the last pixel or an image of a size that
-- cannot be. The spare capacity of a slice counts as behind it.
pub data CodecError : Type 0 where
  frame_payload_budget invalid_dims short_stride short_buffer out_of_range : CodecError
  png_encode : ℕ → CodecError

unfoldable pub validate_raw_frame : RawFrame → Option CodecError
validate_raw_frame f =
    if leb_ℤ f.width (pos 0) || leb_ℤ f.height (pos 0)
    then some invalid_dims
    else if ltb_ℤ f.stride (mul64 f.width (pos 4))
    then some short_stride
    else if ltb_ℤ (pos (length f.pixels)) (mul64 f.stride f.height)
    then some short_buffer
    else none

unfoldable pub clone_raw_frame : RawFrame → RawFrame
clone_raw_frame f = record f { pixels = take (pos_part (mul64 f.stride f.height)) f.pixels }

-- The offsets of the pixels of a 2x2 box that lie within the frame.
box_row : RawFrame → ℕ → ℕ → List ℕ
box_row f sy sx = if ltb sx (pos_part f.width) then (sy * pos_part f.stride + sx * 4) ∷ [] else []

box_rows : RawFrame → ℕ → ℕ → List ℕ
unfolding box_row
box_rows f sy dx =
    if ltb sy (pos_part f.height) then box_row f sy (dx * 2) ++ box_row f sy (dx * 2 + 1) else []

unfoldable pub box : RawFrame → ℕ → ℕ → List ℕ
unfolding box_rows
box f dy dx = box_rows f (dy * 2) dx ++ box_rows f (dy * 2 + 1) dx

unfoldable pub channel_sum : Bytes → ℕ → List ℕ → ℕ
channel_sum pixels channel [] = 0
channel_sum pixels channel (i ∷ is) = get_or pixels (i + channel) 0 + channel_sum pixels channel is

-- The box holds at least one pixel.
unfoldable pub mean : Bytes → List ℕ → ℕ → ℕ
mean pixels is channel = channel_sum pixels channel is / length is

unfoldable pub half_pixel : RawFrame → ℕ → ℕ → Bytes
half_pixel f dy dx =
    let is = box f dy dx in
    mean f.pixels is 0 ∷ mean f.pixels is 1 ∷ mean f.pixels is 2 ∷ mean f.pixels is 3 ∷ []

-- `n` pixels of a row, from `dx` on, and `m` rows of `n` pixels, from `dy` on.
unfoldable pub half_row : RawFrame → ℕ → ℕ → ℕ → Bytes
half_row f dy dx zero = []
half_row f dy dx (suc n) = half_pixel f dy dx ++ half_row f dy (suc dx) n

unfoldable pub half_rows : RawFrame → ℕ → ℕ → ℕ → Bytes
half_rows f dy n zero = []
half_rows f dy n (suc m) = half_row f dy 0 n ++ half_rows f (suc dy) n m

unfoldable pub half_scale_raw_frame : RawFrame → RawFrame
half_scale_raw_frame f =
    let w = quo64 (add64 f.width (pos 1)) 2 in
    let h = quo64 (add64 f.height (pos 1)) 2 in
    record {
      width = w;
      height = h;
      stride = mul64 w (pos 4);
      pixels = half_rows f 0 (pos_part w) (pos_part h);
    }

-- Blue and red change places, and alpha is opaque.
unfoldable pub rgba_row : Bytes → ℕ → ℕ → Bytes
rgba_row pixels at zero = []
rgba_row pixels at (suc n) =
    get_or pixels (at + 2) 0
    ∷ get_or pixels (at + 1) 0
    ∷ get_or pixels at 0
    ∷ 255
    ∷ rgba_row pixels (at + 4) n

unfoldable pub rgba_rows : RawFrame → ℕ → ℕ → Bytes
rgba_rows f at zero = []
rgba_rows f at (suc m) =
    rgba_row f.pixels at (pos_part f.width) ++ rgba_rows f (at + pos_part f.stride) m

-- The reads of every row, from the first pixel to the last, stay within the pixels. The last row's go
-- furthest.
unfoldable pub is_readable : RawFrame → Bool
is_readable f =
    not (ltb_ℤ f.width (pos 0) || ltb_ℤ f.height (pos 0))
    && (pos_part f.height == 0
        || leb ((pos_part f.height - 1) * pos_part f.stride + pos_part f.width * 4)
            (length f.pixels))

abbrev pub Png : Type 0
Png = ℤ → ℤ → Bytes → Result ℕ Bytes

png_result : Result ℕ Bytes → Result CodecError Bytes
png_result (err e) = err (png_encode e)
png_result (ok payload) = ok payload

unfoldable pub encode_png : Png → RawFrame → Result CodecError Bytes
unfolding png_result
encode_png png f =
    if not (is_readable f)
    then err out_of_range
    else png_result (png f.width f.height (rgba_rows f 0 (pos_part f.height)))

-- The processors that are not nil, in order.
abbrev pub Processor : Type 0
Processor = RawFrame → RawFrame

unfoldable pub apply_frame_processors : RawFrame → List (Option Processor) → RawFrame
apply_frame_processors f [] = f
apply_frame_processors f (none ∷ procs) = apply_frame_processors f procs
apply_frame_processors f (some p ∷ procs) = apply_frame_processors (p f) procs

pub record BoundedPngEncoder : Type 0 where
  pub enc : Png
  pub max_payload_bytes : ℤ
  pub processors : List (Option Processor)

filtered : List (Option Processor) → List (Option Processor)
filtered [] = []
filtered (none ∷ procs) = filtered procs
filtered (some p ∷ procs) = some p ∷ filtered procs

unfoldable pub new_bounded_png_encoder : Png → ℤ → List (Option Processor) → BoundedPngEncoder
unfolding filtered
new_bounded_png_encoder png max procs = record {
  enc = png;
  max_payload_bytes = max;
  processors = filtered procs;
}

module _ (e : BoundedPngEncoder) where
  -- A clone slices the pixels at stride * height.
  unfoldable pub encode_candidate : RawFrame → Result CodecError Bytes
  encode_candidate f =
      if ltb_ℤ (mul64 f.stride f.height) (pos 0)
        || ltb_ℤ (pos (length f.pixels)) (mul64 f.stride f.height)
      then err out_of_range
      else encode_png e.enc (apply_frame_processors (clone_raw_frame f) e.processors)

  abbrev pub fits : Bytes → Bool
  fits payload = leb_ℤ (pos (length payload)) e.max_payload_bytes

  abbrev pub is_single : RawFrame → Bool
  is_single f = equal_ℤ f.width (pos 1) && equal_ℤ f.height (pos 1)

  after_payload :
      RawFrame → Option (Result CodecError Bytes) → Bytes → Option (Result CodecError Bytes)
  after_payload f smaller payload =
      if fits payload
      then some (ok payload)
      else if is_single f
      then some (err frame_payload_budget)
      else if not (is_readable f)
      then some (err out_of_range)
      else smaller

  -- One turn of the loop; `none` when the fuel has run out.
  unfoldable pub encode_from : ℕ → RawFrame → Option (Result CodecError Bytes)
  unfolding after_payload
  encode_from zero f = none
  encode_from (suc fuel) f =
      let smaller = encode_from fuel (half_scale_raw_frame f) in
      elim (encode_candidate f) [
        | err x ↦ some (err x)
        | ok payload ↦ after_payload f smaller payload
      ]

  -- 64 turns: a side of an int64 length is 1 after at most 63 halvings.
  unfoldable pub encode : RawFrame → Option (Result CodecError Bytes)
  encode f =
      if leb_ℤ e.max_payload_bytes (pos 0)
      then some (err frame_payload_budget)
      else elim (validate_raw_frame f) [ some x ↦ some (err x) | none ↦ encode_from 64 f ]
