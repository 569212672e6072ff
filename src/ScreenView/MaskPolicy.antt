-- ===== src/ScreenView/MaskPolicy.antt =====
-- internal/remotebridge/screenview/mask_policy.go: the screen mask as an operator writes it, in basis
-- points of the monitor, and its scaling to the pixels of a frame.
pub mod Canonical
pub mod Scaled
pub mod Applied
use platform_agent.Prelude.{
  ℕ, ◌-◌, Bool, true, false, not, ◌&&◌, ◌||◌, List, [], ◌∷◌, ◌++◌, length, ◌==◌, leb, ltb,
  if◌then◌else◌, Result, err, ok, ◌>>=◌, ◌>>◌, require,
}
use platform_agent.Prelude.Int.{ℤ, pos, leb_ℤ, ltb_ℤ, add64, sub64, mul64, quo64, rem64}
use platform_agent.DataPlane.FrameCodec.{RawFrame}
use platform_agent.DataPlane.Exfil.{Colour, mask_rect}
use platform_agent.Bytes.{Bytes}
use platform_agent.Bytes.Text.{split, is_digit}
use platform_agent.Bytes.Decimal.{format_int, decimal_from}

abbrev pub mask_basis_points : ℕ
mask_basis_points = 10000

abbrev pub max_mask_policy_text_bytes : ℕ
max_mask_policy_text_bytes = 23

pub record MaskPolicy : Type 0 where
  pub x : ℤ
  pub y : ℤ
  pub width : ℤ
  pub height : ℤ

abbrev pub no_mask : MaskPolicy
no_mask = record { x = pos 0; y = pos 0; width = pos 0; height = pos 0 }

unfoldable pub enabled : MaskPolicy → Bool
enabled p = ltb_ℤ (pos 0) p.width && ltb_ℤ (pos 0) p.height

unfoldable pub string : MaskPolicy → Bytes
string p =
    if not (enabled p)
    then []
    else format_int p.x
      ++ (b',' ∷ (format_int p.y ++ (b',' ∷ (format_int p.width ++ (b',' ∷ format_int p.height)))))

pub data MaskError : Type 0 where
  too_long not_canonical not_four no_size out_of_monitor : MaskError
  field_out_of_range : ℕ → MaskError

all_digits : Bytes → Bool
all_digits [] = true
all_digits (c ∷ s) = is_digit c && all_digits s

-- The regular expression's `[0-9]{1,5}`.
unfoldable pub is_field : Bytes → Bool
unfolding all_digits
is_field s = (leb 1 (length s) && leb (length s) 5) && all_digits s

four_fields : List Bytes → Bool
four_fields (a ∷ b ∷ c ∷ d ∷ []) = is_field a && (is_field b && (is_field c && is_field d))
four_fields _ = false

-- Four such fields with a comma between two.
unfoldable pub canonical_mask_policy : Bytes → Bool
unfolding four_fields
canonical_mask_policy raw = four_fields (split b',' raw)

-- strconv.Atoi takes every field of digits that the expression lets through.
unfoldable pub read_field : ℕ → Bytes → Result MaskError ℤ
read_field i part =
    require (leb (decimal_from 0 part) mask_basis_points) (field_out_of_range i)
    >> ok (pos (decimal_from 0 part))

within_monitor : MaskPolicy → Bool
within_monitor p =
    leb_ℤ (add64 p.x p.width) (pos mask_basis_points)
    && leb_ℤ (add64 p.y p.height) (pos mask_basis_points)

has_size : MaskPolicy → Bool
has_size p =
    not (leb_ℤ p.width (pos 0) && leb_ℤ (pos 0) p.width)
    && not (leb_ℤ p.height (pos 0) && leb_ℤ (pos 0) p.height)

unfoldable pub policy_of : MaskPolicy → Result MaskError MaskPolicy
unfolding within_monitor has_size
policy_of p = require (has_size p) no_size >> require (within_monitor p) out_of_monitor >> ok p

unfoldable pub read_fields : List Bytes → Result MaskError MaskPolicy
read_fields (a ∷ b ∷ c ∷ d ∷ []) = read_field 1 a >>= λ x. read_field 2 b >>= λ y.
    read_field 3 c >>= λ w.
    read_field 4 d >>= λ h. policy_of (record { x = x; y = y; width = w; height = h })
read_fields _ = err not_four

unfoldable pub parse_mask_policy : Bytes → Result MaskError MaskPolicy
parse_mask_policy raw =
    if length raw == 0
    then ok no_mask
    else require (leb (length raw) max_mask_policy_text_bytes) too_long
      >> require (canonical_mask_policy raw) not_canonical
      >> read_fields (split b',' raw)

unfoldable pub scale_basis_points : ℤ → ℤ → Bool → ℤ
scale_basis_points total basis_points round_up =
    let whole = quo64 total mask_basis_points in
    let scaled = mul64 (rem64 total mask_basis_points) basis_points in
    let raised =
      if round_up && ltb_ℤ (pos 0) scaled
      then add64 scaled (pos (mask_basis_points - 1))
      else scaled in
    add64 (mul64 whole basis_points) (quo64 raised mask_basis_points)

abbrev pub black : Colour
black = record { blue = 0; green = 0; red = 0; alpha = 255 }

-- From one scaled edge to the other, where there is something between them.
unfoldable pub apply_scaled : RawFrame → ℤ → ℤ → ℤ → ℤ → RawFrame
apply_scaled f x x_end y y_end =
    if leb_ℤ x_end x || leb_ℤ y_end y
    then f
    else mask_rect f x y (sub64 x_end x) (sub64 y_end y) black

unfoldable pub apply : MaskPolicy → RawFrame → RawFrame
apply p f =
    if not (enabled p) || (leb_ℤ f.width (pos 0) || leb_ℤ f.height (pos 0))
    then f
    else apply_scaled f (scale_basis_points f.width p.x false)
        (scale_basis_points f.width (add64 p.x p.width) true)
        (scale_basis_points f.height p.y false)
        (scale_basis_points f.height (add64 p.y p.height) true)
