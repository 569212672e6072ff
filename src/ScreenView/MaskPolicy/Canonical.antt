-- ===== src/ScreenView/MaskPolicy/Canonical.antt =====
-- The written form of a mask: what is accepted, and that a written mask reads back.
use platform_agent.Prelude.{
  ℕ, ◌+◌, ◌^◌, ◌≤◌, ◌<◌, ◌≡◌, ◌⊎◌, inl, inr, refl, sym, ap, ◌∙◌, Bool, true, false, List, [], ◌∷◌,
  ◌++◌, length, length-append, ◌==◌, leb, lt→ltb, leb→le, arith, All, All-weaken, ok, ok_injective,
  >>=-eq-ok,
}
use platform_agent.Prelude.Int.{ℤ, pos, add64_pos}
use platform_agent.Bytes.{Bytes}
use platform_agent.Bytes.Text.{split, is_digit}
use platform_agent.Bytes.Text.Split.{Free, split-append_sep, split_self}
use platform_agent.Bytes.Decimal.{format_int, decimal_from, digits}
use platform_agent.Bytes.Decimal.Written.{
  IsDigit, decimal_from-digits, digits-IsDigit, length-digits, digits_nonempty,
}
use platform_agent.ScreenView.MaskPolicy.{
  MaskPolicy, no_mask, enabled, string, all_digits, is_field, four_fields, canonical_mask_policy,
  read_field, within_monitor, has_size, policy_of, read_fields, parse_mask_policy,
}

-- A mask with a size, whole within the monitor.
pub record IsMask (p : MaskPolicy) : Type 0 where
  pub x : ℕ
  pub y : ℕ
  pub width : ℕ
  pub height : ℕ
  pub made : p ≡ record { x = pos x; y = pos y; width = pos width; height = pos height }
  pub wide : 0 < width
  pub tall : 0 < height
  pub across : x + width ≤ 10000
  pub down : y + height ≤ 10000

field_digits : (s : Bytes) → All IsDigit s → all_digits s ≡ true
unfolding all_digits is_digit
field_digits [] h = refl
field_digits (c ∷ s) h = rw (field_digits s h.1) (let (low, high) = h.0 in ground arith)

below : (n : ℕ) → n ≤ 10000 → n < 10 ^ 5
below n h = omega arith

le→leb : (a b : ℕ) → a ≤ b → leb a b ≡ true
le→leb a b k = ground arith

module _ (n : ℕ) (h : n ≤ 10000) where
  abbrev written : Bytes
  written = digits 20 n

  written-length : (1 ≤ length written) × (length written ≤ 5)
  written-length = (digits_nonempty 19 n, length-digits 20 4 n (below n h))

  written_field : is_field written ≡ true
  unfolding is_field
  written_field =
      rw (field_digits written (digits-IsDigit 20 n))
        (let (low, high) = written-length in ground arith)

  written-Free : Free b',' written
  written-Free = All-weaken (λ c d q. omega (arith, d.0, d.1, q)) written (digits-IsDigit 20 n)

  written_value : decimal_from 0 written ≡ n
  written_value = decimal_from-digits 20 n (omega arith)

  read-written : (i : ℕ) → read_field i written ≡ ok (pos n)
  unfolding read_field
  read-written i = rw (written_value, le→leb n 10000 h) refl

nonempty : (n : ℕ) → 1 ≤ n → (n == 0) ≡ false
nonempty n h = ground arith

module _ (x y w h : ℕ) (wide : 0 < w) (tall : 0 < h) (across : x + w ≤ 10000)
    (down : y + h ≤ 10000) where
  abbrev mask : MaskPolicy
  mask = record { x = pos x; y = pos y; width = pos w; height = pos h }

  abbrev last_two : Bytes
  last_two = digits 20 w ++ b',' ∷ digits 20 h

  abbrev last_three : Bytes
  last_three = digits 20 y ++ b',' ∷ last_two

  abbrev text : Bytes
  text = digits 20 x ++ b',' ∷ last_three

  mask-text : string mask ≡ text
  unfolding string enabled format_int
  mask-text = rw (lt→ltb 0 (w + 0) (omega arith), lt→ltb 0 (h + 0) (omega arith)) refl

  from_two : split b',' last_two ≡ digits 20 w ∷ digits 20 h ∷ []
  from_two =
      split-append_sep b',' (digits 20 w) (digits 20 h) (written-Free w (omega arith))
      ∙ ap (λ fs. digits 20 w ∷ fs) (split_self b',' (digits 20 h) (written-Free h (omega arith)))

  from_three : split b',' last_three ≡ digits 20 y ∷ digits 20 w ∷ digits 20 h ∷ []
  from_three =
      split-append_sep b',' (digits 20 y) last_two (written-Free y (omega arith))
      ∙ ap (λ fs. digits 20 y ∷ fs) from_two

  fields : split b',' text ≡ digits 20 x ∷ digits 20 y ∷ digits 20 w ∷ digits 20 h ∷ []
  fields =
      split-append_sep b',' (digits 20 x) last_three (written-Free x (omega arith))
      ∙ ap (λ fs. digits 20 x ∷ fs) from_three

  text-length : (1 ≤ length text) × (length text ≤ 23)
  text-length =
      let lx = written-length x (omega arith) in
      let ly = written-length y (omega arith) in
      let lw = written-length w (omega arith) in
      let lh = written-length h (omega arith) in
      rw
        (
          length-append (digits 20 x) (b',' ∷ last_three),
          length-append (digits 20 y) (b',' ∷ last_two),
          length-append (digits 20 w) (b',' ∷ digits 20 h),
        )
        (omega (arith, lx.0), omega (arith, lx.1, ly.1, lw.1, lh.1))

  text_canonical : canonical_mask_policy text ≡ true
  unfolding canonical_mask_policy four_fields
  text_canonical =
      rw
        (
          fields,
          written_field x (omega arith),
          written_field y (omega arith),
          written_field w (omega arith),
          written_field h (omega arith),
        )
        refl

  mask_accepted : policy_of mask ≡ ok mask
  unfolding policy_of within_monitor has_size
  mask_accepted = rw (add64_pos x w (omega arith), add64_pos y h (omega arith)) (ground arith)

  text_read : read_fields (split b',' text) ≡ ok mask
  unfolding read_fields
  text_read =
      rw
        (
          fields,
          read-written x (omega arith) 1,
          read-written y (omega arith) 2,
          read-written w (omega arith) 3,
          read-written h (omega arith) 4,
        )
        mask_accepted

  text_parsed : parse_mask_policy text ≡ ok mask
  unfolding parse_mask_policy
  text_parsed =
      let (some_text, short) = text-length in
      rw (nonempty (length text) some_text, le→leb (length text) 23 short, text_canonical) text_read

-- A mask with a size that lies whole within the monitor, written out, is read back as the same mask.
pub parse_mask_policy-string : (p : MaskPolicy) → IsMask p → parse_mask_policy (string p) ≡ ok p
parse_mask_policy-string p m = rw m.made (
    ap parse_mask_policy (mask-text m.x m.y m.width m.height m.wide m.tall m.across m.down)
    ∙ text_parsed m.x m.y m.width m.height m.wide m.tall m.across m.down)

read_field-value :
    (i : ℕ) (s : Bytes) (v : ℤ) → read_field i s ≡ ok v → (n : ℕ) × (v ≡ pos n) × (n ≤ 10000)
unfolding read_field
read_field-value i s v h = by_test (leb (decimal_from 0 s) 10000) refl
  where
    by_test : (b : Bool) → leb (decimal_from 0 s) 10000 ≡ b → (n : ℕ) × (v ≡ pos n) × (n ≤ 10000)
    by_test true e = let q = rw e at h in (decimal_from 0 s, sym (ok_injective q), leb→le _ _ e)
    by_test false e = let q = rw e at h in cc

module _ (x y w h : ℕ) (bx : x ≤ 10000) (by : y ≤ 10000) (bw : w ≤ 10000) (bh : h ≤ 10000) where
  abbrev box : MaskPolicy
  box = record { x = pos x; y = pos y; width = pos w; height = pos h }

  box_size : has_size box ≡ true → (0 < w) × (0 < h)
  unfolding has_size
  box_size e = ground arith

  box_within : within_monitor box ≡ true → (x + w ≤ 10000) × (y + h ≤ 10000)
  unfolding within_monitor
  box_within e =
      let q = rw (add64_pos x w (omega arith), add64_pos y h (omega arith)) at e in ground arith

  policy_of-IsMask : (p : MaskPolicy) → policy_of box ≡ ok p → IsMask p
  unfolding policy_of
  policy_of-IsMask p q = by_tests (has_size box) (within_monitor box) refl refl
    where
      by_tests : (a b : Bool) → has_size box ≡ a → within_monitor box ≡ b → IsMask p
      by_tests true true d e =
          let same = rw (d, e) at q in
          let (wide, tall) = box_size d in
          let (across, down) = box_within e in
          record {
            x = x;
            y = y;
            width = w;
            height = h;
            made = sym (ok_injective same);
            wide = wide;
            tall = tall;
            across = across;
            down = down;
          }
      by_tests true false d e = let same = rw (d, e) at q in cc
      by_tests false b d e = let same = rw d at q in cc

read_fields-IsMask : (fs : List Bytes) (p : MaskPolicy) → read_fields fs ≡ ok p → IsMask p
unfolding read_fields
read_fields-IsMask (a ∷ b ∷ c ∷ d ∷ []) p q =
    let (x, gx, q1) = >>=-eq-ok (read_field 1 a) _ q in
    let (y, gy, q2) = >>=-eq-ok (read_field 2 b) _ q1 in
    let (w, gw, q3) = >>=-eq-ok (read_field 3 c) _ q2 in
    let (h, gh, q4) = >>=-eq-ok (read_field 4 d) _ q3 in
    let (nx, ex, bx) = read_field-value 1 a x gx in
    let (ny, ey, by) = read_field-value 2 b y gy in
    let (nw, ew, bw) = read_field-value 3 c w gw in
    let (nh, eh, bh) = read_field-value 4 d h gh in
    policy_of-IsMask nx ny nw nh bx by bw bh p (rw (ex, ey, ew, eh) at q4)
read_fields-IsMask [] p q = cc
read_fields-IsMask (a ∷ []) p q = cc
read_fields-IsMask (a ∷ b ∷ []) p q = cc
read_fields-IsMask (a ∷ b ∷ c ∷ []) p q = cc
read_fields-IsMask (a ∷ b ∷ c ∷ d ∷ e ∷ fs) p q = cc

-- Whatever text is accepted is either the empty text, which is no mask, or stands for a mask that has a
-- size and lies whole within the monitor.
pub parse_mask_policy-IsMask :
    (raw : Bytes) (p : MaskPolicy)
    → parse_mask_policy raw ≡ ok p
    → ((raw ≡ []) × (p ≡ no_mask)) ⊎ IsMask p
unfolding parse_mask_policy
parse_mask_policy-IsMask [] p q = inl (refl, sym (ok_injective q))
parse_mask_policy-IsMask (c ∷ s) p q =
    inr (by_tests (leb (length (c ∷ s)) 23) (canonical_mask_policy (c ∷ s)) refl refl)
  where
    filled : (length (c ∷ s) == 0) ≡ false
    filled = nonempty (length (c ∷ s)) (omega arith)

    by_tests :
        (a b : Bool) → leb (length (c ∷ s)) 23 ≡ a → canonical_mask_policy (c ∷ s) ≡ b → IsMask p
    by_tests true true d e = read_fields-IsMask (split b',' (c ∷ s)) p (rw (filled, d, e) at q)
    by_tests true false d e = let never = rw (filled, d, e) at q in cc
    by_tests false b d e = let never = rw (filled, d) at q in cc
