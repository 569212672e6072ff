-- ===== src/Bytes/Trim.antt =====
-- strings.TrimSpace: white space at both ends, in UTF-8, the Unicode spaces included.
use mathlib.Core.List.{reverse}
use platform_agent.Prelude.{
  ℕ, zero, suc, Bool, ◌&&◌, ◌||◌, List, [], ◌∷◌, leb, ◌==◌, if◌then◌else◌, length, drop,
}
use platform_agent.Bytes.Text.{is_space}

-- U+0085 and U+00A0.
wide_two : ℕ → ℕ → Bool
wide_two a b = a == 0xc2 && (b == 0x85 || b == 0xa0)

-- U+1680, U+2000 to U+200A, U+2028, U+2029, U+202F, U+205F and U+3000.
wide_three : ℕ → ℕ → ℕ → Bool
wide_three a b c =
    (a == 0xe1 && b == 0x9a && c == 0x80)
    || (a == 0xe2
        && ((b == 0x80 && (leb 0x80 c && leb c 0x8a || c == 0xa8 || c == 0xa9 || c == 0xaf))
            || (b == 0x81 && c == 0x9f)))
    || (a == 0xe3 && b == 0x80 && c == 0x80)

-- How many bytes the white space at the front takes; 0 if there is none.
front_width : List ℕ → ℕ
unfolding wide_two wide_three is_space
front_width [] = 0
front_width (a ∷ []) = if is_space a then 1 else 0
front_width (a ∷ b ∷ []) = if is_space a then 1 else if wide_two a b then 2 else 0
front_width (a ∷ b ∷ c ∷ s) =
    if is_space a then 1 else if wide_two a b then 2 else if wide_three a b c then 3 else 0

-- The same of a text read from its end.
back_width : List ℕ → ℕ
unfolding wide_two wide_three is_space
back_width [] = 0
back_width (a ∷ []) = if is_space a then 1 else 0
back_width (b ∷ a ∷ []) = if is_space b then 1 else if wide_two a b then 2 else 0
back_width (c ∷ b ∷ a ∷ s) =
    if is_space c then 1 else if wide_two b c then 2 else if wide_three a b c then 3 else 0

module _ (width : List ℕ → ℕ) where
  -- Every round cuts one byte at least, so the length of the text is fuel enough.
  cut_spaces : ℕ → List ℕ → List ℕ
  cut_spaces zero s = s
  cut_spaces (suc fuel) s =
      let rest = cut_spaces fuel (drop (width s) s) in if width s == 0 then s else rest

unfoldable pub trim_space : List ℕ → List ℕ
unfolding front_width back_width cut_spaces
trim_space s =
    let t = cut_spaces front_width (length s) s in
    reverse (cut_spaces back_width (length t) (reverse t))

-- `strings.TrimSpace(s) == ""`
unfoldable pub is_blank : List ℕ → Bool
unfolding trim_space
is_blank s = length (trim_space s) == 0
