-- ===== src/SelfUpdate/Version.antt =====
-- internal/selfupdate/version.go: semantic versions, their parser, their order, and the policy.
pub mod Comparison
pub mod Order
pub mod Numeric
pub mod Policy
use platform_agent.Prelude.{
  ℕ, suc, ◌+◌, ◌*◌, ◌-◌, ◌^◌, Bool, true, false, not, ◌&&◌, ◌||◌, Option, none, some, List, [], ◌∷◌,
  length, take, drop, if◌then◌else◌, ◌==◌, ltb, leb,
}
use platform_agent.Bytes.{Bytes, beq}
use platform_agent.Bytes.Decimal.{decimal_from}
use platform_agent.Bytes.Text.{split, is_digit, is_upper, is_lower}
use platform_agent.Bytes.Trim.{trim_space}

-- Numbers are uint64; an empty pre-release is a release.
pub record Version : Type 0 where
  pub major : ℕ
  pub minor : ℕ
  pub patch : ℕ
  pub prerelease : List Bytes
  pub build : Bytes
  pub raw : Bytes

unfoldable pub is_release : Version → Bool
is_release v = length v.prerelease == 0

-- The result of a comparison: -1, 0 or +1.
pub data Cmp : Type 0 where
  less equal greater : Cmp

all_digits : Bytes → Bool
unfolding is_digit
all_digits [] = true
all_digits (c ∷ s) = is_digit c && all_digits s

-- Digits only, and no leading zero unless it is the one digit.
unfoldable pub valid_numeric_core : Bytes → Bool
unfolding all_digits
valid_numeric_core [] = false
valid_numeric_core (c ∷ s) = all_digits (c ∷ s) && ((length (c ∷ s) == 1) || not (c == b'0'))

is_alpha : ℕ → Bool
unfolding is_upper is_lower
is_alpha c = (is_lower c || is_upper c) || c == b'-'

all_ident_bytes : Bytes → Bool
unfolding is_digit is_alpha
all_ident_bytes [] = true
all_ident_bytes (c ∷ s) = (is_digit c || is_alpha c) && all_ident_bytes s

leading_zero : Bytes → Bool
leading_zero [] = false
leading_zero (c ∷ s) = ltb 1 (length (c ∷ s)) && c == b'0'

unfoldable pub valid_ident : Bool → Bytes → Bool
unfolding all_ident_bytes all_digits leading_zero
valid_ident build [] = false
valid_ident build (c ∷ s) =
    all_ident_bytes (c ∷ s) && not (not build && (all_digits (c ∷ s) && leading_zero (c ∷ s)))

unfoldable pub all_idents : Bool → List Bytes → Bool
all_idents build [] = true
all_idents build (id ∷ ids) = valid_ident build id && all_idents build ids

unfoldable pub valid_dot_separated : Bytes → Bool → Bool
valid_dot_separated s build = if length s == 0 then false else all_idents build (split b'.' s)

-- The bytes before and behind the first `sep`.
unfoldable pub cut_at : ℕ → Bytes → Option (Bytes × Bytes)
cut_at sep [] = none
cut_at sep (c ∷ s) =
    let rest = cut_at sep s in
    if c == sep then some ([], s) else elim rest [ none ↦ none | some (a, b) ↦ some (c ∷ a, b) ]

-- strconv.ParseUint at base 10 and 64 bits, on a string of digits.
unfoldable pub parse_uint : Bytes → Option ℕ
parse_uint s = if ltb (decimal_from 0 s) (2 ^ 64) then some (decimal_from 0 s) else none

unfoldable pub parse_core : Bytes → Option ℕ
parse_core p = if not (valid_numeric_core p) then none else parse_uint p

infixl 5 ◌>>=◌
abbrev pub ◌>>=◌ {ℓ κ} : {A : Type ℓ} {B : Type κ} → Option A → (A → Option B) → Option B
none >>= f = none
some a >>= f = f a

-- The core's three numbers.
unfoldable pub version_of : Bytes → List Bytes → Bytes → List Bytes → Option Version
version_of raw pre build (a ∷ b ∷ c ∷ []) = do
  major ← parse_core a
  minor ← parse_core b
  patch ← parse_core c
  some (record {
    major = major;
    minor = minor;
    patch = patch;
    prerelease = pre;
    build = build;
    raw = raw;
  })
version_of raw pre build _ = none

-- Split off the pre-release at the first '-', then the core at its dots.
unfoldable pub parse_rest : Bytes → Bytes → Bytes → Option Version
parse_rest raw build s = elim (cut_at b'-' s) [
  | none ↦ version_of raw [] build (split b'.' s)
  | some (core, pre) ↦
      if not (valid_dot_separated pre false)
      then none
      else version_of raw (split b'.' pre) build (split b'.' core)
]

-- Split off the build metadata at the first '+'.
unfoldable pub parse_build : Bytes → Bytes → Option Version
parse_build raw s = elim (cut_at b'+' s) [
  | none ↦ parse_rest raw [] s
  | some (rest, build) ↦
      if not (valid_dot_separated build true) then none else parse_rest raw build rest
]

unfoldable pub parse_trimmed : Bytes → Bytes → Option Version
parse_trimmed raw [] = none
parse_trimmed raw (c ∷ s) =
    if c == b'v' || c == b'V' then parse_build raw s else parse_build raw (c ∷ s)

unfoldable pub parse_version : Bytes → Option Version
parse_version s = parse_trimmed s (trim_space s)

-- cmpUint and cmpInt, on numbers that are not negative.
unfoldable pub cmp_uint : ℕ → ℕ → Cmp
cmp_uint a b = if ltb a b then less else if ltb b a then greater else equal

-- `if c := first; c != 0 { return c }`
unfoldable pub or_else : Cmp → Cmp → Cmp
or_else equal c = c
or_else less c = less
or_else greater c = greater

-- strings.Compare.
unfoldable pub compare_bytes : Bytes → Bytes → Cmp
compare_bytes [] [] = equal
compare_bytes [] (d ∷ t) = less
compare_bytes (c ∷ s) [] = greater
compare_bytes (c ∷ s) (d ∷ t) = or_else (cmp_uint c d) (compare_bytes s t)

unfoldable pub is_numeric_ident : Bytes → Bool
unfolding all_digits
is_numeric_ident [] = false
is_numeric_ident (c ∷ s) = all_digits (c ∷ s)

unfoldable pub compare_numeric_ident : Bytes → Bytes → Cmp
compare_numeric_ident a b =
    if not (length a == length b) then cmp_uint (length a) (length b) else compare_bytes a b

unfoldable pub by_kind : Bool → Bool → Bytes → Bytes → Cmp
by_kind true true a b = compare_numeric_ident a b
by_kind true false a b = less
by_kind false true a b = greater
by_kind false false a b = compare_bytes a b

unfoldable pub compare_ident : Bytes → Bytes → Cmp
compare_ident a b = by_kind (is_numeric_ident a) (is_numeric_ident b) a b

-- The loop over the shared identifiers, and the comparison of the lengths behind it.
unfoldable pub compare_idents : List Bytes → List Bytes → Cmp
compare_idents [] [] = equal
compare_idents [] (b ∷ bs) = less
compare_idents (a ∷ ids) [] = greater
compare_idents (a ∷ ids) (b ∷ bs) = or_else (compare_ident a b) (compare_idents ids bs)

unfoldable pub compare_prerelease : List Bytes → List Bytes → Cmp
compare_prerelease [] [] = equal
compare_prerelease [] (b ∷ bs) = greater
compare_prerelease (a ∷ ids) [] = less
compare_prerelease (a ∷ ids) (b ∷ bs) = compare_idents (a ∷ ids) (b ∷ bs)

unfoldable pub compare : Version → Version → Cmp
compare a b = or_else (cmp_uint a.major b.major) (
    or_else (cmp_uint a.minor b.minor)
      (or_else (cmp_uint a.patch b.patch) (compare_prerelease a.prerelease b.prerelease)))

-- The refusals, each with the source's reason.
pub data VersionRefusal : Type 0 where
  current_unparseable target_unparseable max_seen_unparseable : VersionRefusal
  replay downgrade : VersionRefusal

pub data VersionDecision : Type 0 where
  allowed noop : VersionDecision
  refused : VersionRefusal → VersionDecision

abbrev pub is_less : Cmp → Bool
is_less less = true
is_less _ = false

abbrev pub is_greater : Cmp → Bool
is_greater greater = true
is_greater _ = false

abbrev pub is_equal : Cmp → Bool
is_equal equal = true
is_equal _ = false

-- No version that has been seen rules nothing out.
unfoldable pub below_seen : Version → Option Version → Bool
below_seen t none = false
below_seen t (some m) = is_less (compare t m)

unfoldable pub not_above_seen : Version → Option Version → Bool
not_above_seen t none = false
not_above_seen t (some m) = not (is_greater (compare t m))

unfoldable pub decide_version : Version → Version → Option Version → VersionDecision
decide_version c t seen =
    if is_equal (compare t c)
    then (if below_seen t seen then refused replay else noop)
    else if not_above_seen t seen
    then refused replay
    else if is_less (compare t c)
    then refused downgrade
    else allowed

-- The high-water mark is only read once the other two have parsed.
unfoldable pub seen_and_decide : Version → Version → Bytes → VersionDecision
seen_and_decide c t max_seen =
    if length (trim_space max_seen) == 0
    then decide_version c t none
    else elim (parse_version max_seen) [
      | none ↦ refused max_seen_unparseable
      | some m ↦ decide_version c t (some m)
    ]

unfoldable pub evaluate_version_policy : Bytes → Bytes → Bytes → VersionDecision
evaluate_version_policy current target max_seen = elim (parse_version current) [
  | none ↦ refused current_unparseable
  | some c ↦ elim (parse_version target) [
    | none ↦ refused target_unparseable
    | some t ↦ seen_and_decide c t max_seen
  ]
]
