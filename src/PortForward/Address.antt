-- ===== src/PortForward/Address.antt =====
-- net/netip's addresses, as far as the guard reads them, and the guard `safeForwardAddr`.
pub mod Routable
use platform_agent.Prelude.{
  ℕ, ◌+◌, ◌*◌, ◌/◌, ◌%◌, ◌-◌, ◌^◌, Bool, true, false, not, ◌&&◌, ◌||◌, List, [], ◌∷◌, length,
  if◌then◌else◌, ◌==◌,
}
use platform_agent.Bytes.{Bytes, beq}

-- An address as its 32-bit or 128-bit number; the zero value is invalid.
pub data Addr : Type 0 where
  invalid_addr : Addr
  v4 : ℕ → Addr
  v6 : ℕ → Bytes → Addr

abbrev pub ip4 : ℕ → ℕ → ℕ → ℕ → ℕ
ip4 a b c d = a * 2 ^ 24 + b * 2 ^ 16 + c * 2 ^ 8 + d

-- A number of three leading 16-bit groups.
abbrev pub ip6 : ℕ → ℕ → ℕ → ℕ
ip6 a b c = a * 2 ^ 112 + b * 2 ^ 96 + c * 2 ^ 80

unfoldable pub is_valid : Addr → Bool
is_valid invalid_addr = false
is_valid _ = true

unfoldable pub has_zone : Addr → Bool
has_zone (v6 n zone) = not (length zone == 0)
has_zone _ = false

unfoldable pub unmap : Addr → Addr
unmap (v6 n zone) = if n / 2 ^ 32 == 0xFFFF then v4 (n % 2 ^ 32) else v6 n zone
unmap a = a

unfoldable pub is_unspecified : Addr → Bool
is_unspecified (v4 n) = n == 0
is_unspecified (v6 n zone) = n == 0 && length zone == 0
is_unspecified _ = false

unfoldable pub is_loopback : Addr → Bool
is_loopback (v4 n) = n / 2 ^ 24 == 127
is_loopback (v6 n zone) = n == 1
is_loopback _ = false

unfoldable pub is_link_local_unicast : Addr → Bool
is_link_local_unicast (v4 n) = n / 2 ^ 16 == 0xA9FE
is_link_local_unicast (v6 n zone) = n / 2 ^ 118 == 0x3FA
is_link_local_unicast _ = false

unfoldable pub is_link_local_multicast : Addr → Bool
is_link_local_multicast (v4 n) = n / 2 ^ 8 == 0xE00000
is_link_local_multicast (v6 n zone) = n / 2 ^ 120 == 0xFF && n / 2 ^ 112 % 16 == 2
is_link_local_multicast _ = false

unfoldable pub is_multicast : Addr → Bool
is_multicast (v4 n) = n / 2 ^ 28 == 0xE
is_multicast (v6 n zone) = n / 2 ^ 120 == 0xFF
is_multicast _ = false

unfoldable pub is_interface_local_multicast : Addr → Bool
is_interface_local_multicast (v6 n zone) = n / 2 ^ 120 == 0xFF && n / 2 ^ 112 % 16 == 1
is_interface_local_multicast _ = false

unfoldable pub is_limited_broadcast : Addr → Bool
is_limited_broadcast (v4 n) = n == ip4 255 255 255 255
is_limited_broadcast _ = false

-- A prefix of either family: the number, and the count of bits that are not compared.
pub data Prefix : Type 0 where
  prefix4 prefix6 : ℕ → ℕ → Prefix

unfoldable pub prefix_contains : Prefix → Addr → Bool
prefix_contains (prefix4 p free) (v4 n) = n / 2 ^ free == p / 2 ^ free
prefix_contains (prefix6 p free) (v6 n zone) = length zone == 0 && n / 2 ^ free == p / 2 ^ free
prefix_contains _ _ = false

abbrev pub denied_prefixes : List Prefix
denied_prefixes =
    prefix4 (ip4 192 0 2 0) 8
    ∷ prefix4 (ip4 198 51 100 0) 8
    ∷ prefix4 (ip4 203 0 113 0) 8
    ∷ prefix4 (ip4 198 18 0 0) 17
    ∷ prefix6 (ip6 0x2001 0xDB8 0) 96
    ∷ prefix6 (ip6 0x64 0xFF9B 0) 32
    ∷ prefix6 (ip6 0x64 0xFF9B 1) 80
    ∷ prefix6 (ip6 0x2002 0 0) 112
    ∷ prefix6 (ip6 0x2001 0 0) 96
    ∷ []

unfoldable pub any_prefix : List Prefix → Addr → Bool
any_prefix [] a = false
any_prefix (p ∷ ps) a = prefix_contains p a || any_prefix ps a

-- The classes of an unmapped address that are refused.
unfoldable pub is_special_class : Addr → Bool
is_special_class a =
    is_unspecified a
    || (is_loopback a
        || (is_link_local_unicast a
            || (is_link_local_multicast a || (is_multicast a || is_interface_local_multicast a))))

-- No error is `true`.
unfoldable pub safe_forward_addr : Addr → Bool
safe_forward_addr a =
    if not (is_valid a) || has_zone a
    then false
    else if is_special_class (unmap a)
    then false
    else if is_limited_broadcast (unmap a)
    then false
    else not (any_prefix denied_prefixes (unmap a))
