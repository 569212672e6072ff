-- ===== src/PortForward/Address/Routable.antt =====
-- The guard, by ranges of addresses.
use platform_agent.Prelude.{
  ℕ, ◌+◌, ◌/◌, ◌%◌, ◌-◌, ◌^◌, ◌<◌, ◌≡◌, ◌≢◌, ◌↔◌, ◌⊎◌, inl, inr, refl, sym, ◌∙◌, Bool, true, false,
  not, [], ◌∷◌, length, arith, if◌then◌else◌, ◌==◌, Bool-cases,
}
use platform_agent.Bytes.{Bytes}
use platform_agent.PortForward.Address.{
  Addr, invalid_addr, v4, v6, ip4, ip6, is_valid, has_zone, unmap, is_unspecified, is_loopback,
  is_link_local_unicast, is_link_local_multicast, is_multicast, is_interface_local_multicast,
  is_limited_broadcast, prefix_contains, denied_prefixes, any_prefix, is_special_class,
  safe_forward_addr,
}

-- The number is below the range or above it.
abbrev pub Outside : ℕ → ℕ → ℕ → Type 0
Outside low high n = (n < low) ⊎ (high < n)

-- The four-byte addresses that may be connected to.
pub record IsRoutable4 (n : ℕ) : Type 0 where
  pub not_zero : n ≢ 0
  pub not_loopback : Outside (ip4 127 0 0 0) (ip4 127 255 255 255) n
  pub not_link_local : Outside (ip4 169 254 0 0) (ip4 169 254 255 255) n
  pub not_multicast : Outside (ip4 224 0 0 0) (ip4 239 255 255 255) n
  pub not_broadcast : n ≢ ip4 255 255 255 255
  pub not_test_1 : Outside (ip4 192 0 2 0) (ip4 192 0 2 255) n
  pub not_test_2 : Outside (ip4 198 51 100 0) (ip4 198 51 100 255) n
  pub not_test_3 : Outside (ip4 203 0 113 0) (ip4 203 0 113 255) n
  pub not_benchmark : Outside (ip4 198 18 0 0) (ip4 198 19 255 255) n

safe4_parts : (n : ℕ) → safe_forward_addr (v4 n) ≡ true → IsRoutable4 n
unfolding safe_forward_addr is_valid has_zone unmap is_unspecified is_loopback is_link_local_unicast
    is_link_local_multicast is_multicast is_interface_local_multicast is_limited_broadcast
    prefix_contains any_prefix is_special_class
safe4_parts n h = record {
  not_zero = ground arith;
  not_loopback = ground arith;
  not_link_local = ground arith;
  not_multicast = ground arith;
  not_broadcast = ground arith;
  not_test_1 = ground arith;
  not_test_2 = ground arith;
  not_test_3 = ground arith;
  not_benchmark = ground arith;
}

of_IsRoutable4 : (n : ℕ) → IsRoutable4 n → safe_forward_addr (v4 n) ≡ true
unfolding safe_forward_addr is_valid has_zone unmap is_unspecified is_loopback is_link_local_unicast
    is_link_local_multicast is_multicast is_interface_local_multicast is_limited_broadcast
    prefix_contains any_prefix is_special_class
of_IsRoutable4 n h = ground (
  arith, h.not_zero, h.not_loopback, h.not_link_local, h.not_multicast, h.not_broadcast,
  h.not_test_1, h.not_test_2, h.not_test_3, h.not_benchmark,
)

-- The sixteen-byte addresses that may be connected to, when none is written in them.
pub record IsRoutable6 (n : ℕ) : Type 0 where
  pub not_zero : n ≢ 0
  pub not_loopback : n ≢ 1
  pub not_link_local : Outside (ip6 0xFE80 0 0) (ip6 0xFEC0 0 0 - 1) n
  pub not_multicast : Outside (ip6 0xFF00 0 0) (2 ^ 128 - 1) n
  pub not_documentation : Outside (ip6 0x2001 0xDB8 0) (ip6 0x2001 0xDB9 0 - 1) n
  pub not_nat64 : Outside (ip6 0x64 0xFF9B 0) (ip6 0x64 0xFF9B 0 + 2 ^ 32 - 1) n
  pub not_local_nat64 : Outside (ip6 0x64 0xFF9B 1) (ip6 0x64 0xFF9B 2 - 1) n
  pub not_6to4 : Outside (ip6 0x2002 0 0) (ip6 0x2003 0 0 - 1) n
  pub not_teredo : Outside (ip6 0x2001 0 0) (ip6 0x2001 1 0 - 1) n

-- A four-byte address is written in this one.
abbrev pub IsMapped : ℕ → Type 0
IsMapped n = n / 2 ^ 32 ≡ 0xFFFF

-- The addresses that may be connected to.
abbrev pub IsRoutable : Addr → Type 0
IsRoutable invalid_addr = ⊥
IsRoutable (v4 n) = IsRoutable4 n
IsRoutable (v6 n zone) =
    (length zone ≡ 0)
    × ((IsMapped n × IsRoutable4 (n % 2 ^ 32)) ⊎ ((n / 2 ^ 32 ≢ 0xFFFF) × IsRoutable6 n))

-- The guard of an address with no zone that is not mapped.
plain6 : ℕ → Bool
unfolding is_unspecified is_loopback is_link_local_unicast is_link_local_multicast is_multicast
    is_interface_local_multicast is_limited_broadcast prefix_contains any_prefix is_special_class
plain6 n =
    if is_special_class (v6 n [])
    then false
    else if is_limited_broadcast (v6 n [])
    then false
    else not (any_prefix denied_prefixes (v6 n []))

parts6 : (n : ℕ) → n < 2 ^ 128 → plain6 n ≡ true → IsRoutable6 n
unfolding plain6
parts6 n b h = record {
  not_zero = ground arith;
  not_loopback = ground arith;
  not_link_local = ground arith;
  not_multicast = ground arith;
  not_documentation = ground arith;
  not_nat64 = ground arith;
  not_local_nat64 = ground arith;
  not_6to4 = ground arith;
  not_teredo = ground arith;
}

of_parts6 : (n : ℕ) → n < 2 ^ 128 → IsRoutable6 n → plain6 n ≡ true
unfolding plain6
of_parts6 n b h = ground (
  arith, h.not_zero, h.not_loopback, h.not_link_local, h.not_multicast, h.not_documentation,
  h.not_nat64, h.not_local_nat64, h.not_6to4, h.not_teredo,
)

-- The number fits the family's width.
abbrev pub IsSized : Addr → Type 0
IsSized invalid_addr = Unit
IsSized (v4 n) = n < 2 ^ 32
IsSized (v6 n zone) = n < 2 ^ 128

zoned : (n c : ℕ) (zone : Bytes) → safe_forward_addr (v6 n (c ∷ zone)) ≡ false
unfolding safe_forward_addr is_valid has_zone
zoned n c zone = ground arith

safe6_cases :
    (n : ℕ)
    → safe_forward_addr (v6 n [])
      ≡ (if n / 2 ^ 32 == 0xFFFF then safe_forward_addr (v4 (n % 2 ^ 32)) else plain6 n)
unfolding safe_forward_addr is_valid has_zone unmap plain6 is_unspecified is_loopback
    is_link_local_unicast is_link_local_multicast is_multicast is_interface_local_multicast
    is_limited_broadcast prefix_contains any_prefix is_special_class
safe6_cases n = elim (Bool-cases (n / 2 ^ 32 == 0xFFFF)) [ inl q ↦ rw q refl | inr q ↦ rw q refl ]

-- The guard passes exactly the addresses outside the ranges that are refused, with no zone: the
-- unspecified and loopback addresses, the link-local and multicast ranges, the limited broadcast, the
-- documentation, benchmark and transition ranges; an address that carries a four-byte one passes
-- exactly if that one does.
pub safe_forward_addr-IsRoutable :
    (a : Addr) → IsSized a → (safe_forward_addr a ≡ true) ↔ IsRoutable a
safe_forward_addr-IsRoutable invalid_addr b =
    (λ h. (unfold safe_forward_addr is_valid in absurd cc), λ h. absurd h)
safe_forward_addr-IsRoutable (v4 n) b = (safe4_parts n, of_IsRoutable4 n)
safe_forward_addr-IsRoutable (v6 n (c ∷ zone)) b =
    (λ h. absurd (ground (arith, zoned n c zone, h)), λ h. absurd (omega (arith, h.0)))
safe_forward_addr-IsRoutable (v6 n []) b = elim (Bool-cases (n / 2 ^ 32 == 0xFFFF)) [
  | inl q ↦
      let m : n / 2 ^ 32 ≡ 0xFFFF = ground (arith, q) in
      let e : safe_forward_addr (v6 n []) ≡ safe_forward_addr (v4 (n % 2 ^ 32)) =
        safe6_cases n ∙ rw q refl in
      (
        λ h. (refl, inl (m, safe4_parts (n % 2 ^ 32) (sym e ∙ h))),
        λ h. elim h.1 [ inl r ↦ e ∙ of_IsRoutable4 (n % 2 ^ 32) r.1 | inr r ↦ absurd (r.0 m) ],
      )
  | inr q ↦
      let m : n / 2 ^ 32 ≢ 0xFFFF = ground (arith, q) in
      let e : safe_forward_addr (v6 n []) ≡ plain6 n = safe6_cases n ∙ rw q refl in
      (
        λ h. (refl, inr (m, parts6 n b (sym e ∙ h))),
        λ h. elim h.1 [ inl r ↦ absurd (m r.0) | inr r ↦ e ∙ of_parts6 n b r.1 ],
      )
]
