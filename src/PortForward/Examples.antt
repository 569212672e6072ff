-- ===== src/PortForward/Examples.antt =====
-- The guard and the allowlist at concrete targets.
use platform_agent.Prelude.{◌+◌, ◌*◌, ◌^◌, ◌≡◌, ◌↔◌, refl, true, false, some, [], ◌∷◌, arith, ok}
use platform_agent.Bytes.{beq}
use platform_agent.Bytes.Text.{codes}
use platform_agent.PortForward.Address.{
  Addr, v4, v6, ip4, safe_forward_addr, is_valid, has_zone, unmap, is_unspecified, is_loopback,
  is_link_local_unicast, is_link_local_multicast, is_multicast, is_interface_local_multicast,
  is_limited_broadcast, prefix_contains, any_prefix, is_special_class,
}
use platform_agent.PortForward.Address.Routable.{IsRoutable, safe_forward_addr-IsRoutable}
use platform_agent.PortForward.Target.{
  Target, Allowlist, new_allowlist, dial, add_targets, check_target, find, stored, any_port,
}
use platform_agent.PortForward.Target.Signed.{IsDialled, dial-IsDialled}

abbrev mapped : Addr
mapped = v6 (0xFFFF * 2 ^ 32 + ip4 10 0 0 5) []

safe_forward_addr-IsRoutable_example : (safe_forward_addr mapped ≡ true) ↔ IsRoutable mapped
safe_forward_addr-IsRoutable_example = safe_forward_addr-IsRoutable mapped (omega arith)

-- The loopback address stays refused when it is written in a sixteen-byte one.
mapped_loopback : safe_forward_addr (v6 (0xFFFF * 2 ^ 32 + ip4 127 0 0 1) []) ≡ false
unfolding safe_forward_addr is_valid has_zone unmap is_unspecified is_loopback is_link_local_unicast
    is_link_local_multicast is_multicast is_interface_local_multicast is_special_class
mapped_loopback = refl

abbrev controller : Target
controller = record { id = codes "dc-1"; addr = mapped; port = 389 }

abbrev allowlist : Allowlist
allowlist = record {
  by_id = record { id = codes "dc-1"; addr = v4 (ip4 10 0 0 5); port = 389 } ∷ [];
  allowed_ports = 88 ∷ 389 ∷ [];
  guard = some safe_forward_addr;
}

built : new_allowlist (controller ∷ []) (88 ∷ 389 ∷ []) ≡ ok allowlist
unfolding new_allowlist add_targets check_target find stored unmap is_valid safe_forward_addr
    has_zone is_unspecified is_loopback is_link_local_unicast is_link_local_multicast is_multicast
    is_interface_local_multicast is_limited_broadcast prefix_contains any_prefix is_special_class
built = refl

dialled : dial allowlist (codes "dc-1") ≡ ok (v4 (ip4 10 0 0 5), 389)
unfolding dial find beq any_port safe_forward_addr is_valid has_zone unmap is_unspecified
    is_loopback is_link_local_unicast is_link_local_multicast is_multicast
    is_interface_local_multicast is_limited_broadcast prefix_contains any_prefix is_special_class
dialled = refl

dial-IsDialled_example :
    IsDialled (controller ∷ []) (88 ∷ 389 ∷ []) (codes "dc-1") (v4 (ip4 10 0 0 5), 389)
dial-IsDialled_example =
    dial-IsDialled (controller ∷ []) (88 ∷ 389 ∷ []) allowlist (codes "dc-1")
      (v4 (ip4 10 0 0 5), 389) built dialled
