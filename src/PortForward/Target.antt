-- ===== src/PortForward/Target.antt =====
-- The allowlist of signed targets, and the checks of a dial.
pub mod Signed
use platform_agent.Prelude.{
  ℕ, Bool, true, false, not, ◌&&◌, ◌||◌, Option, none, some, List, [], ◌∷◌, length, if◌then◌else◌,
  ◌==◌, ltb, Result, ok, err,
}
use platform_agent.Bytes.{Bytes, beq}
use platform_agent.PortForward.Address.{Addr, is_valid, unmap, safe_forward_addr}

pub data TargetError : Type 0 where
  target_unknown target_unsafe port_not_allowed : TargetError
  empty_target_set empty_target_id duplicate_target_id invalid_address port_zero unsafe_target :
      TargetError

pub record Target : Type 0 where
  pub id : Bytes
  pub addr : Addr
  pub port : ℕ

-- The map by target id is the list of its targets; the ports are a set.
pub record Allowlist : Type 0 where
  pub by_id : List Target
  pub allowed_ports : List ℕ
  pub guard : Option (Addr → Bool)

unfoldable pub find : Bytes → List Target → Option Target
find k [] = none
find k (t ∷ ts) = let rest = find k ts in if beq k t.id then some t else rest

is_some : Option Target → Bool
is_some none = false
is_some (some t) = true

-- The checks of one target, against the ones that are in the map.
unfoldable pub check_target : List Target → Target → Option TargetError
unfolding is_some
check_target seen t =
    if length t.id == 0
    then some empty_target_id
    else if is_some (find t.id seen)
    then some duplicate_target_id
    else if not (is_valid t.addr)
    then some invalid_address
    else if t.port == 0
    then some port_zero
    else if not (safe_forward_addr t.addr)
    then some unsafe_target
    else none

-- The stored target holds the unmapped address.
unfoldable pub stored : Target → Target
stored t = record t { addr = unmap t.addr }

add_checked :
    Option TargetError → Result TargetError (List Target) → Result TargetError (List Target)
add_checked (some e) rest = err e
add_checked none rest = rest

unfoldable pub add_targets : List Target → List Target → Result TargetError (List Target)
unfolding add_checked
add_targets [] seen = ok seen
add_targets (t ∷ ts) seen = add_checked (check_target seen t) (add_targets ts (stored t ∷ seen))

allowlist_of : List ℕ → Result TargetError (List Target) → Result TargetError Allowlist
allowlist_of ports (err e) = err e
allowlist_of ports (ok by_id) =
    ok (record { by_id = by_id; allowed_ports = ports; guard = some safe_forward_addr })

unfoldable pub new_allowlist : List Target → List ℕ → Result TargetError Allowlist
unfolding allowlist_of
new_allowlist targets ports =
    if length targets == 0
    then err empty_target_set
    else allowlist_of ports (add_targets targets [])

unfoldable pub resolve : Allowlist → Bytes → Option Target
resolve a id = find id a.by_id

unfoldable pub any_port : List ℕ → ℕ → Bool
any_port [] p = false
any_port (q ∷ qs) p = p == q || any_port qs p

guard_of : Option (Addr → Bool) → Addr → Bool
guard_of none = safe_forward_addr
guard_of (some g) = g

dial_found : Allowlist → Option Target → Result TargetError (Addr × ℕ)
unfolding guard_of
dial_found a none = err target_unknown
dial_found a (some t) =
    if not (guard_of a.guard t.addr)
    then err target_unsafe
    else if ltb 0 (length a.allowed_ports) && not (any_port a.allowed_ports t.port)
    then err port_not_allowed
    else ok (t.addr, t.port)

-- The address and port that the dialer is handed; what it makes of them is the network's.
unfoldable pub dial : Allowlist → Bytes → Result TargetError (Addr × ℕ)
unfolding dial_found
dial a id = dial_found a (find id a.by_id)
