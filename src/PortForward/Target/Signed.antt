-- ===== src/PortForward/Target/Signed.antt =====
-- What a dial can reach.
use platform_agent.Prelude.{
  ℕ, ◌≡◌, ◌≢◌, ◌⊎◌, inl, inr, refl, sym, ap, ◌∙◌, subst, Bool, true, false, not, ◌&&◌, Option, none,
  some, List, [], ◌∷◌, length, arith, All, if◌then◌else◌, ltb, Result, ok, err, Bool-cases,
  ok_injective, some_injective,
}
use platform_agent.Bytes.{Bytes, beq, beq_iff}
use platform_agent.PortForward.Address.{Addr, unmap, safe_forward_addr}
use platform_agent.PortForward.Target.{
  TargetError, Target, Allowlist, find, check_target, target_unsafe, port_not_allowed, stored,
  add_checked, add_targets, allowlist_of, new_allowlist, any_port, guard_of, dial_found, dial,
}

-- One of the targets.
abbrev pub Among : Target → List Target → Type 0
Among t [] = ⊥
Among t (s ∷ ss) = (t ≡ s) ⊎ Among t ss

-- An entry of the map stands for a signed target: its id and port, and its address unmapped.
pub record IsFrom (targets : List Target) (t : Target) : Type 0 where
  pub signed : Target
  pub among : Among signed targets
  pub kept : t ≡ stored signed
  pub safe : safe_forward_addr signed.addr ≡ true
  pub port : signed.port ≢ 0

check_parts :
    (seen : List Target) (t : Target)
    → check_target seen t ≡ none
    → (safe_forward_addr t.addr ≡ true) × (t.port ≢ 0)
unfolding check_target
check_parts seen t h = (ground arith, ground arith)

added_parts :
    (o : Option TargetError) (rest : Result TargetError (List Target)) (by_id : List Target)
    → add_checked o rest ≡ ok by_id
    → (o ≡ none) × (rest ≡ ok by_id)
unfolding add_checked
added_parts (some e) rest by_id h = absurd cc
added_parts none rest by_id h = (refl, h)

added-IsFrom :
    (all ts seen by_id : List Target)
    → ((t : Target) → Among t ts → Among t all)
    → All (IsFrom all) seen
    → add_targets ts seen ≡ ok by_id
    → All (IsFrom all) by_id
unfolding add_targets
added-IsFrom all [] seen by_id sub h e = subst (All (IsFrom all)) (ok_injective e) h
added-IsFrom all (t ∷ ts) seen by_id sub h e =
    let (clear, rest) =
      added_parts (check_target seen t) (add_targets ts (stored t ∷ seen)) by_id e in
    let (safe, port) = check_parts seen t clear in
    added-IsFrom all ts (stored t ∷ seen) by_id (λ s m. sub s (inr m))
      (record { signed = t; among = sub t (inl refl); kept = refl; safe = safe; port = port }, h)
      rest

found_of_All :
    (P : Target → Type 0) (k : Bytes) (ts : List Target) (t : Target)
    → All P ts
    → find k ts ≡ some t
    → P t × (t.id ≡ k)
unfolding find
found_of_All P k [] t h e = absurd cc
found_of_All P k (s ∷ ts) t h e = elim (Bool-cases (beq k s.id)) [
  | inl q ↦
      let f : some s ≡ some t = rw q at e in
      let g : s ≡ t = some_injective f in
      (subst P g h.0, ap (λ x. x.id) (sym g) ∙ sym ((beq_iff k s.id).0 q))
  | inr q ↦ found_of_All P k ts t h.1 (rw q at e)
]

-- What is asked of a target that is dialled.
pub record IsDialled (targets : List Target) (ports : List ℕ) (id : Bytes) (r : Addr × ℕ)
    : Type 0 where
  pub signed : Target
  pub among : Among signed targets
  pub named : signed.id ≡ id
  pub address : r.0 ≡ unmap signed.addr
  pub port : r.1 ≡ signed.port
  pub nonzero : r.1 ≢ 0
  pub safe : safe_forward_addr signed.addr ≡ true
  pub safe_again : safe_forward_addr r.0 ≡ true
  pub permitted : (length ports ≡ 0) ⊎ (any_port ports r.1 ≡ true)

guarded : (o : Option (Addr → Bool)) → o ≡ some safe_forward_addr → guard_of o ≡ safe_forward_addr
unfolding guard_of
guarded o e = ap guard_of e

dial_found_parts :
    (a : Allowlist) (t : Target) (r : Addr × ℕ)
    → guard_of a.guard ≡ safe_forward_addr
    → dial_found a (some t) ≡ ok r
    → (safe_forward_addr t.addr ≡ true)
      × ((length a.allowed_ports ≡ 0) ⊎ (any_port a.allowed_ports t.port ≡ true))
      × ((t.addr, t.port) ≡ r)
unfolding dial_found
dial_found_parts a t r g h =
    let f : (if not (safe_forward_addr t.addr)
          then err target_unsafe
          else if ltb 0 (length a.allowed_ports) && not (any_port a.allowed_ports t.port)
          then err port_not_allowed
          else ok (t.addr, t.port))
        ≡ ok r =
      rw g at h in
    tests (safe_forward_addr t.addr) (ltb 0 (length a.allowed_ports))
      (any_port a.allowed_ports t.port) f (λ q. ground (arith, q))
  where
    tests :
        (safe some_ports listed : Bool)
        → Path
            (Result TargetError (Addr × ℕ))
            (if not safe
              then err target_unsafe
              else if some_ports && not listed
              then err port_not_allowed
              else ok (t.addr, t.port))
            (ok r)
        → (some_ports ≡ false → length a.allowed_ports ≡ 0)
        → (safe ≡ true) × ((length a.allowed_ports ≡ 0) ⊎ (listed ≡ true)) × ((t.addr, t.port) ≡ r)
    tests false b c f z = absurd cc
    tests true false c f z = (refl, inl (z refl), ok_injective f)
    tests true true false f z = absurd cc
    tests true true true f z = (refl, inr refl, ok_injective f)

allowlist_parts :
    (targets : List Target) (ports : List ℕ) (a : Allowlist)
    → new_allowlist targets ports ≡ ok a
    → All (IsFrom targets) a.by_id × (a.allowed_ports ≡ ports) × (a.guard ≡ some safe_forward_addr)
unfolding new_allowlist allowlist_of stored
allowlist_parts targets ports a h = go (add_targets targets []) refl (ground arith)
  where
    go :
        (r : Result TargetError (List Target))
        → add_targets targets [] ≡ r
        → allowlist_of ports r ≡ ok a
        → All (IsFrom targets) a.by_id
          × (a.allowed_ports ≡ ports)
          × (a.guard ≡ some safe_forward_addr)
    go (err e) q f = absurd cc
    go (ok by_id) q f =
        let same = ok_injective f in
        (
          subst (λ b. All (IsFrom targets) b.by_id) same
              (added-IsFrom targets targets [] by_id (λ t m. m) tt q),
          ap (λ b. b.allowed_ports) (sym same),
          ap (λ b. b.guard) (sym same),
        )

-- A dial through an allowlist that was built from signed targets reaches only the unmapped address
-- and the port of the signed target with that id; the guard passes the address as it was signed and
-- as it is dialled; the port is not 0, and is among the allowed ports if any are given.
pub dial-IsDialled :
    (targets : List Target) (ports : List ℕ) (a : Allowlist) (id : Bytes) (r : Addr × ℕ)
    → new_allowlist targets ports ≡ ok a
    → dial a id ≡ ok r
    → IsDialled targets ports id r
unfolding dial stored
dial-IsDialled targets ports a id r built h = go (find id a.by_id) refl h
  where
    go :
        (o : Option Target)
        → find id a.by_id ≡ o
        → dial_found a o ≡ ok r
        → IsDialled targets ports id r
    go none q f = (unfold dial_found in absurd cc)
    go (some t) q f =
        let (entries, allowed, guard) = allowlist_parts targets ports a built in
        let (entry, named) = found_of_All (IsFrom targets) id a.by_id t entries q in
        let (safe, permitted, same) = dial_found_parts a t r (guarded a.guard guard) f in
        let addr_same : t.addr ≡ r.0 = ap (λ z. z.0) same in
        let port_same : t.port ≡ r.1 = ap (λ z. z.1) same in
        record {
          signed = entry.signed;
          among = entry.among;
          named = ap (λ z. z.id) (sym entry.kept) ∙ named;
          address = sym addr_same ∙ ap (λ z. z.addr) entry.kept;
          port = sym port_same ∙ ap (λ z. z.port) entry.kept;
          nonzero = λ z. entry.port (ap (λ w. w.port) (sym entry.kept) ∙ port_same ∙ z);
          safe = entry.safe;
          safe_again = ap safe_forward_addr (sym addr_same) ∙ safe;
          permitted = elim permitted [
            | inl z ↦ inl (ap length (sym allowed) ∙ z)
            | inr z ↦ inr (
                ap (λ p. any_port p r.1) (sym allowed)
                ∙ ap (any_port a.allowed_ports) (sym port_same)
                ∙ z)
          ];
        }
