-- ===== src/PtyExec/Pilot/Hosts.antt =====
-- What the pilot policies let through.
use platform_agent.Prelude.{
  ℕ, ◌+◌, ◌≢◌, subst, ◌≤◌, ◌≡◌, ◌⊎◌, inl, inr, refl, false, some, List, [], ◌∷◌, arith, All, ok,
  Bool-cases, some_injective,
}
use platform_agent.Bytes.{Bytes, beq}
use platform_agent.Bytes.Text.{codes}
use platform_agent.PtyExec.ArgPolicy.{
  CommandSpec, ascii_lower, contains, lookup, is_arg_flag, evaluate,
}
use platform_agent.PtyExec.ArgPolicy.Grammar.{Parse, hosts}
use platform_agent.PtyExec.ArgPolicy.Complete.{evaluate-Parse}
use platform_agent.PtyExec.ArgPolicy.Forbidden.{evaluate-no_forbidden}
use platform_agent.PtyExec.Pilot.{
  hostname_policy, whoami_policy, netstat_policy, ping_policy, tracert_policy, pilot_arg_policies,
}

one_host : (n : ℕ) → (n ≡ 0) ⊎ ((false ≡ false) × (0 + n ≤ 1)) → 0 + n ≢ 0 → n ≡ 1
one_host n (inl e) r = absurd (omega arith)
one_host n (inr b) r = omega arith

-- An accepted `ping` names exactly one host, and no token of it is `-t` in either case: it ends by
-- itself.
pub ping-finite :
    (args : List Bytes)
    → evaluate ping_policy args ≡ ok tt
    → All (λ t. contains (ascii_lower t) (codes "-t" ∷ []) ≡ false) args
      × ((p : Parse ping_policy 0 args) × (hosts p.items ≡ 1))
unfolding ping_policy is_arg_flag
ping-finite args h =
    let p = (evaluate-Parse ping_policy args).0 h in
    (
      evaluate-no_forbidden ping_policy (refl, tt) args h,
      (p, one_host (hosts p.items) p.bounded (p.required refl)),
    )

module _ (P : CommandSpec → Type 0) where
  All_of_lookup :
      (k : Bytes) (m : List (Bytes × CommandSpec)) {s : CommandSpec}
      → All (λ e. P e.1) m
      → lookup k m ≡ some s
      → P s
  unfolding lookup
  All_of_lookup k [] h e = cc
  All_of_lookup k ((j, v) ∷ m) {s} h e = elim (Bool-cases (beq k j)) [
    | inl q ↦ let same : some v ≡ some s = rw q at e in subst P (some_injective same) h.0
    | inr q ↦ All_of_lookup k m h.1 (rw q at e)
  ]

abbrev TakesOneHost : CommandSpec → Type 0
TakesOneHost s = s.max_operands ≤ 1

pilot-TakesOneHost : All (λ e. TakesOneHost e.1) pilot_arg_policies
unfolding pilot_arg_policies hostname_policy whoami_policy netstat_policy ping_policy tracert_policy
pilot-TakesOneHost = omega arith

-- Whatever pilot command, its accepted arguments are permitted items with at most one host.
pub pilot-one_host :
    (name : Bytes) (s : CommandSpec) (args : List Bytes)
    → lookup name pilot_arg_policies ≡ some s
    → evaluate s args ≡ ok tt
    → (p : Parse s 0 args) × (hosts p.items ≤ 1)
pilot-one_host name s args found h =
    let p = (evaluate-Parse s args).0 h in
    let room = All_of_lookup TakesOneHost name pilot_arg_policies pilot-TakesOneHost found in
    (p, elim p.bounded [ inl e ↦ omega arith | inr b ↦ omega arith ])
