-- ===== src/Harness/Decode/Faithful.antt =====
-- A decoded operation keeps every field of its message, and can be correlated.
use platform_agent.Prelude.{
  ◌≡◌, ◌≢◌, refl, ap, Option, none, some, some_injective, length, arith, ◌∙◌, sym, ℕ, false,
  Bool-cases, Option-cases, ◌==◌, ◌||◌, inl, inr, if◌then◌else◌,
}
use platform_agent.Bytes.{Bytes, beq}
use platform_agent.Bytes.Text.{codes}
use platform_agent.Operation.Permit.{OperationPermit}
use platform_agent.Harness.Messages.{
  PermitMessage, OperationDispatch, Capability, capability_name, capability_unspecified, view_only,
  constrained_pty, other_capability,
}
use platform_agent.Harness.Decode.{permit_of, decode_operation_permit, decode_with, decode_dispatch}

-- The capability is one that has a name.
abbrev pub IsNamed : Capability → Type 0
IsNamed (other_capability n) = ⊥
IsNamed _ = Unit

-- The capability that a name stands for, the first one where there is none.
read_capability : Bytes → Capability
read_capability s =
    if beq s (codes "VIEW_ONLY")
    then view_only
    else if beq s (codes "CONSTRAINED_PTY")
    then constrained_pty
    else capability_unspecified

read_capability-name : (c : Capability) → IsNamed c → read_capability (capability_name c) ≡ c
unfolding read_capability capability_name beq
read_capability-name capability_unspecified h = refl
read_capability-name view_only h = refl
read_capability-name constrained_pty h = refl
read_capability-name (other_capability n) h = absurd h

capability_name_injective :
    (c d : Capability) → IsNamed c → IsNamed d → capability_name c ≡ capability_name d → c ≡ d
capability_name_injective c d h k e =
    sym (read_capability-name c h) ∙ ap read_capability e ∙ read_capability-name d k

permit_of_injective :
    (p q : PermitMessage)
    → IsNamed p.capability
    → IsNamed q.capability
    → permit_of p ≡ permit_of q
    → p ≡ q
unfolding permit_of
permit_of_injective p q h k e =
    let same : p.capability ≡ q.capability =
      capability_name_injective p.capability q.capability h k (ap (λ r. r.capability) e) in
    cc (e, same)

-- What a decoded dispatch keeps: both identifiers are there, and no field of the message is dropped.
pub record IsDecoded (d : OperationDispatch) (permit : OperationPermit) (line : Bytes)
    : Type 0 where
  pub operation_named : length permit.operation_id ≢ 0
  pub session_named : length permit.session_id ≢ 0
  pub command : line ≡ d.command_line
  pub carried : (p : PermitMessage) × (d.permit ≡ some p) × (permit ≡ permit_of p)

none_apart {ℓ} : {A : Type ℓ} {a : A} → none ≢ some a
none_apart h = cc

nonzero : (n : ℕ) → (n == 0) ≡ false → n ≢ 0
nonzero n h e = ground arith

pub decode_operation_permit-named :
    (p : PermitMessage) (permit : OperationPermit)
    → decode_operation_permit (some p) ≡ some permit
    → (length permit.operation_id ≢ 0)
      × (length permit.session_id ≢ 0)
      × (permit.capability ≡ capability_name p.capability)
unfolding decode_operation_permit permit_of
decode_operation_permit-named p permit h =
    elim (Bool-cases (length p.operation_id == 0 || length p.session_id == 0)) [
      | inl blank ↦
          let f : Path (Option OperationPermit) none (some permit) = rw blank at h in
          absurd (none_apart f)
      | inr named ↦
          let f : some (permit_of p) ≡ some permit = rw named at h in
          let ids : (length p.operation_id ≢ 0) × (length p.session_id ≢ 0) = ground arith in
          rw (sym (some_injective f)) (ids.0, ids.1, refl)
    ]

decode_with-IsDecoded :
    (d : OperationDispatch) (o : Option PermitMessage) (permit : OperationPermit) (line : Bytes)
    → d.permit ≡ o
    → decode_with d.command_line o ≡ some (permit, line)
    → IsDecoded d permit line
unfolding decode_with permit_of
decode_with-IsDecoded d none permit line q e = cc
decode_with-IsDecoded d (some p) permit line q e = elim (Bool-cases (length p.operation_id == 0)) [
  | inl blank ↦
      let f : Path (Option (OperationPermit × Bytes)) none (some (permit, line)) = rw blank at e in
      absurd (none_apart f)
  | inr op ↦ elim (Bool-cases (length p.session_id == 0)) [
    | inl blank ↦
        let f : Path (Option (OperationPermit × Bytes)) none (some (permit, line)) =
          rw (op, blank) at e in
        absurd (none_apart f)
    | inr session ↦
        let f : some (permit_of p, d.command_line) ≡ some (permit, line) = rw (op, session) at e in
        let same : permit_of p ≡ permit = ap (λ x. x.0) (some_injective f) in
        rw (sym same) (record {
          operation_named = nonzero (length p.operation_id) op;
          session_named = nonzero (length p.session_id) session;
          command = sym (ap (λ x. x.1) (some_injective f));
          carried = (p, q, refl);
        })
  ]
]

pub decode_dispatch-IsDecoded :
    (d : OperationDispatch) (permit : OperationPermit) (line : Bytes)
    → decode_dispatch (some d) ≡ some (permit, line)
    → IsDecoded d permit line
unfolding decode_dispatch
decode_dispatch-IsDecoded d permit line e = decode_with-IsDecoded d d.permit permit line refl e

same_message :
    (d e : OperationDispatch) (p q : PermitMessage)
    → d.permit ≡ some p
    → e.permit ≡ some q
    → IsNamed p.capability
    → IsNamed q.capability
    → (permit : OperationPermit) (line : Bytes) → IsDecoded d permit line
    → IsDecoded e permit line
    → d ≡ e
same_message d e p q dp eq named known permit line x y =
    let (a, da, pa) = x.carried in
    let (b, eb, pb) = y.carried in
    let first : a ≡ p = some_injective (sym da ∙ dp) in
    let second : b ≡ q = some_injective (sym eb ∙ eq) in
    let images : permit_of p ≡ permit_of q =
      ap permit_of (sym first) ∙ sym pa ∙ pb ∙ ap permit_of second in
    cc (dp, eq, permit_of_injective p q named known images, x.command, y.command)

-- Two dispatches whose permits have named capabilities, and that decode to the same permit and command,
-- are the same message: no field is dropped or folded together on the way to the gate.
pub decode_dispatch_injective :
    (d e : OperationDispatch) (p q : PermitMessage)
    → d.permit ≡ some p
    → e.permit ≡ some q
    → IsNamed p.capability
    → IsNamed q.capability
    → decode_dispatch (some d) ≢ none
    → decode_dispatch (some d) ≡ decode_dispatch (some e)
    → d ≡ e
decode_dispatch_injective d e p q dp eq named known some_d same =
    elim (Option-cases (decode_dispatch (some d))) [
      | inl gone ↦ absurd (some_d gone)
      | inr ((permit, line), h) ↦
          same_message d e p q dp eq named known permit line
            (decode_dispatch-IsDecoded d permit line h)
            (decode_dispatch-IsDecoded e permit line (sym same ∙ h))
    ]
