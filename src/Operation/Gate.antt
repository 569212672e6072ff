-- ===== src/Operation/Gate.antt =====
-- internal/remotebridge/operation/gate.go: the gate that authorizes a constrained command or a
-- screen view under a permit. Its mutex makes each call one step.
pub mod Replay
pub mod Admission
use platform_agent.Prelude.{
  ℕ, Bool, true, false, not, Option, none, some, List, [], ◌∷◌, length, if◌then◌else◌, ◌==◌, ltb,
}
use platform_agent.Prelude.Int.{ℤ, pos, leb_ℤ}
use platform_agent.Bytes.{Bytes, beq}
use platform_agent.Bytes.Text.{codes}
use platform_agent.Bytes.Hex.{hex_encode}
use platform_agent.Operation.Permit.{OperationPermit}
use platform_agent.Operation.Command.{CanonicalCommand, parse_command, is_empty, hash_payload}
use platform_agent.Operation.Verify.{
  Reason, permit_invalid, permit_verifier_unavailable, capability_not_pty, command_too_long,
  empty_command, command_mismatch, seq_invalid, seq_replay, capability_not_view_only,
  command_hash_present, missing_session_id, missing_operation_id,
}

abbrev pub capability_constrained_pty : Bytes
capability_constrained_pty = codes "CONSTRAINED_PTY"

abbrev pub capability_view_only : Bytes
capability_view_only = codes "VIEW_ONLY"

abbrev pub max_command_line : ℕ
max_command_line = 4096

pub record Decision : Type 0 where
  pub allowed : Bool
  pub reason : Option Reason

abbrev pub deny : Reason → Decision
deny r = record { allowed = false; reason = some r }

abbrev pub allow : Decision
allow = record { allowed = true; reason = none }

-- A verify function that is nil, or a nil authorizer, is `none`.
pub record Authorizer : Type 0 where
  pub verify : Option (OperationPermit → ℤ → Bool × Option Reason)
  -- A session with no entry reads as 0.
  pub last_seq : Bytes → ℤ

unfoldable pub new_authorizer : Option (OperationPermit → ℤ → Bool × Option Reason) → Authorizer
new_authorizer verify = record { verify = verify; last_seq = λ _. pos 0 }

unfoldable pub set_seq : Bytes → ℤ → (Bytes → ℤ) → Bytes → ℤ
set_seq session v m j = if beq j session then v else m j

-- The steps that both capabilities end in: the sequence number is positive, and above the last one
-- accepted for the session.
unfoldable pub advance : Authorizer → OperationPermit → Decision × Authorizer
advance a p =
    if leb_ℤ p.seq (pos 0)
    then (deny seq_invalid, a)
    else if leb_ℤ p.seq (a.last_seq p.session_id)
    then (deny seq_replay, a)
    else (allow, record a { last_seq = set_seq p.session_id p.seq a.last_seq })

-- A refusal with no reason gets the general one.
abbrev or_invalid : Option Reason → Reason
or_invalid none = permit_invalid
or_invalid (some r) = r

-- The steps behind the verification, which both operations begin with.
module _ (a : Authorizer) (p : OperationPermit) (now : ℤ) (next : Decision × Authorizer) where
  after_verdict : Bool × Option Reason → Decision × Authorizer
  after_verdict (ok, reason) = if not ok then (deny (or_invalid reason), a) else next

  unfoldable pub verified :
      Option (OperationPermit → ℤ → Bool × Option Reason) → Decision × Authorizer
  unfolding after_verdict
  verified none = (deny permit_verifier_unavailable, a)
  verified (some verify) = after_verdict (verify p now)

module _ (sha256 : Bytes → Bytes) (unicode_lower : Bytes → Bytes) where
  unfoldable pub command_hash : CanonicalCommand → Bytes
  command_hash c = hex_encode (sha256 (hash_payload c))

  unfoldable pub pty_steps : Authorizer → OperationPermit → Bytes → Decision × Authorizer
  pty_steps a p command_line =
      let cmd = parse_command unicode_lower command_line in
      if not (beq p.capability capability_constrained_pty)
      then (deny capability_not_pty, a)
      else if ltb max_command_line (length command_line)
      then (deny command_too_long, a)
      else if is_empty cmd
      then (deny empty_command, a)
      else if not (beq (command_hash cmd) p.command_hash)
      then (deny command_mismatch, a)
      else advance a p

  unfoldable pub authorize : Authorizer → OperationPermit → Bytes → ℤ → Decision × Authorizer
  authorize a p command_line now = verified a p now (pty_steps a p command_line) a.verify

unfoldable pub view_steps : Authorizer → OperationPermit → Decision × Authorizer
view_steps a p =
    if not (beq p.capability capability_view_only)
    then (deny capability_not_view_only, a)
    else if not (length p.command_hash == 0)
    then (deny command_hash_present, a)
    else if length p.session_id == 0
    then (deny missing_session_id, a)
    else if length p.operation_id == 0
    then (deny missing_operation_id, a)
    else advance a p

unfoldable pub authorize_view_only : Authorizer → OperationPermit → ℤ → Decision × Authorizer
authorize_view_only a p now = verified a p now (view_steps a p) a.verify
