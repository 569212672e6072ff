-- ===== src/Harness/Decode.antt =====
-- internal/remotebridge/harness/dispatch.go: the broker's messages as domain permits.
pub mod Faithful
use platform_agent.Prelude.{Bool, ◌||◌, Option, none, some, length, ◌==◌, if◌then◌else◌}
use platform_agent.Bytes.{Bytes}
use platform_agent.Operation.Permit.{OperationPermit}
use platform_agent.Harness.Messages.{PermitMessage, OperationDispatch, capability_name}

-- The copy of the fields; the capability becomes its name.
unfoldable pub permit_of : PermitMessage → OperationPermit
permit_of p = record {
  alg = p.alg;
  kid = p.kid;
  permit_version = p.permit_version;
  policy_version = p.policy_version;
  decision_id = p.decision_id;
  session_id = p.session_id;
  operation_id = p.operation_id;
  device_id = p.device_id;
  operator_subject = p.operator_subject;
  capability = capability_name p.capability;
  command_hash = p.command_hash;
  issued_at = p.issued_at;
  expires_at = p.expires_at;
  seq = p.seq;
  signature_b64 = p.signature_b64;
}

-- `none` is errPermitDecode, or errDispatchDecode below.
unfoldable pub decode_operation_permit : Option PermitMessage → Option OperationPermit
decode_operation_permit none = none
decode_operation_permit (some p) =
    if length p.operation_id == 0 || length p.session_id == 0 then none else some (permit_of p)

decode_with : Bytes → Option PermitMessage → Option (OperationPermit × Bytes)
decode_with line none = none
decode_with line (some p) =
    if length p.operation_id == 0
    then none
    else if length p.session_id == 0
    then none
    else some (permit_of p, line)

unfoldable pub decode_dispatch : Option OperationDispatch → Option (OperationPermit × Bytes)
unfolding decode_with
decode_dispatch none = none
decode_dispatch (some d) = decode_with d.command_line d.permit
