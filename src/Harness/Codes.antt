-- ===== src/Harness/Codes.antt =====
-- internal/remotebridge/harness/dispatch.go: what the broker is told of an operation that failed.
pub mod Bounded
pub mod Exact
use platform_agent.Prelude.{
  ℕ, String, Bool, true, false, ◌&&◌, ◌||◌, Option, none, some, List, [], ◌∷◌, ◌++◌, length, ◌==◌,
  if◌then◌else◌,
}
use platform_agent.Bytes.{Bytes, beq}
use platform_agent.Bytes.Text.{codes}
use platform_agent.Operation.Verify.{
  Reason, permit_invalid, permit_verifier_unavailable, permit_kid_mismatch, permit_alg_mismatch,
  permit_signature_missing, permit_version_mismatch, permit_device_mismatch, permit_not_fresh,
  permit_signature_decode, permit_signature_invalid, capability_not_pty, command_too_long,
  empty_command, command_mismatch, seq_invalid, seq_replay, capability_not_view_only,
  command_hash_present, missing_session_id, missing_operation_id,
}
use platform_agent.PtyExec.Plan.{PlanError, not_allowlisted, rule_exe_not_abs, arg_policy_violation}
use platform_agent.PtyExec.Executor.{
  ExecError, not_authorized, plan_rejected, run_failed, conpty_empty_output,
}
use platform_agent.PtyExec.PtyOp.{
  HandleError, nil_handler, nil_send, invalid_operation, exec_error, stream_error,
}

-- The constants of gate.go.
unfoldable pub reason_text : Reason → Bytes
reason_text permit_invalid = codes "permit-invalid"
reason_text permit_verifier_unavailable = codes "permit-invalid:verifier-unavailable"
reason_text permit_kid_mismatch = codes "permit-invalid:kid-mismatch"
reason_text permit_alg_mismatch = codes "permit-invalid:alg-mismatch"
reason_text permit_signature_missing = codes "permit-invalid:signature-missing"
reason_text permit_version_mismatch = codes "permit-invalid:version-mismatch"
reason_text permit_device_mismatch = codes "permit-invalid:device-mismatch"
reason_text permit_not_fresh = codes "permit-invalid:not-fresh"
reason_text permit_signature_decode = codes "permit-invalid:signature-decode-failed"
reason_text permit_signature_invalid = codes "permit-invalid:signature-invalid"
reason_text capability_not_pty = codes "capability-not-pty"
reason_text command_too_long = codes "command-too-long"
reason_text empty_command = codes "empty-command"
reason_text command_mismatch = codes "command-mismatch"
reason_text seq_invalid = codes "seq-invalid"
reason_text seq_replay = codes "seq-replay"
reason_text capability_not_view_only = codes "capability-not-view-only"
reason_text command_hash_present = codes "command-hash-present"
reason_text missing_session_id = codes "missing-session-id"
reason_text missing_operation_id = codes "missing-operation-id"

-- The reasons that authzReasonCode looks for, in its order.
abbrev pub authz_reasons : List Reason
authz_reasons =
    permit_verifier_unavailable ∷ permit_kid_mismatch ∷ permit_alg_mismatch
    ∷ permit_signature_missing ∷ permit_version_mismatch ∷ permit_device_mismatch ∷ permit_not_fresh
    ∷ permit_signature_decode ∷ permit_signature_invalid ∷ permit_invalid ∷ capability_not_pty
    ∷ command_too_long ∷ empty_command ∷ command_mismatch ∷ seq_invalid ∷ seq_replay ∷ []

unfoldable pub has_prefix : Bytes → Bytes → Bool
has_prefix s [] = true
has_prefix [] (c ∷ t) = false
has_prefix (b ∷ s) (c ∷ t) = b == c && has_prefix s t

-- strings.Contains
unfoldable pub contains : Bytes → Bytes → Bool
contains [] t = has_prefix [] t
contains (c ∷ s) t = has_prefix (c ∷ s) t || contains s t

unfoldable pub first_reason : List Reason → Bytes → Bytes
first_reason [] message = codes "not-authorized"
first_reason (r ∷ rs) message =
    if contains message (reason_text r) then reason_text r else first_reason rs message

unfoldable pub authz_reason_code : Bytes → Bytes
authz_reason_code message = first_reason authz_reasons message

-- `%w: %s` of ErrNotAuthorized and the reason; with no reason it is ErrNotAuthorized.
unfoldable pub authz_text : Option Reason → Bytes
authz_text none = codes "ptyexec: command not authorized"
authz_text (some r) = codes "ptyexec: command not authorized: " ++ reason_text r

-- The sentinels that dispatchErrorCode asks errors.Is for.
pub data Sentinel : Type 0 where
  is_not_authorized is_not_allowlisted is_arg_policy is_invalid_operation is_empty_output : Sentinel
  is_other : Sentinel

unfoldable pub sentinel : HandleError → Sentinel
sentinel (exec_error (not_authorized r)) = is_not_authorized
sentinel (exec_error (plan_rejected not_allowlisted)) = is_not_allowlisted
sentinel (exec_error (plan_rejected (arg_policy_violation e))) = is_arg_policy
sentinel (exec_error conpty_empty_output) = is_empty_output
sentinel invalid_operation = is_invalid_operation
sentinel _ = is_other

unfoldable pub same_sentinel : Sentinel → Sentinel → Bool
same_sentinel is_not_authorized is_not_authorized = true
same_sentinel is_not_allowlisted is_not_allowlisted = true
same_sentinel is_arg_policy is_arg_policy = true
same_sentinel is_invalid_operation is_invalid_operation = true
same_sentinel is_empty_output is_empty_output = true
same_sentinel _ _ = false

-- errors.Is on a joined error.
unfoldable pub matches : List HandleError → Sentinel → Bool
matches [] t = false
matches (e ∷ es) t = same_sentinel (sentinel e) t || matches es t

abbrev pub failed : String → Bytes
failed reason = codes "operation-dispatch-failed:" ++ codes reason

-- The text of an error that is not an authorization is not fixed by this model.
module _ (other_text : HandleError → Bytes) where
  unfoldable pub error_text : HandleError → Bytes
  error_text (exec_error (not_authorized r)) = authz_text r
  error_text e = other_text e

  -- errors.Join puts a newline between the texts.
  unfoldable pub joined_text : List HandleError → Bytes
  joined_text [] = []
  joined_text (e ∷ []) = error_text e
  joined_text (e ∷ f ∷ es) = error_text e ++ (10 ∷ joined_text (f ∷ es))

  -- `nil` is the empty list.
  unfoldable pub dispatch_error_code : List HandleError → Bytes
  dispatch_error_code [] = []
  dispatch_error_code (e ∷ es) =
      let errors = e ∷ es in
      if matches errors is_not_authorized
      then codes "operation-dispatch-failed:" ++ authz_reason_code (joined_text errors)
      else if matches errors is_not_allowlisted
      then failed "not-allowlisted"
      else if matches errors is_arg_policy
      then failed "arg-policy"
      else if matches errors is_invalid_operation
      then failed "invalid-operation"
      else if matches errors is_empty_output
      then failed "empty-output"
      else failed "exec-failed"
