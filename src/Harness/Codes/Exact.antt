-- ===== src/Harness/Codes/Exact.antt =====
-- A denied command is reported with the gate's reason.
use platform_agent.Prelude.{◌≡◌, refl, ap, Option, none, some, [], ◌∷◌, ◌++◌}
use platform_agent.Bytes.{Bytes}
use platform_agent.Bytes.Text.{codes}
use platform_agent.Operation.Verify.{
  Reason, permit_invalid, permit_verifier_unavailable, permit_kid_mismatch, permit_alg_mismatch,
  permit_signature_missing, permit_version_mismatch, permit_device_mismatch, permit_not_fresh,
  permit_signature_decode, permit_signature_invalid, capability_not_pty, command_too_long,
  empty_command, command_mismatch, seq_invalid, seq_replay, capability_not_view_only,
  command_hash_present, missing_session_id, missing_operation_id,
}
use platform_agent.PtyExec.Executor.{not_authorized}
use platform_agent.PtyExec.PtyOp.{HandleError, exec_error}
use platform_agent.Harness.Codes.{
  reason_text, authz_reason_code, first_reason, contains, has_prefix, authz_text,
  dispatch_error_code, matches, same_sentinel, sentinel, joined_text, error_text,
}

-- What the broker is to be told of a denial: the reason, or that there was none. A command is never
-- denied for the reasons of a screen view, which are not told apart.
abbrev pub told : Option Reason → Bytes
told none = codes "not-authorized"
told (some capability_not_view_only) = codes "not-authorized"
told (some command_hash_present) = codes "not-authorized"
told (some missing_session_id) = codes "not-authorized"
told (some missing_operation_id) = codes "not-authorized"
told (some r) = reason_text r

authz_reason_code-text : (r : Option Reason) → authz_reason_code (authz_text r) ≡ told r
unfolding authz_reason_code first_reason contains has_prefix authz_text reason_text
authz_reason_code-text none = refl
authz_reason_code-text (some permit_invalid) = refl
authz_reason_code-text (some permit_verifier_unavailable) = refl
authz_reason_code-text (some permit_kid_mismatch) = refl
authz_reason_code-text (some permit_alg_mismatch) = refl
authz_reason_code-text (some permit_signature_missing) = refl
authz_reason_code-text (some permit_version_mismatch) = refl
authz_reason_code-text (some permit_device_mismatch) = refl
authz_reason_code-text (some permit_not_fresh) = refl
authz_reason_code-text (some permit_signature_decode) = refl
authz_reason_code-text (some permit_signature_invalid) = refl
authz_reason_code-text (some capability_not_pty) = refl
authz_reason_code-text (some command_too_long) = refl
authz_reason_code-text (some empty_command) = refl
authz_reason_code-text (some command_mismatch) = refl
authz_reason_code-text (some seq_invalid) = refl
authz_reason_code-text (some seq_replay) = refl
authz_reason_code-text (some capability_not_view_only) = refl
authz_reason_code-text (some command_hash_present) = refl
authz_reason_code-text (some missing_session_id) = refl
authz_reason_code-text (some missing_operation_id) = refl

-- When the gate denies a command and nothing else fails, the broker is told exactly the gate's reason,
-- though it is found again in the text of the error and some reasons contain others.
pub dispatch_error_code-told :
    (other_text : HandleError → Bytes) (r : Option Reason)
    → dispatch_error_code other_text (exec_error (not_authorized r) ∷ [])
      ≡ codes "operation-dispatch-failed:" ++ told r
unfolding dispatch_error_code matches same_sentinel sentinel joined_text error_text
dispatch_error_code-told other_text r =
    ap (λ c. codes "operation-dispatch-failed:" ++ c) (authz_reason_code-text r)
