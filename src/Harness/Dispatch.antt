-- ===== src/Harness/Dispatch.antt =====
-- internal/remotebridge/harness: one operation from its start to its report, and the answers to a
-- consent prompt and to a device key challenge.
pub mod Bound
use platform_agent.Prelude.{
  ℕ, String, Bool, true, false, not, ◌||◌, Option, none, some, List, [], ◌∷◌, length, map, ◌==◌,
  if◌then◌else◌,
}
use platform_agent.Prelude.Int.{ℤ, pos}
use platform_agent.Bytes.{Bytes, beq}
use platform_agent.Bytes.Text.{codes}
use platform_agent.Operation.Permit.{OperationPermit}
use platform_agent.PtyExec.Plan.{ExecPlan}
use platform_agent.PtyExec.Executor.{Executor}
use platform_agent.PtyExec.OutStream.{DataFrame, Send}
use platform_agent.PtyExec.PtyOp.{HandleError, PtyOperationHandler, Handled, handle}
use platform_agent.Harness.Messages.{
  Envelope, data_frame, data_channel, ConsentPrompt, ConsentResult, DeviceKeyChallenge,
  DeviceKeyAttestationResponse,
}
use platform_agent.Harness.Sender.{
  Message, error_message, session_error_message, consent_result_message, attestation_message,
}
use platform_agent.Harness.Codes.{dispatch_error_code}

-- What an operation leaves: messages on CONTROL, envelopes on its DATA stream, the plans that ran.
pub record Dispatched : Type 0 where
  pub messages : List Message
  pub envelopes : List Envelope
  pub spawned : List ExecPlan

unfoldable pub is_bound : Bytes → OperationPermit → Bool
is_bound device p = not (length device == 0 || not (beq p.device_id device))

unfoldable pub data_envelope : OperationPermit → ℤ → DataFrame → Envelope
data_envelope p now f = record {
  session_id = p.session_id;
  device_id = [];
  channel = data_channel;
  frame_seq = pos 0;
  stream_id = p.operation_id;
  sent_at = now;
  payload = data_frame f;
}

abbrev pub not_dispatched : Bytes → String → Bool → Dispatched
not_dispatched session code retryable = record {
  messages = session_error_message session (codes code) retryable ∷ [];
  envelopes = [];
  spawned = [];
}

module _ (sha256 : Bytes → Bytes) (unicode_lower : Bytes → Bytes)
    (other_text : HandleError → Bytes) where
  unfoldable pub report : Bytes → List HandleError → List Message
  report session [] = []
  report session (e ∷ es) =
      session_error_message session (dispatch_error_code other_text (e ∷ es)) false ∷ []

  unfoldable pub handled : OperationPermit → ℤ → Handled → Dispatched
  handled p now r = record {
    messages = report p.session_id r.errors;
    envelopes = map (data_envelope p now) r.frames;
    spawned = r.spawned;
  }

  -- `opened` tells whether the DATA stream could be opened. Draining it changes nothing here.
  unfoldable pub dispatch_operation :
      PtyOperationHandler → Bytes → Bool → OperationPermit → Bytes → Option Send → ℤ → Dispatched
  dispatch_operation h device opened p line send now =
      if not (is_bound device p)
      then not_dispatched p.session_id "operation-device-mismatch" false
      else if not opened
      then not_dispatched p.session_id "data-stream-open-failed" true
      else handled p now (handle sha256 unicode_lower h p line p.operation_id send now)

-- A responder's answer: an error, nothing, or a result.
pub data Answer {ℓ} (A : Type ℓ) : Type ℓ where
  failed_answer empty_answer : Answer A
  answer : A → Answer A

unfoldable pub consent_reply : ConsentPrompt → Answer ConsentResult → Message
consent_reply prompt failed_answer = error_message (codes "consent-responder-failed") false
consent_reply prompt empty_answer = error_message (codes "consent-responder-empty-result") false
consent_reply prompt (answer r) =
    if beq r.session_id prompt.session_id
    then consent_result_message r
    else error_message (codes "consent-result-session-mismatch") false

unfoldable pub respond_to_consent :
    (ConsentPrompt → Answer ConsentResult) → Option ConsentPrompt → Message
respond_to_consent responder none = error_message (codes "nil-consent-prompt") false
respond_to_consent responder (some prompt) = consent_reply prompt (responder prompt)

unfoldable pub device_key_reply :
    Bytes → DeviceKeyChallenge → Answer DeviceKeyAttestationResponse → Message
device_key_reply session challenge failed_answer =
    error_message (codes "device-key-responder-failed") false
device_key_reply session challenge empty_answer =
    error_message (codes "device-key-responder-empty-result") false
device_key_reply session challenge (answer r) =
    if beq r.challenge_id challenge.challenge_id
    then attestation_message session r
    else error_message (codes "device-key-response-challenge-mismatch") false

unfoldable pub respond_to_device_key_challenge :
    (DeviceKeyChallenge → Bytes → Answer DeviceKeyAttestationResponse)
    → Bytes
    → Option DeviceKeyChallenge
    → Message
respond_to_device_key_challenge responder session none =
    error_message (codes "nil-device-key-challenge") false
respond_to_device_key_challenge responder session (some challenge) =
    device_key_reply session challenge (responder challenge session)
