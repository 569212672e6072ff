-- ===== src/Harness/Sender.antt =====
-- internal/remotebridge/harness/sender.go: the one writer of the CONTROL stream. A send holds the
-- sender's mutex, so it is one step. The stream's Send is an answer of the environment.
pub mod Contiguous
use platform_agent.Prelude.{
  Bool, true, false, not, Option, none, some, List, [], ◌∷◌, ◌++◌, if◌then◌else◌,
}
use platform_agent.Prelude.Int.{ℤ, pos, add64}
use platform_agent.Bytes.{Bytes}
use platform_agent.Bytes.Decimal.{format_int}
use platform_agent.Bytes.Hex.{hex_encode}
use platform_agent.Harness.Messages.{
  Envelope, Payload, no_payload, agent_hello, consent_result, audit_event, heartbeat, error_frame,
  device_key_attestation_response, AgentHello, ConsentResult, Heartbeat,
  DeviceKeyAttestationResponse, control_channel, channel_unspecified,
}

pub record ControlSender : Type 0 where
  pub next_seq : ℤ

pub data SendError : Type 0 where
  not_sendable heartbeat_required stream_failed : SendError

unfoldable pub agent_may_send : Payload → Bool
agent_may_send (agent_hello m) = true
agent_may_send (consent_result m) = true
agent_may_send (audit_event m) = true
agent_may_send (heartbeat m) = true
agent_may_send (error_frame m) = true
agent_may_send (device_key_attestation_response m) = true
agent_may_send _ = false

-- One call: its error, what the stream took, and the sender that it leaves.
pub record Sending : Type 0 where
  pub error : Option SendError
  pub taken : Option Envelope
  pub after : ControlSender

abbrev pub stamp : ControlSender → ℤ → Envelope → Envelope
stamp s now env = record env { channel = control_channel; frame_seq = s.next_seq; sent_at = now }

unfoldable pub send : ControlSender → ℤ → Bool → Envelope → Sending
send s now stream_ok env =
    if not (agent_may_send env.payload)
    then record { error = some not_sendable; taken = none; after = s }
    else if not stream_ok
    then record { error = some stream_failed; taken = none; after = s }
    else record {
      error = none;
      taken = some (stamp s now env);
      after = record { next_seq = add64 s.next_seq (pos 1) };
    }

abbrev of_payload : Bytes → Payload → Envelope
of_payload session p = record {
  session_id = session;
  device_id = [];
  channel = channel_unspecified;
  frame_seq = pos 0;
  stream_id = [];
  sent_at = pos 0;
  payload = p;
}

-- The methods that the harness calls, by what they are given.
pub data Message : Type 0 where
  hello_message : AgentHello → Message
  error_message : Bytes → Bool → Message
  session_error_message : Bytes → Bytes → Bool → Message
  consent_result_message : ConsentResult → Message
  heartbeat_message : Option Heartbeat → Message
  audit_event_message : Bytes → Bytes → ℤ → Message
  attestation_message : Bytes → DeviceKeyAttestationResponse → Message

module _ (sha256 : Bytes → Bytes) where
  -- The payload of sendAuditEvent, whose digest covers the session, the event and the time.
  audit_envelope : Bytes → Bytes → ℤ → Envelope
  audit_envelope session event at = of_payload session (
      audit_event (record {
        session_id = session;
        event_type = event;
        content_hash = hex_encode (sha256 (session ++ (10 ∷ event ++ (10 ∷ format_int at))));
        epoch_millis = at;
      }))

  -- The envelope that a method hands to send; sendHeartbeat refuses a nil heartbeat.
  unfoldable pub envelope_of : Message → Option Envelope
  unfolding audit_envelope
  envelope_of (hello_message m) = some (of_payload [] (agent_hello m))
  envelope_of (error_message code retryable) =
      some
        (of_payload [] (error_frame (record { code = code; detail = []; retryable = retryable })))
  envelope_of (session_error_message session code retryable) = some (
      of_payload session (error_frame (record { code = code; detail = []; retryable = retryable })))
  envelope_of (consent_result_message r) = some (of_payload r.session_id (consent_result r))
  envelope_of (heartbeat_message none) = none
  envelope_of (heartbeat_message (some h)) = some (of_payload [] (heartbeat h))
  envelope_of (audit_event_message session event at) = some (audit_envelope session event at)
  envelope_of (attestation_message session r) =
      some (of_payload session (device_key_attestation_response r))

  unfoldable pub send_envelope : ControlSender → ℤ → Bool → Option Envelope → Sending
  send_envelope s now stream_ok none = record {
    error = some heartbeat_required;
    taken = none;
    after = s;
  }
  send_envelope s now stream_ok (some env) = send s now stream_ok env

  unfoldable pub send_message : ControlSender → ℤ → Bool → Message → Sending
  unfolding send_envelope
  send_message s now stream_ok m = send_envelope s now stream_ok (envelope_of m)

  unfoldable pub wire_from : ControlSender → List (ℤ × Bool × Message) → List Envelope
  wire_from s [] = []
  wire_from s ((now, stream_ok, m) ∷ ms) =
      let sending = send_message s now stream_ok m in
      let rest = wire_from sending.after ms in
      elim sending.taken [ none ↦ rest | some env ↦ env ∷ rest ]
