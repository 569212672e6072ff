-- ===== src/Harness/Messages.antt =====
-- The messages of the bridge protocol (internal/remotebridge/pb) that the harness reads or sends.
use platform_agent.Prelude.{Bool, Option, List}
use platform_agent.Prelude.Int.{ℤ}
use platform_agent.Bytes.{Bytes}
use platform_agent.Bytes.Decimal.{format_int}
use platform_agent.Bytes.Text.{codes}
use platform_agent.PtyExec.OutStream.{DataFrame}

pub data ChannelType : Type 0 where
  channel_unspecified control_channel data_channel : ChannelType
  other_channel : ℤ → ChannelType

pub data Capability : Type 0 where
  capability_unspecified view_only constrained_pty : Capability
  other_capability : ℤ → Capability

-- The enum's String: a value with no name is its number.
unfoldable pub capability_name : Capability → Bytes
capability_name capability_unspecified = codes "CAPABILITY_UNSPECIFIED"
capability_name view_only = codes "VIEW_ONLY"
capability_name constrained_pty = codes "CONSTRAINED_PTY"
capability_name (other_capability n) = format_int n

pub record AgentHello : Type 0 where
  pub agent_version : Bytes
  pub device_id : Bytes
  pub cert_fingerprint : Bytes
  pub attestation_evidence_b64 : Bytes
  pub protocol_version : Bytes
  pub advertised_capabilities : List Capability

pub record ConsentPrompt : Type 0 where
  pub session_id : Bytes
  pub operator_display_name : Bytes
  pub reason : Bytes
  pub capabilities : List Capability
  pub expiry : ℤ

pub record ConsentResult : Type 0 where
  pub session_id : Bytes
  pub granted : Bool
  pub windows_interactive_session : Bytes
  pub granted_at : ℤ
  pub expiry : ℤ

pub record PermitMessage : Type 0 where
  pub alg : Bytes
  pub kid : Bytes
  pub permit_version : ℤ
  pub policy_version : Bytes
  pub decision_id : Bytes
  pub session_id : Bytes
  pub operation_id : Bytes
  pub device_id : Bytes
  pub operator_subject : Bytes
  pub capability : Capability
  pub command_hash : Bytes
  pub issued_at : ℤ
  pub expires_at : ℤ
  pub seq : ℤ
  pub signature_b64 : Bytes

pub record OperationDispatch : Type 0 where
  pub permit : Option PermitMessage
  pub command_line : Bytes

pub record Kill : Type 0 where
  pub session_id : Bytes
  pub kill_reason : Bytes
  pub issued_at : ℤ

pub record AuditEvent : Type 0 where
  pub session_id : Bytes
  pub event_type : Bytes
  pub content_hash : Bytes
  pub epoch_millis : ℤ

pub record Heartbeat : Type 0 where
  pub interval_millis : ℤ
  pub lease_expires_at : ℤ
  pub protocol_version : Bytes

pub record ErrorFrame : Type 0 where
  pub code : Bytes
  pub detail : Bytes
  pub retryable : Bool

pub record DeviceKeyChallenge : Type 0 where
  pub challenge_id : Bytes
  pub nonce_b64 : Bytes
  pub issued_at : ℤ
  pub expires_at : ℤ
  pub transport_peer_key : Bytes
  pub protocol_version : Bytes

-- Of the answer the harness reads the identifier; `evidence` stands for the other fields.
pub record DeviceKeyAttestationResponse : Type 0 where
  pub challenge_id : Bytes
  pub evidence : List Bytes

-- The oneof of an envelope. The operator console's payloads carry nothing that the agent reads.
pub data Payload : Type 0 where
  no_payload : Payload
  agent_hello : AgentHello → Payload
  session_request operation_request : Payload
  consent_prompt : ConsentPrompt → Payload
  consent_result : ConsentResult → Payload
  operation_permit : PermitMessage → Payload
  kill : Kill → Payload
  audit_event : AuditEvent → Payload
  heartbeat : Heartbeat → Payload
  data_frame : DataFrame → Payload
  error_frame : ErrorFrame → Payload
  operation_dispatch : OperationDispatch → Payload
  device_key_challenge : DeviceKeyChallenge → Payload
  device_key_attestation_response : DeviceKeyAttestationResponse → Payload

pub record Envelope : Type 0 where
  pub session_id : Bytes
  pub device_id : Bytes
  pub channel : ChannelType
  pub frame_seq : ℤ
  pub stream_id : Bytes
  pub sent_at : ℤ
  pub payload : Payload
