-- ===== src/Harness/Inbound.antt =====
-- internal/remotebridge/harness/harness.go: handleInbound, which judges one frame of the broker.
use platform_agent.Prelude.{
  Bool, true, false, not, Option, none, some, if◌then◌else◌, Result, ok, err,
}
use platform_agent.Prelude.Int.{ℤ, pos, leb_ℤ}
use platform_agent.Bytes.{Bytes, beq}
use platform_agent.Bytes.Text.{codes}
use platform_agent.Harness.Messages.{
  ChannelType, control_channel, Envelope, Payload, heartbeat, kill, error_frame, consent_prompt,
  device_key_challenge, operation_dispatch, operation_permit, Capability, view_only,
}
use platform_agent.Harness.SeqGuard.{
  InboundSeqGuard, SeqDefect, negative_frame_seq, frame_seq_mode_regression, frame_seq_replay,
  admit,
}
use platform_agent.Harness.Config.{Config}
use platform_agent.Harness.Kill.{Harness, obey_kill, transport_kill_session_id}

pub data Defect : Type 0 where
  nil_envelope non_control_channel heartbeat_invalid_interval : Defect
  unsupported_payload_in_idle operation_permit_not_view_only : Defect
  sequence_defect : SeqDefect → Defect

-- The reason's text, which the broker is told.
unfoldable pub defect_code : Defect → Bytes
defect_code nil_envelope = codes "nil-envelope"
defect_code non_control_channel = codes "non-control-channel"
defect_code heartbeat_invalid_interval = codes "heartbeat-invalid-interval"
defect_code unsupported_payload_in_idle = codes "unsupported-payload-in-idle"
defect_code operation_permit_not_view_only = codes "operation-permit-not-view-only"
defect_code (sequence_defect negative_frame_seq) = codes "negative-frame-seq"
defect_code (sequence_defect frame_seq_mode_regression) = codes "frame-seq-mode-regression"
defect_code (sequence_defect frame_seq_replay) = codes "frame-seq-replay"

pub data InboundAction : Type 0 where
  action_continue action_heartbeat action_kill_applied action_transport_kill : InboundAction
  action_dispatch action_consent_prompt action_device_key_challenge action_screen_view :
      InboundAction
  action_defect_close : Defect → InboundAction

pub record Judgement : Type 0 where
  pub action : InboundAction
  pub harness : Harness
  pub guard : InboundSeqGuard

unfoldable pub on_control : ChannelType → Bool
on_control control_channel = true
on_control _ = false

unfoldable pub is_view_only : Capability → Bool
is_view_only view_only = true
is_view_only _ = false

abbrev pub supported : Bool → InboundAction → InboundAction
supported wired action = if wired then action else action_defect_close unsupported_payload_in_idle

-- What a payload asks for. A KILL has changed the tables before its action is told.
unfoldable pub payload_action : Config → Payload → InboundAction
payload_action cfg (heartbeat b) =
    if leb_ℤ b.interval_millis (pos 0)
    then action_defect_close heartbeat_invalid_interval
    else action_heartbeat
payload_action cfg (kill k) =
    if beq k.session_id transport_kill_session_id
    then action_transport_kill
    else action_kill_applied
payload_action cfg (error_frame f) = action_continue
payload_action cfg (consent_prompt p) = supported cfg.consent_responder action_consent_prompt
payload_action cfg (device_key_challenge c) =
    supported cfg.device_key_responder action_device_key_challenge
payload_action cfg (operation_dispatch d) = supported cfg.pty_dispatcher action_dispatch
payload_action cfg (operation_permit p) = supported cfg.screen_view_dispatcher (
    if is_view_only p.capability
    then action_screen_view
    else action_defect_close operation_permit_not_view_only)
payload_action cfg _ = action_defect_close unsupported_payload_in_idle

unfoldable pub payload_effect : Harness → Payload → ℤ → Harness
payload_effect h (kill k) now = obey_kill h k.session_id k.kill_reason now
payload_effect h _ now = h

unfoldable pub sequenced :
    Config → Harness → InboundSeqGuard → Envelope → ℤ → Result SeqDefect InboundSeqGuard → Judgement
sequenced cfg h g env now (err defect) = record {
  action = action_defect_close (sequence_defect defect);
  harness = h;
  guard = g;
}
sequenced cfg h g env now (ok next) = record {
  action = payload_action cfg env.payload;
  harness = payload_effect h env.payload now;
  guard = next;
}

unfoldable pub handle_inbound : Config → Harness → InboundSeqGuard → Option Envelope → ℤ → Judgement
unfolding sequenced
handle_inbound cfg h g none now = record {
  action = action_defect_close nil_envelope;
  harness = h;
  guard = g;
}
handle_inbound cfg h g (some env) now =
    if not (on_control env.channel)
    then record { action = action_defect_close non_control_channel; harness = h; guard = g }
    else sequenced cfg h g env now (admit g env.frame_seq)
