-- ===== src/Harness/Examples.antt =====
-- The harness at concrete inputs: streams, settings and reports.
use platform_agent.Prelude.{
  ◌≡◌, ◌≢◌, ◌*◌, ℕ, refl, ap, take, Bool, true, false, Option, none, some, List, [], ◌∷◌, ◌++◌,
  length, arith, All, ok, ◌↔◌,
}
use platform_agent.Prelude.Int.{ℤ, pos, mul64, wrap64}
use platform_agent.Bytes.{Bytes, beq}
use platform_agent.Bytes.Text.{codes, ascii_lower_byte}
use platform_agent.Bytes.Trim.{trim_space}
use platform_agent.SelfUpdate.Url.{equal_fold, fold_ascii, lower}
use platform_agent.Operation.Verify.{permit_not_fresh}
use platform_agent.PtyExec.Executor.{not_authorized}
use platform_agent.PtyExec.PtyOp.{HandleError, exec_error}
use platform_agent.PtyExec.Runs.{
  toy_sha256, identity, permit, host_line, handler, always, output_length,
}
use platform_agent.Harness.Messages.{
  Envelope, control_channel, heartbeat, operation_permit, PermitMessage, view_only,
}
use platform_agent.Harness.Config.{
  Config, with_defaults, new, dial, second, is_loopback_broker_addr, skips_verify,
  validate_attestation_evidence_b64,
}
use platform_agent.Harness.Config.Usable.{IsUsable, Connects, new-IsUsable, dial-new}
use platform_agent.Harness.Timing.{
  Round, polled, dialled, backed_off, next_backoff, jitter, turn, run_from, run,
}
use platform_agent.Harness.Timing.Paced.{run-dials, identities, dials}
use platform_agent.Harness.SeqGuard.{fresh_guard, admits, admit, frame_seq_replay}
use platform_agent.Harness.SeqGuard.Accepted.{IsStream, admits-eq-IsStream}
use platform_agent.Harness.Sender.{
  Message, error_message, wire_from, send_message, send_envelope, envelope_of, send, agent_may_send,
}
use platform_agent.Harness.Sender.Contiguous.{Contiguous, sender_at, wire-Contiguous}
use platform_agent.Harness.Kill.{no_sessions}
use platform_agent.Harness.Stream.{
  Stream, protocol_defect, Arrival, frame, receive, judged, act, answered, mark_healthy,
  start_screen_view, defect_end, serve,
}
use platform_agent.Harness.Decode.{decode_operation_permit}
use platform_agent.Harness.Inbound.{
  handle_inbound, sequenced, on_control, payload_action, is_view_only, sequence_defect,
}
use platform_agent.Harness.Stream.Guarded.{IsAllowed, serve-IsAllowed}
use platform_agent.Harness.Stream.Ordered.{numbers, serve-IsStream}
use platform_agent.Harness.Codes.{dispatch_error_code}
use platform_agent.Harness.Codes.Exact.{told, dispatch_error_code-told}
use platform_agent.Harness.Dispatch.{dispatch_operation}
use platform_agent.Harness.Dispatch.Bound.{IsDispatched, dispatch_operation-IsDispatched}
use platform_agent.Harness.ViewCodes.{ViewError, screen_view_failure_code, view_code}

abbrev settings : Config
settings = record {
  broker_addr = codes "localhost:9443";
  device_id_provider = true;
  agent_version = codes "1";
  insecure_plaintext = true;
  tls_config = none;
  attestation_evidence_b64 = [];
  first_heartbeat_deadline = pos 0;
  heartbeat_miss_factor = pos 3;
  backoff_min = pos 0;
  backoff_max = pos 0;
  identity_poll_interval = pos 0;
  dial_timeout = pos 0;
  dialer = false;
  pty_dispatcher = false;
  screen_view_dispatcher = true;
  consent_responder = false;
  device_key_responder = false;
}

abbrev any_base64 : Bytes → Bool
any_base64 s = true

abbrev before_colon : Bytes → Option Bytes
before_colon s = some (take 9 s)

abbrev no_ip : Bytes → Bool
no_ip s = false

settings-new : new before_colon no_ip any_base64 settings ≡ ok (with_defaults settings)
unfolding new with_defaults trim_space is_loopback_broker_addr equal_fold fold_ascii lower
    ascii_lower_byte beq skips_verify validate_attestation_evidence_b64
settings-new = refl

new-IsUsable_example :
    (new before_colon no_ip any_base64 settings ≡ ok (with_defaults settings)) ↔ (
      IsUsable any_base64 before_colon no_ip settings
      × (with_defaults settings ≡ with_defaults settings))
new-IsUsable_example = new-IsUsable any_base64 before_colon no_ip settings (with_defaults settings)

dial-new_example :
    Connects any_base64 before_colon no_ip
      (with_defaults settings)
      (dial before_colon no_ip (with_defaults settings))
dial-new_example =
    dial-new any_base64 before_colon no_ip settings (with_defaults settings) settings-new

-- An identity is missing once, then a stream fails, then one turns healthy.
abbrev rounds : List Round
rounds =
    record {
      device_id = [];
      healthy = false;
      cancelled = false;
      draw = 4503599627370496;
      slept = true;
    }
    ∷ record {
      device_id = codes " d ";
      healthy = false;
      cancelled = false;
      draw = 4503599627370496;
      slept = true;
    }
    ∷ record {
      device_id = codes "d";
      healthy = true;
      cancelled = false;
      draw = 4503599627370496;
      slept = true;
    }
    ∷ []

rounds_run :
    run (with_defaults settings) rounds
    ≡ polled (pos (5 * second))
      ∷ dialled (codes "d")
      ∷ backed_off (pos (2 * second))
      ∷ dialled (codes "d")
      ∷ backed_off (pos second)
      ∷ []
unfolding run run_from turn jitter next_backoff mul64 wrap64 with_defaults trim_space
rounds_run = refl

run-dials_example : dials (run settings rounds) ≡ identities rounds
run-dials_example = run-dials settings rounds ((refl, refl), ((refl, refl), ((refl, refl), tt)))

admits-eq-IsStream_example :
    (admits fresh_guard (pos 0 ∷ pos 3 ∷ pos 7 ∷ []) ≡ true) ↔ IsStream (pos 0 ∷ pos 3 ∷ pos 7 ∷ [])
admits-eq-IsStream_example = admits-eq-IsStream (pos 0 ∷ pos 3 ∷ pos 7 ∷ [])

-- The second send fails, and its number is used again.
abbrev messages : List (ℤ × Bool × Message)
messages =
    (pos 1, true, error_message (codes "a") false)
    ∷ (pos 2, false, error_message (codes "b") false)
    ∷ (pos 3, true, error_message (codes "c") true)
    ∷ []

wire-Contiguous_example : Contiguous 0 (wire_from toy_sha256 (sender_at 0) messages)
wire-Contiguous_example = wire-Contiguous toy_sha256 messages (omega arith)

abbrev beat : Envelope
beat = record {
  session_id = [];
  device_id = [];
  channel = control_channel;
  frame_seq = pos 1;
  stream_id = [];
  sent_at = pos 0;
  payload = heartbeat (record {
    interval_millis = pos 1000;
    lease_expires_at = pos 0;
    protocol_version = codes "rb-v1";
  });
}

abbrev view_permit : PermitMessage
view_permit = record {
  alg = [];
  kid = [];
  permit_version = pos 1;
  policy_version = [];
  decision_id = [];
  session_id = codes "s";
  operation_id = codes "o";
  device_id = codes "d";
  operator_subject = [];
  capability = view_only;
  command_hash = [];
  issued_at = pos 0;
  expires_at = pos 0;
  seq = pos 1;
  signature_b64 = [];
}

abbrev view : Envelope
view = record beat { frame_seq = pos 2; payload = operation_permit view_permit }

abbrev opened : Stream
opened = record {
  harness = no_sessions;
  guard = fresh_guard;
  healthy = false;
  watchdog = pos 0;
  sender = sender_at 1;
  healthy_streams = pos 0;
  defects = pos 0;
  started = [];
}

abbrev arrivals : List Arrival
arrivals = frame (some beat) (pos 5) true ∷ frame (some view) (pos 6) true ∷ []

stays_open : (serve toy_sha256 settings opened arrivals).0 ≡ none
unfolding serve receive judged handle_inbound sequenced on_control admit payload_action is_view_only
    act answered mark_healthy start_screen_view decode_operation_permit send_message send_envelope
    envelope_of send agent_may_send
stays_open = refl

-- The same numbers twice: the second frame ends the stream.
replay_ends :
    (serve toy_sha256 settings opened
      (frame (some beat) (pos 5) true ∷ frame (some beat) (pos 6) true ∷ [])).0
    ≡ some (protocol_defect (sequence_defect frame_seq_replay))
unfolding serve receive judged handle_inbound sequenced on_control admit payload_action is_view_only
    act answered mark_healthy defect_end send_message send_envelope envelope_of send agent_may_send
replay_ends = refl

serve-IsAllowed_example :
    All (IsAllowed settings) (serve toy_sha256 settings opened arrivals).1.started
serve-IsAllowed_example = serve-IsAllowed toy_sha256 settings opened arrivals tt

serve-IsStream_example : IsStream (numbers arrivals)
serve-IsStream_example = serve-IsStream toy_sha256 settings opened arrivals refl stays_open

abbrev no_text : HandleError → Bytes
no_text e = []

dispatch_error_code-told_example :
    dispatch_error_code no_text (exec_error (not_authorized (some permit_not_fresh)) ∷ [])
    ≡ codes "operation-dispatch-failed:" ++ told (some permit_not_fresh)
dispatch_error_code-told_example = dispatch_error_code-told no_text (some permit_not_fresh)

dispatch_operation-IsDispatched_example :
    IsDispatched toy_sha256 identity no_text handler
      (codes "d")
      true
      permit
      host_line
      (some always)
      (pos 0)
      (dispatch_operation toy_sha256 identity no_text handler
        (codes "d")
        true
        permit
        host_line
        (some always)
        (pos 0))
dispatch_operation-IsDispatched_example =
    dispatch_operation-IsDispatched toy_sha256 identity no_text handler (codes "d") true permit
      host_line (some always) (pos 0) (omega (arith, output_length))

abbrev aborted : ViewError
aborted = record { local_abort = true; indicator_lost = false; permit_expired = false; code = none }

aborted_code : screen_view_failure_code aborted ≢ codes "screen-view-data-send-failed"
unfolding screen_view_failure_code view_code
aborted_code h = let e : Path ℕ 18 28 = ap length h in absurd (omega (arith, e))
