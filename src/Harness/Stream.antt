-- ===== src/Harness/Stream.antt =====
-- internal/remotebridge/harness/harness.go: the loop of connectOnce over one CONTROL stream, after the
-- AgentHello. A goroutine that the loop starts is recorded; what it then does is in other modules.
pub mod Guarded
pub mod Ordered
use platform_agent.Prelude.{
  ℕ, Bool, true, false, Option, none, some, List, [], ◌∷◌, if◌then◌else◌, Result, ok, err,
}
use platform_agent.Prelude.Int.{ℤ, pos, add64}
use platform_agent.Bytes.{Bytes}
use platform_agent.Bytes.Text.{codes}
use platform_agent.Operation.Permit.{OperationPermit}
use platform_agent.Harness.Messages.{
  Envelope, Payload, heartbeat, kill, consent_prompt, device_key_challenge, operation_dispatch,
  operation_permit, Heartbeat, ConsentPrompt, DeviceKeyChallenge,
}
use platform_agent.Harness.Config.{Config}
use platform_agent.Harness.Timing.{watchdog_deadline}
use platform_agent.Harness.SeqGuard.{InboundSeqGuard, fresh_guard}
use platform_agent.Harness.Sender.{
  ControlSender, Sending, send_message, heartbeat_message, error_message,
}
use platform_agent.Harness.Kill.{Harness, Ready, take_kill_ack_ready}
use platform_agent.Harness.Decode.{decode_dispatch, decode_operation_permit}
use platform_agent.Harness.Inbound.{
  Defect, defect_code, nil_envelope, InboundAction, action_continue, action_heartbeat,
  action_kill_applied, action_transport_kill, action_dispatch, action_consent_prompt,
  action_device_key_challenge, action_screen_view, action_defect_close, Judgement, handle_inbound,
}

-- A goroutine, with what it is given.
pub data Started : Type 0 where
  kill_ack : Bytes → Ready → Started
  pty_operation : OperationPermit → Bytes → Started
  screen_view : OperationPermit → Started
  consent : Option ConsentPrompt → Started
  device_key : Bytes → Option DeviceKeyChallenge → Started

pub data StreamEnd : Type 0 where
  context_done watchdog_expired broker_closed receive_failed : StreamEnd
  heartbeat_unanswered transport_killed dispatch_undecodable permit_undecodable : StreamEnd
  protocol_defect : Defect → StreamEnd

-- The loop's variables, the tables, and the harness's counters of healthy streams and of defects.
pub record Stream : Type 0 where
  pub harness : Harness
  pub guard : InboundSeqGuard
  pub healthy : Bool
  pub watchdog : ℤ
  pub sender : ControlSender
  pub healthy_streams : ℤ
  pub defects : ℤ
  pub started : List Started

-- What the select meets. A frame comes with the time, and with whether the stream takes the loop's
-- own answer to it.
pub data Arrival : Type 0 where
  context_ends watchdog_fires stream_ends stream_fails : Arrival
  frame : Option Envelope → ℤ → Bool → Arrival

-- The stream after an arrival, and why the loop returns, if it does.
abbrev pub Turn : Type 0
Turn = Option StreamEnd × Stream

abbrev start_one : Started → Stream → Turn
start_one g s = (none, record s { started = g ∷ s.started })

unfoldable pub mark_healthy : Stream → Stream
mark_healthy s =
    if s.healthy
    then s
    else record s { healthy = true; healthy_streams = add64 s.healthy_streams (pos 1) }

unfoldable pub answered : Stream → Sending → Turn
unfolding mark_healthy
answered s r =
    let t : Stream = record s { sender = r.after } in
    elim r.error [ some e ↦ (some heartbeat_unanswered, t) | none ↦ (none, mark_healthy t) ]

pub start_kill_ack : Stream → Bytes → Ready × Harness → Turn
start_kill_ack s session (ready, h) = start_one (kill_ack session ready) (record s { harness = h })

module _ (sha256 : Bytes → Bytes) (cfg : Config) where
  -- A defect: it is counted, the broker is told as well as it goes, and the loop returns.
  unfoldable pub defect_end : ℤ → Bool → Bytes → StreamEnd → Stream → Turn
  defect_end now took code e s = (
    some e,
    record s {
      defects = add64 s.defects (pos 1);
      sender = (send_message sha256 s.sender now took (error_message code false)).after;
    },
  )

  pub start_dispatch : ℤ → Bool → Stream → Option (OperationPermit × Bytes) → Turn
  start_dispatch now took s none =
      defect_end now took (codes "operation-dispatch-decode-failed") dispatch_undecodable s
  start_dispatch now took s (some (permit, line)) = start_one (pty_operation permit line) s

  unfoldable pub start_screen_view : ℤ → Bool → Stream → Option OperationPermit → Turn
  start_screen_view now took s none =
      defect_end now took (codes "operation-permit-decode-failed") permit_undecodable s
  start_screen_view now took s (some permit) = start_one (screen_view permit) s

  -- The switch of the loop: the action, with the envelope's session and its payload, which the source
  -- reads again.
  unfoldable pub act : Stream → Bytes → Payload → ℤ → Bool → InboundAction → Turn
  unfolding answered start_dispatch start_screen_view start_kill_ack
  act s session body now took action_continue = (none, s)
  act s session body now took action_kill_applied = elim body [
    | kill k ↦ start_kill_ack s k.session_id (take_kill_ack_ready s.harness k.session_id)
    | _ ↦ start_kill_ack s [] (take_kill_ack_ready s.harness [])
  ]
  act s session body now took action_heartbeat = elim body [
    | heartbeat b ↦
        answered (record s { watchdog = watchdog_deadline cfg b.interval_millis })
          (send_message sha256 s.sender now took (heartbeat_message (some b)))
    | _ ↦
        answered (record s { watchdog = watchdog_deadline cfg (pos 0) })
          (send_message sha256 s.sender now took (heartbeat_message none))
  ]
  act s session body now took action_transport_kill = (some transport_killed, s)
  act s session body now took action_dispatch = elim body [
    | operation_dispatch d ↦ start_dispatch now took s (decode_dispatch (some d))
    | _ ↦ start_dispatch now took s (decode_dispatch none)
  ]
  act s session body now took action_screen_view = elim body [
    | operation_permit p ↦ start_screen_view now took s (decode_operation_permit (some p))
    | _ ↦ start_screen_view now took s (decode_operation_permit none)
  ]
  act s session body now took action_consent_prompt = elim body [
    | consent_prompt p ↦ start_one (consent (some p)) s
    | _ ↦ start_one (consent none) s
  ]
  act s session body now took action_device_key_challenge = elim body [
    | device_key_challenge c ↦ start_one (device_key session (some c)) s
    | _ ↦ start_one (device_key session none) s
  ]
  act s session body now took (action_defect_close d) =
      defect_end now took (defect_code d) (protocol_defect d) s

  unfoldable pub judged : Stream → Option Envelope → ℤ → Bool → Judgement → Turn
  judged s none now took j =
      defect_end now took (defect_code nil_envelope) (protocol_defect nil_envelope) s
  judged s (some env) now took j =
      act (record s { harness = j.harness; guard = j.guard }) env.session_id env.payload now took
        j.action

  unfoldable pub receive : Stream → Arrival → Turn
  unfolding judged
  receive s context_ends = (some context_done, s)
  receive s watchdog_fires = (some watchdog_expired, s)
  receive s stream_ends = (some broker_closed, s)
  receive s stream_fails = (some receive_failed, s)
  receive s (frame env now took) =
      judged s env now took (handle_inbound cfg s.harness s.guard env now)

  -- The loop: it returns at the first end.
  unfoldable pub serve : Stream → List Arrival → Turn
  serve s [] = (none, s)
  serve s (a ∷ arrivals) =
      let (end_reason, next) = receive s a in
      let rest = serve next arrivals in elim end_reason [ some e ↦ (some e, next) | none ↦ rest ]
