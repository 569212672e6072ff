-- ===== src/Harness/Stream/Guarded.antt =====
-- What the loop of a stream can start, and how it times and numbers.
use platform_agent.Prelude.{
  ◌≡◌, ◌≢◌, inl, inr, refl, Bool, true, Bool-cases, Option, none, some, List, [], ◌∷◌, length,
  arith, All, Result, ok, err, ◌∙◌,
}
use platform_agent.Prelude.Int.{ℤ, pos, leb_ℤ}
use platform_agent.Bytes.{Bytes}
use platform_agent.Bytes.Text.{codes}
use platform_agent.Operation.Permit.{OperationPermit}
use platform_agent.Harness.Messages.{
  Payload, no_payload, agent_hello, session_request, operation_request, consent_prompt,
  consent_result, operation_permit, kill, audit_event, heartbeat, data_frame, error_frame,
  operation_dispatch, device_key_challenge, device_key_attestation_response, OperationDispatch,
  PermitMessage, Capability, capability_name, capability_unspecified, view_only, constrained_pty,
  other_capability,
}
use platform_agent.Harness.Decode.{decode_operation_permit, decode_dispatch}
use platform_agent.Harness.Decode.Faithful.{
  decode_dispatch-IsDecoded, decode_operation_permit-named,
}
use platform_agent.Harness.Sender.{Sending, SendError, send_message, heartbeat_message}
use platform_agent.Harness.Timing.{watchdog_deadline}
use platform_agent.Harness.Config.{Config}
use platform_agent.Harness.Inbound.{
  payload_action, is_view_only, handle_inbound, sequenced, on_control,
}
use platform_agent.Harness.SeqGuard.{InboundSeqGuard, SeqDefect, admit}
use platform_agent.Harness.Stream.{
  Started, kill_ack, pty_operation, screen_view, consent, device_key, Stream, StreamEnd, Arrival,
  start_dispatch, start_screen_view, start_kill_ack, defect_end, answered, mark_healthy, frame,
  context_ends, watchdog_fires, stream_ends, stream_fails, judged, act, receive, serve,
}

-- What a goroutine needs: its hook is wired, and an operation names its session and itself.
abbrev pub IsAllowed : Config → Started → Type 0
IsAllowed cfg (kill_ack session ready) = Unit
IsAllowed cfg (pty_operation permit line) =
    (cfg.pty_dispatcher ≡ true) × (length permit.operation_id ≢ 0) × (length permit.session_id ≢ 0)
IsAllowed cfg (screen_view permit) =
    (cfg.screen_view_dispatcher ≡ true)
    × (length permit.operation_id ≢ 0)
    × (length permit.session_id ≢ 0)
    × (permit.capability ≡ codes "VIEW_ONLY")
IsAllowed cfg (consent prompt) = (cfg.consent_responder ≡ true) × (prompt ≢ none)
IsAllowed cfg (device_key session challenge) =
    (cfg.device_key_responder ≡ true) × (challenge ≢ none)

view_only-name : (c : Capability) → is_view_only c ≡ true → capability_name c ≡ codes "VIEW_ONLY"
unfolding is_view_only capability_name
view_only-name capability_unspecified h = cc
view_only-name view_only h = refl
view_only-name constrained_pty h = cc
view_only-name (other_capability n) h = cc

mark_healthy-started : (s : Stream) → (mark_healthy s).started ≡ s.started
unfolding mark_healthy
mark_healthy-started s = elim (Bool-cases s.healthy) [
  | inl healthy ↦ rw healthy refl
  | inr fresh ↦ rw fresh refl
]

answered-started : (s : Stream) (r : Sending) → (answered s r).1.started ≡ s.started
unfolding answered
answered-started s r = by_error r.error refl
  where
    by_error : (o : Option SendError) → r.error ≡ o → (answered s r).1.started ≡ s.started
    by_error none e = rw e (mark_healthy-started (record s { sender = r.after }))
    by_error (some x) e = rw e refl

module _ (sha256 : Bytes → Bytes) (cfg : Config) where
  start_dispatch-IsAllowed :
      (s : Stream) (now : ℤ) (took : Bool) (d : OperationDispatch)
      → cfg.pty_dispatcher ≡ true
      → All (IsAllowed cfg) s.started
      → All
          (IsAllowed cfg)
          (start_dispatch sha256 cfg now took s (decode_dispatch (some d))).1.started
  unfolding start_dispatch defect_end
  start_dispatch-IsAllowed s now took d wired h = by_decoding (decode_dispatch (some d)) refl
    where
      by_decoding :
          (o : Option (OperationPermit × Bytes))
          → decode_dispatch (some d) ≡ o
          → All (IsAllowed cfg) (start_dispatch sha256 cfg now took s o).1.started
      by_decoding none e = h
      by_decoding (some (permit, line)) e =
          let decoded = decode_dispatch-IsDecoded d permit line e in
          ((wired, decoded.operation_named, decoded.session_named), h)

  start_screen_view-IsAllowed :
      (s : Stream) (now : ℤ) (took : Bool) (p : PermitMessage)
      → cfg.screen_view_dispatcher ≡ true
      → is_view_only p.capability ≡ true
      → All (IsAllowed cfg) s.started
      → All
          (IsAllowed cfg)
          (start_screen_view sha256 cfg now took s (decode_operation_permit (some p))).1.started
  unfolding start_screen_view defect_end
  start_screen_view-IsAllowed s now took p wired viewing h =
      by_decoding (decode_operation_permit (some p)) refl
    where
      by_decoding :
          (o : Option OperationPermit)
          → decode_operation_permit (some p) ≡ o
          → All (IsAllowed cfg) (start_screen_view sha256 cfg now took s o).1.started
      by_decoding none e = h
      by_decoding (some permit) e =
          let (operation, session, named) = decode_operation_permit-named p permit e in
          ((wired, operation, session, named ∙ view_only-name p.capability viewing), h)

  act-IsAllowed :
      (s : Stream) (session : Bytes) (p : Payload) (now : ℤ) (took : Bool)
      → All (IsAllowed cfg) s.started
      → All (IsAllowed cfg) (act sha256 cfg s session p now took (payload_action cfg p)).1.started
  unfolding act payload_action defect_end start_kill_ack answered
  act-IsAllowed s session no_payload now took h = h
  act-IsAllowed s session (agent_hello m) now took h = h
  act-IsAllowed s session session_request now took h = h
  act-IsAllowed s session operation_request now took h = h
  act-IsAllowed s session (consent_prompt c) now took h = ground arith
  act-IsAllowed s session (consent_result r) now took h = h
  act-IsAllowed s session (operation_permit q) now took h =
      ground (arith, start_screen_view-IsAllowed s now took q)
  act-IsAllowed s session (kill k) now took h = ground arith
  act-IsAllowed s session (audit_event e) now took h = h
  act-IsAllowed s session (heartbeat b) now took h =
      elim (Bool-cases (leb_ℤ b.interval_millis (pos 0))) [
        | inl bad ↦ rw bad h
        | inr good ↦ rw good (
            rw
              (answered-started (record s { watchdog = watchdog_deadline cfg b.interval_millis })
                (send_message sha256 s.sender now took (heartbeat_message (some b))))
              h)
      ]
  act-IsAllowed s session (data_frame f) now took h = h
  act-IsAllowed s session (error_frame e) now took h = h
  act-IsAllowed s session (operation_dispatch d) now took h =
      ground (arith, start_dispatch-IsAllowed s now took d)
  act-IsAllowed s session (device_key_challenge c) now took h = ground arith
  act-IsAllowed s session (device_key_attestation_response r) now took h = h

  receive-IsAllowed :
      (s : Stream) (a : Arrival)
      → All (IsAllowed cfg) s.started
      → All (IsAllowed cfg) (receive sha256 cfg s a).1.started
  unfolding receive judged handle_inbound defect_end sequenced act
  receive-IsAllowed s context_ends h = h
  receive-IsAllowed s watchdog_fires h = h
  receive-IsAllowed s stream_ends h = h
  receive-IsAllowed s stream_fails h = h
  receive-IsAllowed s (frame none now took) h = h
  receive-IsAllowed s (frame (some env) now took) h = elim (Bool-cases (on_control env.channel)) [
    | inl control ↦ rw control (by_seq (admit s.guard env.frame_seq))
    | inr other ↦ rw other h
  ]
    where
      by_seq :
          (g : Result SeqDefect InboundSeqGuard)
          → All
              (IsAllowed cfg)
              (judged sha256 cfg s
                (some env)
                now
                took
                (sequenced cfg s.harness s.guard env now g)).1.started
      by_seq (err defect) = h
      by_seq (ok next) = act-IsAllowed _ env.session_id env.payload now took h

  -- Whatever arrives on a stream, each goroutine that its loop has started is one that the
  -- configuration wires, and an operation names its session and itself; a screen view's permit is
  -- for VIEW_ONLY.
  pub serve-IsAllowed :
      (s : Stream) (arrivals : List Arrival)
      → All (IsAllowed cfg) s.started
      → All (IsAllowed cfg) (serve sha256 cfg s arrivals).1.started
  unfolding serve
  serve-IsAllowed s [] h = h
  serve-IsAllowed s (a ∷ arrivals) h =
      let first = receive-IsAllowed s a h in
      by_end first (serve-IsAllowed (receive sha256 cfg s a).1 arrivals first)
        (receive sha256 cfg s a).0 refl
    where
      by_end :
          All (IsAllowed cfg) (receive sha256 cfg s a).1.started
          → All (IsAllowed cfg) (serve sha256 cfg (receive sha256 cfg s a).1 arrivals).1.started
          → (o : Option StreamEnd) → (receive sha256 cfg s a).0 ≡ o
          → All (IsAllowed cfg) (serve sha256 cfg s (a ∷ arrivals)).1.started
      by_end first rest none e = rw (e, All) rest
      by_end first rest (some x) e = rw (e, All) first
