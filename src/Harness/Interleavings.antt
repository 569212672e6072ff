-- ===== src/Harness/Interleavings.antt =====
-- The harness's tables and its operations, in concrete interleavings.
use platform_agent.Prelude.{◌≡◌, ◌≢◌, ℕ, refl, ap, some, [], ◌∷◌, length, arith, All}
use platform_agent.Prelude.Int.{pos}
use platform_agent.Bytes.{Bytes, beq}
use platform_agent.Bytes.Text.{codes}
use platform_agent.Harness.Kill.{
  obey_kill_locked, register_screen_cancel, put, at_entry, cancel, take_kill_ack_ready, ready_of,
  or_closed, unregister_locked, is_entry, close_done, is_closed, transport_kill_session_id,
}
use platform_agent.Harness.Kill.Concurrent.{
  System, start, registered, killing, taken, streaming, cancelling, taking, leaving, finished, Ack,
  Step, Leads, here, next, accept_step, register_step, kill_step, cancel_step, take_step,
  leave_step, finish_step, ack_step,
}
use platform_agent.Harness.Kill.Concurrent.Sound.{IsOver}
use platform_agent.Harness.Kill.Concurrent.Acknowledged.{kill-target, sent-IsOver}
use platform_agent.Harness.Kill.Concurrent.Late.{IsLate, killed_state, accepted-IsLate}

abbrev session : Bytes
session = codes "s"

abbrev accepted : System
accepted = record start { spawned = session ∷ [] }

abbrev streams : System
streams = registered accepted [] session (register_screen_cancel accepted.harness session)

reach_accepted : Leads start accepted
reach_accepted = next here (accept_step start session refl)

reach_streams : Leads start streams
unfolding registered register_screen_cancel
reach_streams = next reach_accepted (register_step accepted [] [] session refl)

streams_phase : streams.phase 0 ≡ streaming session
unfolding registered register_screen_cancel at_entry
streams_phase = refl

kill-target_example :
    (killing streams session (obey_kill_locked streams.harness session [] (pos 9))).receiver
    ≡ cancelling session (some 0)
kill-target_example = kill-target streams reach_streams session [] (pos 9) 0 streams_phase

session_scoped : session ≢ transport_kill_session_id
session_scoped h = let e : Path ℕ 1 14 = ap length h in absurd (omega (arith, e))

session_named : length session ≢ 0
session_named h = let e : Path ℕ 1 0 = h in absurd (omega (arith, e))

accepted-IsLate_example :
    Step accepted (killed_state accepted session (codes "operator") (pos 9))
    × ((t : System) × Leads (killed_state accepted session (codes "operator") (pos 9)) t
        × IsLate accepted session [] t)
accepted-IsLate_example =
    accepted-IsLate accepted reach_accepted refl [] [] session refl session_scoped session_named
      refl (codes "operator") (pos 9)

-- The KILL cancels the view; the view ends; only then the acknowledgement is sent.
abbrev killed : System
killed = killing streams session (obey_kill_locked streams.harness session [] (pos 9))

abbrev cancelled : System
cancelled = record killed {
  harness = cancel (some 0) killed.harness;
  receiver = taking session (some 0);
}

abbrev waits : System
waits = taken cancelled session (some 0) (take_kill_ack_ready cancelled.harness session)

abbrev left : System
left = record waits {
  harness = unregister_locked waits.harness session 0;
  phase = at_entry 0 leaving waits.phase;
}

abbrev ended : System
ended = record left { harness = close_done left.harness 0; phase = at_entry 0 finished left.phase }

abbrev ack : Ack
ack = record {
  session = session;
  target = some 0;
  ready = (take_kill_ack_ready cancelled.harness session).0;
}

abbrev acknowledged : System
acknowledged = record ended { waiting = []; sent = ack ∷ [] }

reach_waits : Leads start waits
unfolding killing obey_kill_locked registered register_screen_cancel put beq
reach_waits =
    next
      (next (next reach_streams (kill_step streams session [] (pos 9) refl session_scoped))
        (cancel_step killed session (some 0) refl))
      (take_step cancelled session (some 0) refl)

reach_acknowledged : Leads start acknowledged
unfolding killing obey_kill_locked registered register_screen_cancel put beq cancel taken
    take_kill_ack_ready or_closed ready_of unregister_locked is_entry close_done at_entry is_closed
reach_acknowledged =
    next (next (next reach_waits (leave_step waits 0 session refl)) (finish_step left 0 refl))
      (ack_step ended [] [] ack refl refl)

sent-IsOver_example : All (IsOver acknowledged.harness acknowledged.phase) acknowledged.sent
sent-IsOver_example = sent-IsOver acknowledged reach_acknowledged
