-- ===== src/Harness/Kill/Concurrent/Late.antt =====
-- A dispatch that has been accepted and has not registered yet is out of a KILL's reach.
use platform_agent.Prelude.{
  ℕ, ◌≡◌, ◌≢◌, refl, ap, true, false, none, some, List, [], ◌∷◌, ◌++◌, length, ◌==◌, arith,
}
use platform_agent.Prelude.Int.{ℤ}
use platform_agent.Bytes.{Bytes, beq_differs}
use platform_agent.Harness.Kill.{
  Harness, SessionState, ready_of, closed_screen_stop, at_entry, obey_kill_locked, cancel,
  register_screen_cancel, take_kill_ack_ready, transport_kill_session_id, is_closed, or_closed,
}
use platform_agent.Harness.Kill.Concurrent.{
  Phase, streaming, unborn, Step, start, receiving, cancelling, taking, Ack, System, registered,
  killing, taken, kill_step, cancel_step, take_step, ack_step, register_step, Leads, here, next,
}
use native.Mathlib.Nat.{le_refl}
use platform_agent.Harness.Kill.Concurrent.Fresh.{next_entry-fresh}
use platform_agent.Harness.Kill.Concurrent.Sound.{Leads-IsSound}
use platform_agent.Harness.Kill.Concurrent.Tabled.{put_here, Entered, at_entry-cases}

-- The session is killed and the KILL acknowledged, and the dispatch that was accepted before it, now
-- with the entry that was the next one, streams uncancelled. No cancel is under way.
pub record IsLate (before : System) (session : Bytes) (rest : List Bytes) (s : System)
    : Type 0 where
  pub idle : s.receiver ≡ receiving
  pub killed : (k : SessionState) × (s.harness.sessions session ≡ some k) × (k.killed ≡ true)
  pub acknowledged :
      (a : Ack) × (s.sent ≡ a ∷ before.sent) × ((a.session ≡ session) × (a.target ≡ none))
  pub started : s.spawned ≡ rest
  pub unborn_before : before.phase before.harness.next_entry ≡ unborn
  pub streams : s.phase before.harness.next_entry ≡ streaming session
  pub uncancelled : s.harness.cancelled before.harness.next_entry ≡ false
  pub no_more_waits : s.waiting ≡ before.waiting

registers :
    (h : Harness) (session : Bytes)
    → length session ≢ 0
    → h.screen_cancels session ≡ none
    → register_screen_cancel h session ≡ (some h.next_entry, Entered h session)
unfolding register_screen_cancel
registers h session named free =
    let text : (length session == 0) ≡ false = ground arith in rw (text, free) refl

at_entry-here : (phase : ℕ → Phase) (e : ℕ) (p : Phase) → at_entry e p phase e ≡ p
at_entry-here phase e p = ground (arith, at_entry-cases phase e p e)

module _ (s : System) (session reason : Bytes) (now : ℤ) where
  abbrev pub killed_state : System
  killed_state = killing s session (obey_kill_locked s.harness session reason now)

  abbrev cancelled_state : System
  cancelled_state = record killed_state {
    harness = cancel none killed_state.harness;
    receiver = taking session none;
  }

  abbrev taken_state : System
  taken_state =
      taken cancelled_state session none (take_kill_ack_ready cancelled_state.harness session)

  abbrev late_ack : Ack
  late_ack = record {
    session = session;
    target = none;
    ready = (take_kill_ack_ready cancelled_state.harness session).0;
  }

  abbrev acknowledged_state : System
  acknowledged_state = record taken_state { waiting = s.waiting; sent = late_ack ∷ s.sent }

  abbrev passed_state : List Bytes → System
  passed_state rest =
      registered acknowledged_state rest session
        (register_screen_cancel acknowledged_state.harness session)

  -- The KILL finds no entry, so its channel is closed from the start.
  late_ready :
      session ≢ transport_kill_session_id
      → s.harness.screen_cancels session ≡ none
      → late_ack.ready ≡ closed_screen_stop
  unfolding killing obey_kill_locked cancel take_kill_ack_ready or_closed ready_of
  late_ready scoped free =
      rw
        (
          beq_differs session transport_kill_session_id scoped,
          put_here s.harness.kill_ack_ready session
              (some (ready_of (s.harness.screen_cancels session))),
          free,
        )
        refl

  reaches_acknowledged :
      session ≢ transport_kill_session_id
      → s.harness.screen_cancels session ≡ none
      → Leads killed_state acknowledged_state
  unfolding killing obey_kill_locked taken is_closed
  reaches_acknowledged scoped free =
      next
        (next (next here (cancel_step killed_state session none (ap (cancelling session) free)))
          (take_step cancelled_state session none refl))
        (ack_step taken_state [] s.waiting late_ack refl
          (ap (is_closed taken_state.harness) (late_ready scoped free)))

  passed_state-IsLate :
      (rest : List Bytes)
      → Leads start s
      → length session ≢ 0
      → s.harness.screen_cancels session ≡ none
      → IsLate s session rest (passed_state rest)
  unfolding killing obey_kill_locked taken take_kill_ack_ready cancel registered
  passed_state-IsLate rest reach named free =
      rw (registers acknowledged_state.harness session named free) (record {
        idle = refl;
        killed = (_, put_here s.harness.sessions session _, refl);
        acknowledged = (late_ack, refl, (refl, refl));
        started = refl;
        unborn_before = (Leads-IsSound reach).tabled.unused s.harness.next_entry (le_refl _);
        streams = at_entry-here s.phase s.harness.next_entry (streaming session);
        uncancelled = next_entry-fresh s reach;
        no_more_waits = refl;
      })

-- In every reachable state with an idle receive loop, where a screen view of a session, which is not
-- blank and not the transport's own id, has been accepted and neither it nor another of that session has registered, any KILL of that session, whatever
-- its reason and time, lets the dispatch through: after it the system can reach a state in which
-- the session is killed, the broker has the acknowledgement, and that dispatch streams
-- uncancelled, with no cancel under way.
pub accepted-IsLate :
    (s : System)
    → Leads start s
    → s.receiver ≡ receiving
    → (before after : List Bytes) (session : Bytes) → s.spawned ≡ before ++ (session ∷ after)
    → session ≢ transport_kill_session_id
    → length session ≢ 0
    → s.harness.screen_cancels session ≡ none
    → (reason : Bytes) (now : ℤ)
    → Step s (killed_state s session reason now)
      × ((t : System) × Leads (killed_state s session reason now) t
          × IsLate s session (before ++ after) t)
unfolding killing obey_kill_locked taken
accepted-IsLate s reach idle before after session spawned scoped named free reason now = (
  kill_step s session reason now idle scoped,
  (
    passed_state s session reason now (before ++ after),
    next (reaches_acknowledged s session reason now scoped free)
        (register_step (acknowledged_state s session reason now) before after session spawned),
    passed_state-IsLate s session reason now (before ++ after) reach named free,
  ),
)
