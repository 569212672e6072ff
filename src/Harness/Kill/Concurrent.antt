-- ===== src/Harness/Kill/Concurrent.antt =====
-- The receive loop of the CONTROL stream and the screen views that run beside it, step by step.
-- connectOnce of harness.go and dispatchScreenView of dispatch.go call the tables' operations; where a
-- function works outside its critical section, that is a step of its own.
pub mod Tabled
pub mod Sound
pub mod Acknowledged
pub mod Fresh
pub mod Late
use mathlib.Core.List.{Mem}
use platform_agent.Prelude.{ℕ, Bool, true, false, Option, none, some, List, [], ◌∷◌, ◌++◌, ◌≡◌, ◌≢◌}
use platform_agent.Prelude.Int.{ℤ}
use platform_agent.Bytes.{Bytes}
use platform_agent.Harness.Kill.{
  Harness, no_sessions, Ready, obey_kill_locked, cancel, register_screen_cancel, unregister_locked,
  close_done, take_kill_ack_ready, is_closed, at_entry, transport_kill_session_id,
}

-- Where the dispatch of an entry is. `leaving`: its entry is deleted, its channel is still open.
pub data Phase : Type 0 where
  unborn leaving finished : Phase
  streaming : Bytes → Phase

-- Where the receive loop is in the handling of a session's KILL. The entry that the KILL found is
-- carried along, to be named in statements.
pub data Receiver : Type 0 where
  receiving : Receiver
  cancelling taking : Bytes → Option ℕ → Receiver

-- An acknowledgement that waits for its channel, with the entry that its KILL found.
pub record Ack : Type 0 where
  pub session : Bytes
  pub target : Option ℕ
  pub ready : Ready

pub record System : Type 0 where
  pub harness : Harness
  pub receiver : Receiver
  pub spawned : List Bytes  -- dispatches that are accepted and have not registered yet
  pub phase : ℕ → Phase
  pub waiting : List Ack
  pub sent : List Ack

abbrev pub start : System
start = record {
  harness = no_sessions;
  receiver = receiving;
  spawned = [];
  phase = λ e. unborn;
  waiting = [];
  sent = [];
}

-- The dispatch that registers under a session: a new entry streams; one that is refused returns.
unfoldable pub registered : System → List Bytes → Bytes → Option ℕ × Harness → System
registered s rest session (none, h) = record s { spawned = rest; harness = h }
registered s rest session (some e, h) = record s {
  spawned = rest;
  harness = h;
  phase = at_entry e (streaming session) s.phase;
}

unfoldable pub killing : System → Bytes → Harness × Option ℕ → System
killing s session (h, entry) = record s { harness = h; receiver = cancelling session entry }

unfoldable pub taken : System → Bytes → Option ℕ → Ready × Harness → System
taken s session entry (ready, h) = record s {
  harness = h;
  receiver = receiving;
  waiting = record { session = session; target = entry; ready = ready } ∷ s.waiting;
}

pub data Step : System → System → Type 0 where
  -- A VIEW_ONLY permit arrives: its dispatch starts in a goroutine of its own.
  accept_step :
      (s : System) (session : Bytes)
      → s.receiver ≡ receiving
      → Step s (record s { spawned = session ∷ s.spawned })
  register_step :
      (s : System) (before after : List Bytes) (session : Bytes)
      → s.spawned ≡ before ++ (session ∷ after)
      → Step s (registered s (before ++ after) session (register_screen_cancel s.harness session))
  -- A dispatch ends, by itself or by its cancel: its deferred clean-up runs in two steps.
  leave_step :
      (s : System) (e : ℕ) (session : Bytes)
      → s.phase e ≡ streaming session
      → Step s (record s {
        harness = unregister_locked s.harness session e;
        phase = at_entry e leaving s.phase;
      })
  finish_step :
      (s : System) (e : ℕ)
      → s.phase e ≡ leaving
      → Step s (record s { harness = close_done s.harness e; phase = at_entry e finished s.phase })
  -- A KILL of a session arrives.
  kill_step :
      (s : System) (session reason : Bytes) (now : ℤ)
      → s.receiver ≡ receiving
      → session ≢ transport_kill_session_id
      → Step s (killing s session (obey_kill_locked s.harness session reason now))
  cancel_step :
      (s : System) (session : Bytes) (entry : Option ℕ)
      → s.receiver ≡ cancelling session entry
      → Step s (record s { harness = cancel entry s.harness; receiver = taking session entry })
  take_step :
      (s : System) (session : Bytes) (entry : Option ℕ)
      → s.receiver ≡ taking session entry
      → Step s (taken s session entry (take_kill_ack_ready s.harness session))
  ack_step :
      (s : System) (before after : List Ack) (a : Ack)
      → s.waiting ≡ before ++ (a ∷ after)
      → is_closed s.harness a.ready ≡ true
      → Step s (record s { waiting = before ++ after; sent = a ∷ s.sent })

-- The states that a state leads to.
pub data Leads (s : System) : System → Type 0 where
  here : Leads s s
  next : {t u : System} → Leads s t → Step t u → Leads s u
