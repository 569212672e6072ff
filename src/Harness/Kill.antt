-- ===== src/Harness/Kill.antt =====
-- internal/remotebridge/harness/harness.go: the tables of killed sessions and of running screen views,
-- which share a mutex. A map is a function to an option; a screen view's entry, a pointer in the
-- source, is a number, and the store tells which entries are cancelled and which are done.
pub mod Concurrent
use platform_agent.Prelude.{
  ℕ, zero, suc, ◌+◌, Bool, true, false, Option, none, some, List, [], ◌∷◌, length, ◌==◌,
  if◌then◌else◌,
}
use platform_agent.Prelude.Int.{ℤ, pos, add64}
use platform_agent.Bytes.{Bytes, beq}
use platform_agent.Bytes.Text.{codes}

abbrev pub transport_kill_session_id : Bytes
transport_kill_session_id = codes "transport-kill"

pub record SessionState : Type 0 where
  pub killed : Bool
  pub kill_reason : Bytes
  pub killed_at : ℤ

-- A channel to wait on: closed from the start, or closed when an entry is done.
pub data Ready : Type 0 where
  closed_screen_stop : Ready
  done_of : ℕ → Ready

pub record Harness : Type 0 where
  pub sessions : Bytes → Option SessionState
  pub screen_cancels : Bytes → Option ℕ
  pub kill_ack_ready : Bytes → Option Ready
  pub kills : ℤ
  pub next_entry : ℕ
  pub cancelled : ℕ → Bool
  pub done : ℕ → Bool

abbrev pub no_sessions : Harness
no_sessions = record {
  sessions = λ id. none;
  screen_cancels = λ id. none;
  kill_ack_ready = λ id. none;
  kills = pos 0;
  next_entry = 0;
  cancelled = λ e. false;
  done = λ e. false;
}

-- A map with the value of one key set, or with the key deleted.
unfoldable pub put {ℓ} : {A : Type ℓ} → Bytes → Option A → (Bytes → Option A) → Bytes → Option A
put key value table k = if beq k key then value else table k

unfoldable pub at_entry {ℓ} : {A : Type ℓ} → ℕ → A → (ℕ → A) → ℕ → A
at_entry e a store k = if k == e then a else store k

unfoldable pub ready_of : Option ℕ → Ready
ready_of none = closed_screen_stop
ready_of (some e) = done_of e

-- The part of obeyKill that holds the mutex, and the entry that it cancels after.
unfoldable pub obey_kill_locked : Harness → Bytes → Bytes → ℤ → Harness × Option ℕ
obey_kill_locked h session reason now =
    let entry = h.screen_cancels session in
    (
      record h {
        sessions =
            put session
              (some (record {
                killed = true;
                kill_reason = if length reason == 0 then codes "killed" else reason;
                killed_at = now;
              }))
              h.sessions;
        kills = add64 h.kills (pos 1);
        kill_ack_ready =
            if beq session transport_kill_session_id
            then h.kill_ack_ready
            else put session (some (ready_of entry)) h.kill_ack_ready;
      },
      entry,
    )

unfoldable pub cancel : Option ℕ → Harness → Harness
cancel none h = h
cancel (some e) h = record h { cancelled = at_entry e true h.cancelled }

unfoldable pub obey_kill : Harness → Bytes → Bytes → ℤ → Harness
obey_kill h session reason now =
    let (locked, entry) = obey_kill_locked h session reason now in cancel entry locked

-- A new entry, unless the session is blank or has one.
unfoldable pub register_screen_cancel : Harness → Bytes → Option ℕ × Harness
register_screen_cancel h session =
    if length session == 0 then (none, h) else elim (h.screen_cancels session) [
      | some e ↦ (none, h)
      | none ↦ (
        some h.next_entry,
        record h {
          screen_cancels = put session (some h.next_entry) h.screen_cancels;
          next_entry = h.next_entry + 1;
        },
      )
    ]

unfoldable pub is_entry : Option ℕ → ℕ → Bool
is_entry none e = false
is_entry (some k) e = k == e

-- The part of unregisterScreenCancel that holds the mutex: the entry is deleted if it is still there.
unfoldable pub unregister_locked : Harness → Bytes → ℕ → Harness
unregister_locked h session e =
    if is_entry (h.screen_cancels session) e
    then record h { screen_cancels = put session none h.screen_cancels }
    else h

unfoldable pub close_done : Harness → ℕ → Harness
close_done h e = record h { done = at_entry e true h.done }

unfoldable pub unregister_screen_cancel : Harness → Bytes → Option ℕ → Harness
unregister_screen_cancel h session none = h
unregister_screen_cancel h session (some e) =
    if length session == 0 then h else close_done (unregister_locked h session e) e

unfoldable pub or_closed : Option Ready → Ready
or_closed none = closed_screen_stop
or_closed (some r) = r

unfoldable pub take_kill_ack_ready : Harness → Bytes → Ready × Harness
take_kill_ack_ready h session = (
  or_closed (h.kill_ack_ready session),
  record h { kill_ack_ready = put session none h.kill_ack_ready },
)

-- A receive on the channel returns.
unfoldable pub is_closed : Harness → Ready → Bool
is_closed h closed_screen_stop = true
is_closed h (done_of e) = h.done e
