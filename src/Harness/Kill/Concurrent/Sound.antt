-- ===== src/Harness/Kill/Concurrent/Sound.antt =====
-- The invariant of the tables, the receive loop and the acknowledgements, kept by every step.
use platform_agent.Prelude.{
  ℕ, ◌≡◌, ◌≢◌, inl, inr, refl, ap, Bool, true, Bool-cases, Option, none, some, List, ◌∷◌, ◌++◌, All,
  All-weaken, All-middle, arith,
}
use platform_agent.Prelude.Int.{ℤ}
use platform_agent.Bytes.{Bytes, beq_differs}
use platform_agent.Harness.Kill.{
  Harness, Ready, ready_of, put, at_entry, obey_kill_locked, cancel, register_screen_cancel,
  unregister_locked, close_done, take_kill_ack_ready, or_closed, is_closed, is_entry,
  transport_kill_session_id,
}
use platform_agent.Harness.Kill.Concurrent.{
  Phase, streaming, leaving, finished, Receiver, receiving, cancelling, taking, Ack, System, start,
  registered, killing, taken, Step, accept_step, register_step, leave_step, finish_step, kill_step,
  cancel_step, take_step, ack_step, Leads, here, next,
}
use platform_agent.Harness.Kill.Concurrent.Tabled.{
  IsTabled, Entered, register-cases, Entered-IsTabled, leave-IsTabled, finish-IsTabled, put_here,
  at_entry-cases,
}

abbrev pub Cancelled : Harness → Option ℕ → Type 0
Cancelled h none = Unit
Cancelled h (some e) = h.cancelled e ≡ true

abbrev pub Finished : (ℕ → Phase) → Option ℕ → Type 0
Finished phase none = Unit
Finished phase (some e) = phase e ≡ finished

abbrev pub IsPending : Harness → Receiver → Type 0
IsPending h receiving = Unit
IsPending h (cancelling session entry) = h.kill_ack_ready session ≡ some (ready_of entry)
IsPending h (taking session entry) =
    (h.kill_ack_ready session ≡ some (ready_of entry)) × Cancelled h entry

abbrev pub IsWaiting : Harness → Ack → Type 0
IsWaiting h a = (a.ready ≡ ready_of a.target) × Cancelled h a.target

abbrev pub IsOver : Harness → (ℕ → Phase) → Ack → Type 0
IsOver h phase a = Cancelled h a.target × Finished phase a.target

pub record IsSound (s : System) : Type 0 where
  pub tabled : IsTabled s.harness s.phase
  pub pending : IsPending s.harness s.receiver
  pub waiting : All (IsWaiting s.harness) s.waiting
  pub over : All (IsOver s.harness s.phase) s.sent

-- No step takes a cancel back or restarts a finished dispatch.
record IsKept (h k : Harness) (phase moved : ℕ → Phase) : Type 0 where
  cancels : (e : ℕ) → h.cancelled e ≡ true → k.cancelled e ≡ true
  finishes : (e : ℕ) → phase e ≡ finished → moved e ≡ finished

module _ (h k : Harness) (phase moved : ℕ → Phase) (kept : IsKept h k phase moved) where
  Cancelled-kept : (o : Option ℕ) → Cancelled h o → Cancelled k o
  Cancelled-kept none c = tt
  Cancelled-kept (some e) c = kept.cancels e c

  Finished-kept : (o : Option ℕ) → Finished phase o → Finished moved o
  Finished-kept none f = tt
  Finished-kept (some e) f = kept.finishes e f

  IsWaiting-kept : (acks : List Ack) → All (IsWaiting h) acks → All (IsWaiting k) acks
  IsWaiting-kept acks = All-weaken (λ a w. (w.0, Cancelled-kept a.target w.1)) acks

  IsOver-kept : (acks : List Ack) → All (IsOver h phase) acks → All (IsOver k moved) acks
  IsOver-kept acks =
      All-weaken (λ a w. (Cancelled-kept a.target w.0, Finished-kept a.target w.1)) acks

  IsPending-kept :
      (r : Receiver) → k.kill_ack_ready ≡ h.kill_ack_ready → IsPending h r → IsPending k r
  IsPending-kept receiving same p = tt
  IsPending-kept (cancelling session entry) same p = rw same p
  IsPending-kept (taking session entry) same p = (rw same p.0, Cancelled-kept entry p.1)

start-IsSound : IsSound start
start-IsSound = record {
  tabled = record {
    held = λ e session h. cc;
    owned = λ e session h. cc;
    unused = λ e h. refl;
    closed = λ e h. cc;
  };
  pending = tt;
  waiting = tt;
  over = tt;
}

-- A step that changes the tables and the phases, and neither the loop nor the acknowledgements.
beside :
    (s : System) (rest : List Bytes) (h : Harness) (moved : ℕ → Phase)
    → IsSound s
    → IsKept s.harness h s.phase moved
    → h.kill_ack_ready ≡ s.harness.kill_ack_ready
    → IsTabled h moved
    → IsSound (record s { spawned = rest; harness = h; phase = moved })
beside s rest h moved i kept same t = record {
  tabled = t;
  pending = IsPending-kept s.harness h s.phase moved kept s.receiver same i.pending;
  waiting = IsWaiting-kept s.harness h s.phase moved kept s.waiting i.waiting;
  over = IsOver-kept s.harness h s.phase moved kept s.sent i.over;
}

pub unregister-cancelled :
    (h : Harness) (session : Bytes) (e : ℕ)
    → (unregister_locked h session e).cancelled ≡ h.cancelled
unfolding unregister_locked
unregister-cancelled h session e = elim (Bool-cases (is_entry (h.screen_cancels session) e)) [
  | inl own ↦ rw own refl
  | inr other ↦ rw other refl
]

unregister-ready :
    (h : Harness) (session : Bytes) (e : ℕ)
    → (unregister_locked h session e).kill_ack_ready ≡ h.kill_ack_ready
unfolding unregister_locked
unregister-ready h session e = elim (Bool-cases (is_entry (h.screen_cancels session) e)) [
  | inl own ↦ rw own refl
  | inr other ↦ rw other refl
]

register_kept :
    (s : System) (rest : List Bytes) (session : Bytes)
    → IsSound s
    → IsSound (registered s rest session (register_screen_cancel s.harness session))
unfolding registered
register_kept s rest session i = elim (register-cases s.harness session) [
  | inl refused ↦ rw refused (
      beside s rest s.harness s.phase i (record { cancels = λ e c. c; finishes = λ e f. f }) refl
        i.tabled)
  | inr (free, entered) ↦ rw entered (
      beside s rest (Entered s.harness session) _ i
        (record {
          cancels = λ e c. c;
          finishes = λ e f. ground (
            arith,
            i.tabled.unused e,
            at_entry-cases s.phase s.harness.next_entry (streaming session) e,
          );
        })
        refl (Entered-IsTabled s.harness s.phase session i.tabled free))
]

leave_kept :
    (s : System) (e : ℕ) (session : Bytes)
    → s.phase e ≡ streaming session
    → IsSound s
    → IsSound (record s {
      harness = unregister_locked s.harness session e;
      phase = at_entry e leaving s.phase;
    })
leave_kept s e session p i =
    beside s s.spawned (unregister_locked s.harness session e) (at_entry e leaving s.phase) i
      (record {
        cancels = λ k c. rw (unregister-cancelled s.harness session e) c;
        finishes = λ k f. ground (arith, p, at_entry-cases s.phase e leaving k);
      })
      (unregister-ready s.harness session e) (leave-IsTabled s.harness s.phase session e i.tabled p)

finish_kept :
    (s : System) (e : ℕ)
    → s.phase e ≡ leaving
    → IsSound s
    → IsSound (record s { harness = close_done s.harness e; phase = at_entry e finished s.phase })
unfolding close_done
finish_kept s e p i =
    beside s s.spawned (close_done s.harness e) (at_entry e finished s.phase) i
      (record {
        cancels = λ k c. c;
        finishes = λ k f. ground (arith, at_entry-cases s.phase e finished k);
      })
      refl (finish-IsTabled s.harness s.phase e i.tabled p)

kill_kept :
    (s : System) (session reason : Bytes) (now : ℤ)
    → session ≢ transport_kill_session_id
    → IsSound s
    → IsSound (killing s session (obey_kill_locked s.harness session reason now))
unfolding killing obey_kill_locked
kill_kept s session reason now scoped i = record {
  tabled = record {
    held = i.tabled.held;
    owned = i.tabled.owned;
    unused = i.tabled.unused;
    closed = i.tabled.closed;
  };
  pending =
      rw (beq_differs session transport_kill_session_id scoped)
        (put_here s.harness.kill_ack_ready session _);
  waiting = All-weaken (λ a w. w) s.waiting i.waiting;
  over = All-weaken (λ a w. w) s.sent i.over;
}

same_tables :
    {h : Harness} {phase : ℕ → Phase}
    → IsTabled h phase
    → (c : ℕ → Bool) (r : Bytes → Option Ready)
    → IsTabled (record h { cancelled = c; kill_ack_ready = r }) phase
same_tables t c r = record { held = t.held; owned = t.owned; unused = t.unused; closed = t.closed }

cancel_kept :
    (s : System) (session : Bytes) (entry : Option ℕ)
    → s.receiver ≡ cancelling session entry
    → IsSound s
    → IsSound (record s { harness = cancel entry s.harness; receiver = taking session entry })
unfolding cancel
cancel_kept s session none p i =
    let ready : IsPending s.harness (cancelling session none) = rw p at i.pending in
    record { tabled = i.tabled; pending = (ready, tt); waiting = i.waiting; over = i.over }
cancel_kept s session (some e) p i =
    let ready : IsPending s.harness (cancelling session (some e)) = rw p at i.pending in
    record {
      tabled = same_tables i.tabled _ _;
      pending = (ready, marked e);
      waiting = IsWaiting-kept s.harness after s.phase s.phase kept s.waiting i.waiting;
      over = IsOver-kept s.harness after s.phase s.phase kept s.sent i.over;
    }
  where
    after : Harness
    after = record s.harness { cancelled = at_entry e true s.harness.cancelled }

    marked : (k : ℕ) → at_entry k true s.harness.cancelled k ≡ true
    marked k = ground (arith, at_entry-cases s.harness.cancelled k true k)

    kept : IsKept s.harness after s.phase s.phase
    kept = record {
      cancels = λ k c. ground (arith, at_entry-cases s.harness.cancelled e true k);
      finishes = λ k f. f;
    }

take_kept :
    (s : System) (session : Bytes) (entry : Option ℕ)
    → s.receiver ≡ taking session entry
    → IsSound s
    → IsSound (taken s session entry (take_kill_ack_ready s.harness session))
unfolding taken take_kill_ack_ready or_closed
take_kept s session entry p i =
    let (ready, cancelled) : IsPending s.harness (taking session entry) = rw p at i.pending in
    record {
      tabled = same_tables i.tabled s.harness.cancelled _;
      pending = tt;
      waiting = (
        (ap or_closed ready, still entry cancelled),
        IsWaiting-kept s.harness after s.phase s.phase kept s.waiting i.waiting,
      );
      over = IsOver-kept s.harness after s.phase s.phase kept s.sent i.over;
    }
  where
    after : Harness
    after = record s.harness { kill_ack_ready = put session none s.harness.kill_ack_ready }

    kept : IsKept s.harness after s.phase s.phase
    kept = record { cancels = λ k c. c; finishes = λ k f. f }

    still : (o : Option ℕ) → Cancelled s.harness o → Cancelled after o
    still o c = Cancelled-kept s.harness after s.phase s.phase kept o c

-- The channel of an entry closes when its dispatch has finished.
Finished-of_closed :
    (h : Harness) (phase : ℕ → Phase) (o : Option ℕ)
    → IsTabled h phase
    → is_closed h (ready_of o) ≡ true
    → Finished phase o
unfolding is_closed ready_of
Finished-of_closed h phase none t c = tt
Finished-of_closed h phase (some e) t c = t.closed e c

ack_kept :
    (s : System) (before after : List Ack) (a : Ack)
    → s.waiting ≡ before ++ (a ∷ after)
    → is_closed s.harness a.ready ≡ true
    → IsSound s
    → IsSound (record s { waiting = before ++ after; sent = a ∷ s.sent })
ack_kept s before after a p closed i =
    let waits : All (IsWaiting s.harness) (before ++ (a ∷ after)) = rw p at i.waiting in
    let ((same, cancelled), rest) = All-middle (IsWaiting s.harness) before after a waits in
    let shut : is_closed s.harness (ready_of a.target) ≡ true = rw same at closed in
    record {
      tabled = i.tabled;
      pending = i.pending;
      waiting = rest;
      over = ((cancelled, Finished-of_closed s.harness s.phase a.target i.tabled shut), i.over);
    }

Step-IsSound : {s t : System} → Step s t → IsSound s → IsSound t
Step-IsSound (accept_step s session p) i = record {
  tabled = i.tabled;
  pending = i.pending;
  waiting = i.waiting;
  over = i.over;
}
Step-IsSound (register_step s before after session p) i =
    register_kept s (before ++ after) session i
Step-IsSound (leave_step s e session p) i = leave_kept s e session p i
Step-IsSound (finish_step s e p) i = finish_kept s e p i
Step-IsSound (kill_step s session reason now p scoped) i = kill_kept s session reason now scoped i
Step-IsSound (cancel_step s session entry p) i = cancel_kept s session entry p i
Step-IsSound (take_step s session entry p) i = take_kept s session entry p i
Step-IsSound (ack_step s before after a p closed) i = ack_kept s before after a p closed i

pub Leads-IsSound : {s : System} → Leads start s → IsSound s
Leads-IsSound here = start-IsSound
Leads-IsSound (next before step) = Step-IsSound step (Leads-IsSound before)
