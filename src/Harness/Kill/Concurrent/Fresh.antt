-- ===== src/Harness/Kill/Concurrent/Fresh.antt =====
-- No entry is cancelled before it is made: the numbers of cancelled entries lie below the next one.
use platform_agent.Prelude.{
  ℕ, ◌+◌, ◌<◌, ◌≡◌, inl, inr, refl, true, false, Bool-cases, Option, none, some, arith,
}
use platform_agent.Bytes.{Bytes}
use platform_agent.Harness.Kill.{
  Harness, obey_kill_locked, cancel, unregister_locked, close_done, take_kill_ack_ready, is_entry,
}
use platform_agent.Harness.Kill.Concurrent.{
  Phase, Receiver, receiving, cancelling, taking, System, start, registered, killing, taken, Step,
  accept_step, register_step, leave_step, finish_step, kill_step, cancel_step, take_step, ack_step,
  Leads, here, next,
}
use platform_agent.Harness.Kill.Concurrent.Tabled.{
  IsTabled, Entered, register-cases, at_entry-cases,
}
use platform_agent.Harness.Kill.Concurrent.Sound.{IsSound, Leads-IsSound, unregister-cancelled}

abbrev IsMade : ℕ → Option ℕ → Type 0
IsMade bound none = Unit
IsMade bound (some e) = e < bound

abbrev Named : ℕ → Receiver → Type 0
Named bound receiving = Unit
Named bound (cancelling session entry) = IsMade bound entry
Named bound (taking session entry) = IsMade bound entry

-- The entries that are cancelled, or are about to be, have been made.
record IsFresh (h : Harness) (r : Receiver) : Type 0 where
  marks : (e : ℕ) → h.cancelled e ≡ true → e < h.next_entry
  named : Named h.next_entry r

IsMade-more : (n : ℕ) (o : Option ℕ) → IsMade n o → IsMade (n + 1) o
IsMade-more n none h = tt
IsMade-more n (some e) h = omega (arith, h)

Named-more : (n : ℕ) (r : Receiver) → Named n r → Named (n + 1) r
Named-more n receiving h = tt
Named-more n (cancelling session entry) h = IsMade-more n entry h
Named-more n (taking session entry) h = IsMade-more n entry h

Entered-IsFresh :
    (h : Harness) (r : Receiver) (session : Bytes) → IsFresh h r → IsFresh (Entered h session) r
Entered-IsFresh h r session f = record {
  marks = λ e c. omega (arith, f.marks e c);
  named = Named-more h.next_entry r f.named;
}

unregister-next :
    (h : Harness) (session : Bytes) (e : ℕ)
    → (unregister_locked h session e).next_entry ≡ h.next_entry
unfolding unregister_locked
unregister-next h session e = elim (Bool-cases (is_entry (h.screen_cancels session) e)) [
  | inl own ↦ rw own refl
  | inr other ↦ rw other refl
]

-- An entry in the table has been made.
table-IsMade :
    (h : Harness) (phase : ℕ → Phase) (session : Bytes) (o : Option ℕ)
    → IsTabled h phase
    → h.screen_cancels session ≡ o
    → IsMade h.next_entry o
table-IsMade h phase session none t q = tt
table-IsMade h phase session (some e) t q = ground (arith, t.owned e session q, t.unused e)

cancel-IsFresh :
    (h : Harness) (session : Bytes) (entry : Option ℕ)
    → IsFresh h (cancelling session entry)
    → IsFresh (cancel entry h) (taking session entry)
unfolding cancel
cancel-IsFresh h session none f = record { marks = f.marks; named = tt }
cancel-IsFresh h session (some e) f = record {
  marks = λ k c. ground (arith, at_entry-cases h.cancelled e true k, f.marks k, f.named);
  named = f.named;
}

Step-IsFresh :
    {s t : System}
    → Step s t
    → IsSound s
    → IsFresh s.harness s.receiver
    → IsFresh t.harness t.receiver
unfolding registered killing obey_kill_locked taken take_kill_ack_ready close_done
Step-IsFresh (accept_step s session p) i f = f
Step-IsFresh (register_step s before after session p) i f =
    elim (register-cases s.harness session) [
      | inl refused ↦ rw refused f
      | inr (free, entered) ↦ rw entered (Entered-IsFresh s.harness s.receiver session f)
    ]
Step-IsFresh (leave_step s e session p) i f = record {
  marks = λ k c.
      let held = rw (unregister-cancelled s.harness session e) at c in
      rw (unregister-next s.harness session e) (f.marks k held);
  named = rw (unregister-next s.harness session e) f.named;
}
Step-IsFresh (finish_step s e p) i f = record { marks = f.marks; named = f.named }
Step-IsFresh (kill_step s session reason now p scoped) i f = record {
  marks = f.marks;
  named = table-IsMade s.harness s.phase session (s.harness.screen_cancels session) i.tabled refl;
}
Step-IsFresh (cancel_step s session entry p) i f =
    cancel-IsFresh s.harness session entry (rw p at f)
Step-IsFresh (take_step s session entry p) i f = record { marks = f.marks; named = tt }
Step-IsFresh (ack_step s before after a p closed) i f = f

Leads-IsFresh : {s : System} → Leads start s → IsFresh s.harness s.receiver
Leads-IsFresh here = record { marks = λ e c. absurd cc; named = tt }
Leads-IsFresh (next before step) = Step-IsFresh step (Leads-IsSound before) (Leads-IsFresh before)

-- In every state that is reached, the next entry is not cancelled.
pub next_entry-fresh :
    (s : System) → Leads start s → s.harness.cancelled s.harness.next_entry ≡ false
next_entry-fresh s reach = elim (Bool-cases (s.harness.cancelled s.harness.next_entry)) [
  | inl c ↦ absurd (omega (arith, (Leads-IsFresh reach).marks s.harness.next_entry c))
  | inr c ↦ c
]
