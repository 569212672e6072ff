-- ===== src/Harness/Kill/Concurrent/Tabled.antt =====
-- The table of screen views holds exactly the dispatches that stream, at most one for a session.
use platform_agent.Prelude.{
  ℕ, ◌+◌, ◌≤◌, ◌≡◌, ◌≢◌, ◌⊎◌, inl, inr, refl, sym, ◌∙◌, true, false, Option, none, some, arith,
  ==_iff, Bool-cases, Option-cases, ◌==◌, length,
}
use platform_agent.Bytes.{Bytes, beq, beq_iff, beq_refl, eq_of_beq}
use platform_agent.Harness.Kill.{
  Harness, put, at_entry, is_entry, register_screen_cancel, unregister_locked, close_done,
}
use platform_agent.Harness.Kill.Concurrent.{Phase, unborn, streaming, leaving, finished}

beq_apart : (k key : Bytes) → beq k key ≡ false → k ≢ key
beq_apart k key e q = differ (sym ((beq_iff k key).1 q) ∙ e)
  where
    differ : true ≢ false
    differ h = cc

module _ {ℓ} {A : Type ℓ} (table : Bytes → Option A) (key : Bytes) (value : Option A) where
  pub put_here : put key value table key ≡ value
  unfolding put
  put_here = rw (beq_refl key) refl

  pub put-cases :
      (k : Bytes)
      → ((k ≡ key) × (put key value table k ≡ value))
        ⊎ ((k ≢ key) × (put key value table k ≡ table k))
  unfolding put
  put-cases k = elim (Bool-cases (beq k key)) [
    | inl e ↦ inl (eq_of_beq k key e, rw e refl)
    | inr e ↦ inr (λ q. absurd (beq_apart k key e q), rw e refl)
  ]

number_apart : (k e : ℕ) → (k == e) ≡ false → k ≢ e
number_apart k e h q = ground arith

module _ {ℓ} {A : Type ℓ} (store : ℕ → A) (e : ℕ) (a : A) where
  pub at_entry-cases :
      (k : ℕ)
      → ((k ≡ e) × (at_entry e a store k ≡ a)) ⊎ ((k ≢ e) × (at_entry e a store k ≡ store k))
  unfolding at_entry
  at_entry-cases k = elim (Bool-cases (k == e)) [
    | inl same ↦ inl ((==_iff k e).0 same, rw same refl)
    | inr other ↦ inr (λ q. absurd (number_apart k e other q), rw other refl)
  ]

pub record IsTabled (h : Harness) (phase : ℕ → Phase) : Type 0 where
  pub held :
      (e : ℕ) (session : Bytes) → phase e ≡ streaming session → h.screen_cancels session ≡ some e
  pub owned :
      (e : ℕ) (session : Bytes) → h.screen_cancels session ≡ some e → phase e ≡ streaming session
  pub unused : (e : ℕ) → h.next_entry ≤ e → phase e ≡ unborn
  pub closed : (e : ℕ) → h.done e ≡ true → phase e ≡ finished

abbrev pub Entered : Harness → Bytes → Harness
Entered h session = record h {
  screen_cancels = put session (some h.next_entry) h.screen_cancels;
  next_entry = h.next_entry + 1;
}

pub register-cases :
    (h : Harness) (session : Bytes)
    → (register_screen_cancel h session ≡ (none, h))
      ⊎ ((h.screen_cancels session ≡ none)
          × (register_screen_cancel h session ≡ (some h.next_entry, Entered h session)))
unfolding register_screen_cancel
register-cases h session = elim (Bool-cases (length session == 0)) [
  | inl blank ↦ inl (rw blank refl)
  | inr text ↦ elim (Option-cases (h.screen_cancels session)) [
    | inl free ↦ inr (free, rw (text, free) refl)
    | inr (e, busy) ↦ inl (rw (text, busy) refl)
  ]
]

pub Entered-IsTabled :
    (h : Harness) (phase : ℕ → Phase) (session : Bytes)
    → IsTabled h phase
    → h.screen_cancels session ≡ none
    → IsTabled (Entered h session) (at_entry h.next_entry (streaming session) phase)
Entered-IsTabled h phase session t free = record {
  held = λ e other q.
      ground (arith, free, phase_at e, table_at other, t.held e other, t.held e session);
  owned =
      λ e other q. ground (arith, free, phase_at e, table_at other, t.owned e other, t.unused e);
  unused = λ e q. ground (arith, phase_at e, t.unused e);
  closed = λ e q. ground (arith, phase_at e, t.closed e, t.unused e);
}
  where
    phase_at :
        (e : ℕ)
        → ((e ≡ h.next_entry)
            × (at_entry h.next_entry (streaming session) phase e ≡ streaming session))
          ⊎ ((e ≢ h.next_entry) × (at_entry h.next_entry (streaming session) phase e ≡ phase e))
    phase_at e = at_entry-cases phase h.next_entry (streaming session) e

    table_at :
        (k : Bytes)
        → ((k ≡ session) × (put session (some h.next_entry) h.screen_cancels k ≡ some h.next_entry))
          ⊎ ((k ≢ session)
              × (put session (some h.next_entry) h.screen_cancels k ≡ h.screen_cancels k))
    table_at k = put-cases h.screen_cancels session (some h.next_entry) k

-- A dispatch deletes its own entry, and no other.
pub leave-IsTabled :
    (h : Harness) (phase : ℕ → Phase) (session : Bytes) (e : ℕ)
    → IsTabled h phase
    → phase e ≡ streaming session
    → IsTabled (unregister_locked h session e) (at_entry e leaving phase)
unfolding unregister_locked is_entry
leave-IsTabled h phase session e t s =
    rw (t.held e session s, h_same)
      (record {
        held = λ k other q.
            ground (arith, phase_at k, table_at other, t.held k other, t.held e session);
        owned = λ k other q.
            ground (arith, s, phase_at k, table_at other, t.owned k other, t.held e session);
        unused = λ k q. ground (arith, s, phase_at k, t.unused k);
        closed = λ k q. ground (arith, s, phase_at k, t.closed k);
      })
  where
    h_same : (e == e) ≡ true
    h_same = (==_iff e e).1 refl

    phase_at :
        (k : ℕ)
        → ((k ≡ e) × (at_entry e leaving phase k ≡ leaving))
          ⊎ ((k ≢ e) × (at_entry e leaving phase k ≡ phase k))
    phase_at k = at_entry-cases phase e leaving k

    table_at :
        (k : Bytes)
        → ((k ≡ session) × (put session none h.screen_cancels k ≡ none))
          ⊎ ((k ≢ session) × (put session none h.screen_cancels k ≡ h.screen_cancels k))
    table_at k = put-cases h.screen_cancels session none k

pub finish-IsTabled :
    (h : Harness) (phase : ℕ → Phase) (e : ℕ)
    → IsTabled h phase
    → phase e ≡ leaving
    → IsTabled (close_done h e) (at_entry e finished phase)
unfolding close_done
finish-IsTabled h phase e t s = record {
  held = λ k other q. ground (arith, at_entry-cases phase e finished k, t.held k other);
  owned = λ k other q. ground (arith, s, at_entry-cases phase e finished k, t.owned k other);
  unused = λ k q. ground (arith, s, at_entry-cases phase e finished k, t.unused k);
  closed = λ k q.
      ground (arith, at_entry-cases phase e finished k, at_entry-cases h.done e true k, t.closed k);
}
