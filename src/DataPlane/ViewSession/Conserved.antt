-- ===== src/DataPlane/ViewSession/Conserved.antt =====
-- The counters of a screen-view session account for every frame it has admitted.
use platform_agent.Prelude.{
  ℕ, ◌+◌, ◌%◌, ◌^◌, ◌≤◌, ◌<◌, ◌≡◌, inl, inr, refl, true, false, ◌||◌, List, [], ◌∷◌, length, drop,
  arith, length-append, length-drop, Bool-cases, if◌then◌else◌, ◌==◌, ltb,
}
use platform_agent.Prelude.Int.{ℤ, pos, leb_ℤ, pos_part}
use platform_agent.Bytes.{Bytes}
use platform_agent.DataPlane.ViewSession.{
  ViewSession, Call, offer_call, drain_call, ready_call, not_required_call, activate_call,
  deactivate_call, abort_call, new_view_session, admit, offer, take_frames, drain, flush,
  set_recording_ready, set_recording_not_required, activate, deactivate, abort, step, run,
}

-- At 64 bits, the admitted frames are those drained, flushed, evicted and still queued.
pub record IsConserved (s : ViewSession) : Type 0 where
  pub balance :
      (s.drained + s.flushed + s.dropped_backpres + length s.queue) % 2 ^ 64 ≡ s.queued % 2 ^ 64
  -- There is room, so that an eviction has a frame to evict.
  pub roomy : 0 < s.cap

flush-IsConserved : (s : ViewSession) → IsConserved s → IsConserved (flush s)
unfolding flush
flush-IsConserved s h = elim (Bool-cases (ltb 0 (length s.queue))) [
  | inl q ↦ simp q (record { balance = omega (arith, h.balance); roomy = h.roomy })
  | inr q ↦ simp q h
]

offer-IsConserved : (s : ViewSession) (f : Bytes) → IsConserved s → IsConserved (offer s f).1
unfolding offer admit
offer-IsConserved s f h = record {
  balance = ground (
    arith,
    h.balance,
    h.roomy,
    length-append s.queue (f ∷ []),
    length-append (drop 1 s.queue) (f ∷ []),
    length-drop 1 s.queue,
  );
  roomy = ground (arith, h.roomy);
}

take_frames-IsConserved :
    (s : ViewSession) (n : ℕ) → n ≤ length s.queue → IsConserved s → IsConserved (take_frames s n).1
unfolding take_frames
take_frames-IsConserved s n k h = record {
  balance = omega (arith, h.balance, length-drop n s.queue, k);
  roomy = h.roomy;
}

clip_le : (m n : ℕ) → (if ltb m n then m else n) ≤ m
clip_le m n = ground arith

drain-IsConserved : (s : ViewSession) (n : ℤ) → IsConserved s → IsConserved (drain s n).1
unfolding drain
drain-IsConserved s n h = elim (Bool-cases s.aborted) [
  | inl q ↦ simp q h
  | inr q ↦ elim (Bool-cases (leb_ℤ n (pos 0) || (length s.queue == 0))) [
    | inl r ↦ simp (q, r) h
    | inr r ↦ simp (q, r) (take_frames-IsConserved s _ (clip_le (length s.queue) (pos_part n)) h)
  ]
]

same-IsConserved :
    (s t : ViewSession)
    → t.drained ≡ s.drained
    → t.flushed ≡ s.flushed
    → t.dropped_backpres ≡ s.dropped_backpres
    → t.queue ≡ s.queue
    → t.queued ≡ s.queued
    → t.cap ≡ s.cap
    → IsConserved s
    → IsConserved t
same-IsConserved s t a b c d e g h = record {
  balance = rw (a, b, c, d, e) h.balance;
  roomy = rw g h.roomy;
}

step-IsConserved : (s : ViewSession) (c : Call) → IsConserved s → IsConserved (step s c)
unfolding step set_recording_ready set_recording_not_required activate deactivate abort
step-IsConserved s (offer_call f) h = offer-IsConserved s f h
step-IsConserved s (drain_call n) h = drain-IsConserved s n h
step-IsConserved s (ready_call true) h = same-IsConserved s _ refl refl refl refl refl refl h
step-IsConserved s (ready_call false) h =
    flush-IsConserved _ (same-IsConserved s _ refl refl refl refl refl refl h)
step-IsConserved s (not_required_call true) h = same-IsConserved s _ refl refl refl refl refl refl h
step-IsConserved s (not_required_call false) h =
    flush-IsConserved _ (same-IsConserved s _ refl refl refl refl refl refl h)
step-IsConserved s activate_call h = same-IsConserved s _ refl refl refl refl refl refl h
step-IsConserved s deactivate_call h =
    flush-IsConserved _ (same-IsConserved s _ refl refl refl refl refl refl h)
step-IsConserved s abort_call h = flush-IsConserved _ (elim (Bool-cases s.aborted) [
  | inl q ↦ simp q h
  | inr q ↦ simp q (same-IsConserved s _ refl refl refl refl refl refl h)
])

run-IsConserved_from : (s : ViewSession) (cs : List Call) → IsConserved s → IsConserved (run s cs)
unfolding run
run-IsConserved_from s [] h = h
run-IsConserved_from s (c ∷ cs) h = run-IsConserved_from (step s c) cs (step-IsConserved s c h)

new_view_session-IsConserved : (cap : ℤ) → IsConserved (new_view_session cap)
unfolding new_view_session
new_view_session-IsConserved cap = record { balance = refl; roomy = ground arith }

-- After any calls on a new session, the count of admitted frames is that of the drained, the
-- flushed, the evicted and the waiting ones together, at 64 bits.
pub run-IsConserved : (cap : ℤ) (cs : List Call) → IsConserved (run (new_view_session cap) cs)
run-IsConserved cap cs =
    run-IsConserved_from (new_view_session cap) cs (new_view_session-IsConserved cap)
