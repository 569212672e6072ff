-- ===== src/DataPlane/ViewSession/Gated.antt =====
-- The gate of a screen-view session, over every sequence of its calls.
use platform_agent.Prelude.{
  ℕ, ◌≤◌, ◌<◌, ◌≡◌, inl, inr, refl, Bool, true, false, not, ◌||◌, List, [], ◌∷◌, length, drop,
  arith, length-append, length-drop, Bool-cases, if◌then◌else◌, ◌==◌, ◌∙◌,
}
use platform_agent.Prelude.Int.{ℤ, pos, leb_ℤ}
use platform_agent.Bytes.{Bytes}
use platform_agent.DataPlane.ViewSession.{
  ViewSession, Call, offer_call, drain_call, ready_call, not_required_call, activate_call,
  deactivate_call, abort_call, new_view_session, can_send, admit, offer, take_frames, drain, flush,
  set_recording_ready, set_recording_not_required, activate, deactivate, abort, step, sent, run,
  egress,
}

-- No frame waits behind a shut gate, and the queue is within its bound.
pub record IsGated (s : ViewSession) : Type 0 where
  pub shut : can_send s ≡ false → length s.queue ≡ 0
  pub bounded : length s.queue ≤ s.cap
  pub roomy : 0 < s.cap

new_view_session-IsGated : (cap : ℤ) → IsGated (new_view_session cap)
unfolding new_view_session
new_view_session-IsGated cap = record {
  shut = λ h. refl;
  bounded = omega arith;
  roomy = ground arith;
}

flush-empty : (s : ViewSession) → length (flush s).queue ≡ 0
unfolding flush
flush-empty s = ground arith

flush-cap : (s : ViewSession) → (flush s).cap ≡ s.cap
unfolding flush
flush-cap s = ground arith

-- A flushed session is gated, whatever its gate.
flush-IsGated : (s : ViewSession) → 0 < s.cap → IsGated (flush s)
flush-IsGated s h = record {
  shut = λ _. flush-empty s;
  bounded = omega (arith, flush-empty s);
  roomy = omega (arith, h, flush-cap s);
}

offer-IsGated : (s : ViewSession) (f : Bytes) → IsGated s → IsGated (offer s f).1
unfolding offer admit can_send
offer-IsGated s f h = record {
  shut = λ e. ground (arith, h.shut);
  bounded = ground (
    arith,
    h.bounded,
    h.roomy,
    length-append s.queue (f ∷ []),
    length-append (drop 1 s.queue) (f ∷ []),
    length-drop 1 s.queue,
  );
  roomy = ground (arith, h.roomy);
}

take_frames-IsGated : (s : ViewSession) (n : ℕ) → IsGated s → IsGated (take_frames s n).1
unfolding take_frames can_send
take_frames-IsGated s n h = record {
  shut = λ e. omega (arith, h.shut e, length-drop n s.queue);
  bounded = omega (arith, h.bounded, length-drop n s.queue);
  roomy = h.roomy;
}

drain-IsGated : (s : ViewSession) (n : ℤ) → IsGated s → IsGated (drain s n).1
unfolding drain
drain-IsGated s n h = elim (Bool-cases s.aborted) [
  | inl q ↦ simp q h
  | inr q ↦ elim (Bool-cases (leb_ℤ n (pos 0) || (length s.queue == 0))) [
    | inl r ↦ simp (q, r) h
    | inr r ↦ simp (q, r) (take_frames-IsGated s _ h)
  ]
]

reset-IsGated :
    (s t : ViewSession) (b : Bool)
    → t.cap ≡ s.cap
    → t.queue ≡ s.queue
    → (b ≡ true → can_send t ≡ false → can_send s ≡ false)
    → IsGated s
    → IsGated (if not b then flush t else t)
reset-IsGated s t false c q k h = flush-IsGated t (omega (arith, c, h.roomy))
reset-IsGated s t true c q k h = record {
  shut = λ e. rw q (h.shut (k refl e));
  bounded = rw (q, c) h.bounded;
  roomy = rw c h.roomy;
}

abrupt-cap :
    (s : ViewSession) → (if not s.aborted then record s { aborted = true } else s).cap ≡ s.cap
abrupt-cap s = ground arith

step-IsGated : (s : ViewSession) (c : Call) → IsGated s → IsGated (step s c)
unfolding step set_recording_ready set_recording_not_required activate deactivate abort can_send
step-IsGated s (offer_call f) h = offer-IsGated s f h
step-IsGated s (drain_call n) h = drain-IsGated s n h
step-IsGated s (ready_call b) h = reset-IsGated s _ b refl refl (λ t e. ground arith) h
step-IsGated s (not_required_call b) h = reset-IsGated s _ b refl refl (λ t e. ground arith) h
step-IsGated s activate_call h = record {
  shut = λ e. h.shut (ground arith);
  bounded = h.bounded;
  roomy = h.roomy;
}
step-IsGated s deactivate_call h = flush-IsGated _ h.roomy
step-IsGated s abort_call h = flush-IsGated _ (omega (arith, abrupt-cap s, h.roomy))

run-IsGated_from : (s : ViewSession) (cs : List Call) → IsGated s → IsGated (run s cs)
unfolding run
run-IsGated_from s [] h = h
run-IsGated_from s (c ∷ cs) h = run-IsGated_from (step s c) cs (step-IsGated s c h)

-- After any calls on a new session, no frame waits behind a shut gate and the queue is within its
-- bound.
pub run-IsGated : (cap : ℤ) (cs : List Call) → IsGated (run (new_view_session cap) cs)
run-IsGated cap cs = run-IsGated_from (new_view_session cap) cs (new_view_session-IsGated cap)

flush-aborted : (s : ViewSession) → (flush s).aborted ≡ s.aborted
unfolding flush
flush-aborted s = ground arith

step-aborted : (s : ViewSession) (c : Call) → s.aborted ≡ true → (step s c).aborted ≡ true
unfolding step offer admit drain take_frames set_recording_ready set_recording_not_required activate
    deactivate abort
step-aborted s (offer_call f) h = ground arith
step-aborted s (drain_call n) h = ground arith
step-aborted s (ready_call true) h = h
step-aborted s (ready_call false) h = flush-aborted _ ∙ h
step-aborted s (not_required_call true) h = h
step-aborted s (not_required_call false) h = flush-aborted _ ∙ h
step-aborted s activate_call h = h
step-aborted s deactivate_call h = flush-aborted _ ∙ h
step-aborted s abort_call h = flush-aborted _ ∙ ground arith

sent_of_aborted : (s : ViewSession) (c : Call) → s.aborted ≡ true → sent s c ≡ []
unfolding sent drain
sent_of_aborted s (offer_call f) h = refl
sent_of_aborted s (drain_call n) h = rw h
sent_of_aborted s (ready_call b) h = refl
sent_of_aborted s (not_required_call b) h = refl
sent_of_aborted s activate_call h = refl
sent_of_aborted s deactivate_call h = refl
sent_of_aborted s abort_call h = refl

egress_of_aborted : (s : ViewSession) (cs : List Call) → s.aborted ≡ true → egress s cs ≡ []
unfolding egress
egress_of_aborted s [] h = refl
egress_of_aborted s (c ∷ cs) h =
    rw (sent_of_aborted s c h, egress_of_aborted (step s c) cs (step-aborted s c h))

abort-aborted : (s : ViewSession) → (abort s).aborted ≡ true
unfolding abort
abort-aborted s = flush-aborted _ ∙ ground arith

-- Once a session is aborted, in whatever state, it hands no frame to the sender, whatever calls
-- follow.
pub egress-abort : (s : ViewSession) (cs : List Call) → egress (abort s) cs ≡ []
egress-abort s cs = egress_of_aborted (abort s) cs (abort-aborted s)
