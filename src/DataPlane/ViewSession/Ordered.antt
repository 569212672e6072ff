-- ===== src/DataPlane/ViewSession/Ordered.antt =====
-- What a screen-view session hands to its sender, against what it was offered.
use platform_agent.Prelude.{
  ℕ, zero, suc, ◌≡◌, inl, inr, refl, sym, subst, true, false, ◌||◌, List, [], ◌∷◌, ◌++◌, length,
  drop, arith, append_assoc, take-append-drop, Bool-cases, ◌==◌, ltb, leb,
}
use platform_agent.Prelude.Int.{ℤ, pos, leb_ℤ}
use platform_agent.Bytes.{Bytes}
use platform_agent.DataPlane.ViewSession.{
  ViewSession, Call, offer_call, drain_call, ready_call, not_required_call, activate_call,
  deactivate_call, abort_call, new_view_session, can_send, admit, offer, take_frames, drain, flush,
  set_recording_ready, set_recording_not_required, activate, deactivate, abort, step, sent, run,
  egress,
}

-- The first list is the second one with some elements left out.
pub data Within : List Bytes → List Bytes → Type 0 where
  done : Within [] []
  keep : (x : Bytes) {xs ys : List Bytes} → Within xs ys → Within (x ∷ xs) (x ∷ ys)
  skip : (y : Bytes) {xs ys : List Bytes} → Within xs ys → Within xs (y ∷ ys)

pub Within-self : (xs : List Bytes) → Within xs xs
Within-self [] = done
Within-self (x ∷ xs) = keep x (Within-self xs)

Within-nil : (ys : List Bytes) → Within [] ys
Within-nil [] = done
Within-nil (y ∷ ys) = skip y (Within-nil ys)

pub Within-trans : {xs ys zs : List Bytes} → Within xs ys → Within ys zs → Within xs zs
Within-trans h (skip z k) = skip z (Within-trans h k)
Within-trans done done = done
Within-trans (keep x h) (keep _ k) = keep x (Within-trans h k)
Within-trans (skip x h) (keep _ k) = skip x (Within-trans h k)

pub Within-append :
    {xs ys us vs : List Bytes} → Within xs ys → Within us vs → Within (xs ++ us) (ys ++ vs)
Within-append done k = k
Within-append (keep x h) k = keep x (Within-append h k)
Within-append (skip y h) k = skip y (Within-append h k)

pub Within-front : (xs ys : List Bytes) → Within xs (xs ++ ys)
Within-front [] ys = Within-nil ys
Within-front (x ∷ xs) ys = keep x (Within-front xs ys)

Within-drop : (n : ℕ) (xs : List Bytes) → Within (drop n xs) xs
Within-drop zero xs = Within-self xs
Within-drop (suc n) [] = done
Within-drop (suc n) (x ∷ xs) = skip x (Within-drop n xs)

-- The payloads that a call, or calls, offer.
abbrev pub offered_by : Call → List Bytes
offered_by (offer_call f) = f ∷ []
offered_by _ = []

abbrev pub offered : List Call → List Bytes
offered [] = []
offered (c ∷ cs) = offered_by c ++ offered cs

flush-Within : (s : ViewSession) → Within (flush s).queue s.queue
unfolding flush
flush-Within s = elim (Bool-cases (ltb 0 (length s.queue))) [
  | inl q ↦ simp q (Within-nil s.queue)
  | inr q ↦ simp q (Within-self s.queue)
]

flushed-Within : (s t : ViewSession) → t.queue ≡ s.queue → Within (flush t).queue (s.queue ++ [])
flushed-Within s t e =
    Within-trans (flush-Within t)
      (subst (λ q. Within q (s.queue ++ [])) (sym e) (Within-front s.queue []))

pub offer-Within : (s : ViewSession) (f : Bytes) → Within (offer s f).1.queue (s.queue ++ (f ∷ []))
unfolding offer admit
offer-Within s f = elim (Bool-cases (can_send s)) [
  | inl q ↦ elim (Bool-cases (leb s.cap (length s.queue))) [
    | inl r ↦ simp (q, r) (Within-append (Within-drop 1 s.queue) (Within-self (f ∷ [])))
    | inr r ↦ simp (q, r) (Within-self (s.queue ++ (f ∷ [])))
  ]
  | inr q ↦ simp q (Within-front s.queue (f ∷ []))
]

pub drain-Within :
    (s : ViewSession) (n : ℤ) → Within ((drain s n).0 ++ (drain s n).1.queue) (s.queue ++ [])
unfolding drain take_frames
drain-Within s n = elim (Bool-cases s.aborted) [
  | inl q ↦ simp q (Within-front s.queue [])
  | inr q ↦ elim (Bool-cases (leb_ℤ n (pos 0) || (length s.queue == 0))) [
    | inl r ↦ simp (q, r) (Within-front s.queue [])
    | inr r ↦
        simp (q, r)
          (subst (λ x. Within x (s.queue ++ [])) (sym (take-append-drop _ s.queue))
            (Within-front s.queue []))
  ]
]

pub abort-Within : (s : ViewSession) → Within (abort s).queue (s.queue ++ [])
unfolding abort
abort-Within s = flushed-Within s _ (ground arith)

step-Within :
    (s : ViewSession) (c : Call) → Within (sent s c ++ (step s c).queue) (s.queue ++ offered_by c)
unfolding step sent set_recording_ready set_recording_not_required activate deactivate abort
step-Within s (offer_call f) = offer-Within s f
step-Within s (drain_call n) = drain-Within s n
step-Within s (ready_call true) = Within-front s.queue []
step-Within s (ready_call false) = flushed-Within s _ refl
step-Within s (not_required_call true) = Within-front s.queue []
step-Within s (not_required_call false) = flushed-Within s _ refl
step-Within s activate_call = Within-front s.queue []
step-Within s deactivate_call = flushed-Within s _ refl
step-Within s abort_call = flushed-Within s _ (ground arith)

run-Within :
    (s : ViewSession) (cs : List Call)
    → Within (egress s cs ++ (run s cs).queue) (s.queue ++ offered cs)
unfolding egress run
run-Within s [] = Within-front s.queue []
run-Within s (c ∷ cs) =
    let now = Within-append (step-Within s c) (Within-self (offered cs)) in
    let later = Within-append (Within-self (sent s c)) (run-Within (step s c) cs) in
    subst (λ x. Within x (s.queue ++ (offered_by c ++ offered cs)))
      (sym (append_assoc (sent s c) (egress (step s c) cs) (run (step s c) cs).queue))
      (Within-trans later (
        subst (λ x. Within x (s.queue ++ (offered_by c ++ offered cs)))
          (append_assoc (sent s c) (step s c).queue (offered cs))
          (subst (Within ((sent s c ++ (step s c).queue) ++ offered cs))
            (append_assoc s.queue (offered_by c) (offered cs)) now)))

-- Over any calls on a new session, the frames handed to the sender, followed by those that wait, are
-- the offered frames with some left out: in the order of the offers, none twice and none made up.
pub egress-Within :
    (cap : ℤ) (cs : List Call)
    → Within
        (egress (new_view_session cap) cs ++ (run (new_view_session cap) cs).queue)
        (offered cs)
unfolding new_view_session
egress-Within cap cs = run-Within (new_view_session cap) cs
