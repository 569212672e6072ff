-- ===== src/Operation/Gate/Replay.antt =====
-- The replay guard: what the gate's decisions do to its state, over any sequence of requests for
-- commands and screen views.
use platform_agent.Prelude.{
  ◌≡◌, ◌⊎◌, inl, inr, refl, ap, ◌∙◌, subst, Bool, true, false, Option, none, some, List, [], ◌∷◌,
  arith, All, Bool-cases, if◌then◌else◌,
}
use platform_agent.Prelude.Int.{ℤ, ◌<ℤ◌, ◌≤ℤ◌}
use platform_agent.Bytes.{Bytes, beq, beq_iff, beq_refl}
use platform_agent.Operation.Permit.{OperationPermit}
use platform_agent.Operation.Verify.{Reason}
use platform_agent.Operation.Gate.{
  Authorizer, Decision, set_seq, advance, verified, pty_steps, authorize, view_steps,
  authorize_view_only,
}

-- What one call of the gate did: it refused and changed nothing, or it allowed a permit whose
-- number is above the session's last, and recorded that number.
abbrev pub Outcome : Authorizer → OperationPermit → Decision × Authorizer → Type 0
Outcome a p r =
    ((r.0.allowed ≡ false) × (r.1 ≡ a))
    ⊎ ((r.0.allowed ≡ true)
        × (a.last_seq p.session_id <ℤ p.seq)
        × (r.1 ≡ record a { last_seq = set_seq p.session_id p.seq a.last_seq }))

advance-Outcome : (a : Authorizer) (p : OperationPermit) → Outcome a p (advance a p)
unfolding advance
advance-Outcome a p = ground arith

verified-Outcome :
    (a : Authorizer) (p : OperationPermit) (now : ℤ) (next : Decision × Authorizer)
    (verify : Option (OperationPermit → ℤ → Bool × Option Reason))
    → Outcome a p next
    → Outcome a p (verified a p now next verify)
unfolding verified
verified-Outcome a p now next none h = inl (refl, refl)
verified-Outcome a p now next (some f) h = elim (Bool-cases (f p now).0) [
  | inl e ↦ rw e h
  | inr e ↦ rw e (inl (refl, refl))
]

view_steps-Outcome : (a : Authorizer) (p : OperationPermit) → Outcome a p (view_steps a p)
unfolding view_steps
view_steps-Outcome a p = ground (arith, advance-Outcome a p)

-- A request to the gate.
pub data Request : Type 0 where
  pty : OperationPermit → Bytes → ℤ → Request
  view : OperationPermit → ℤ → Request

abbrev pub permit_of : Request → OperationPermit
permit_of (pty p line now) = p
permit_of (view p now) = p

module _ (sha256 : Bytes → Bytes) (unicode_lower : Bytes → Bytes) where
  pty_steps-Outcome :
      (a : Authorizer) (p : OperationPermit) (line : Bytes)
      → Outcome a p (pty_steps sha256 unicode_lower a p line)
  unfolding pty_steps
  pty_steps-Outcome a p line = ground (arith, advance-Outcome a p)

  unfoldable pub serve : Authorizer → Request → Decision × Authorizer
  serve a (pty p line now) = authorize sha256 unicode_lower a p line now
  serve a (view p now) = authorize_view_only a p now

  -- Every call of the gate either refuses and leaves the state as it was, or allows a permit whose
  -- sequence number is above the last one of its session, and records that number and nothing else.
  pub serve-Outcome : (a : Authorizer) (r : Request) → Outcome a (permit_of r) (serve a r)
  unfolding serve authorize authorize_view_only
  serve-Outcome a (pty p line now) =
      verified-Outcome a p now _ a.verify (pty_steps-Outcome a p line)
  serve-Outcome a (view p now) = verified-Outcome a p now _ a.verify (view_steps-Outcome a p)

  -- The session and number of each permit that a sequence of requests has accepted, in order.
  unfoldable pub accepted : Authorizer → List Request → List (Bytes × ℤ)
  accepted a [] = []
  accepted a (r ∷ rs) =
      let (d, a') = serve a r in
      let rest = accepted a' rs in
      let p = permit_of r in if d.allowed then (p.session_id, p.seq) ∷ rest else rest

-- Every later entry of the same session has a larger number.
abbrev pub Increasing : List (Bytes × ℤ) → Type 0
Increasing [] = Unit
Increasing (e ∷ es) = All (λ f. f.0 ≡ e.0 → e.1 <ℤ f.1) es × Increasing es

-- Every entry is above what the state holds for its session.
abbrev Above : (Bytes → ℤ) → List (Bytes × ℤ) → Type 0
Above m = All (λ e. m e.0 <ℤ e.1)

Above-mono :
    (m n : Bytes → ℤ) (es : List (Bytes × ℤ)) → ((j : Bytes) → m j ≤ℤ n j) → Above n es → Above m es
Above-mono m n [] h k = tt
Above-mono m n (e ∷ es) h k = (ground (arith, h e.0, k.0), Above-mono m n es h k.1)

set_seq_grows :
    (s : Bytes) (v : ℤ) (m : Bytes → ℤ) → m s <ℤ v → (j : Bytes) → m j ≤ℤ set_seq s v m j
unfolding set_seq
set_seq_grows s v m h j = elim (Bool-cases (beq j s)) [
  | inl e ↦ rw e (rw ((beq_iff j s).0 e) (omega arith))
  | inr e ↦ rw e (omega arith)
]

set_seq_self : (s : Bytes) (v : ℤ) (m : Bytes → ℤ) → set_seq s v m s ≡ v
unfolding set_seq
set_seq_self s v m = rw (beq_refl s)

-- What is above the state after an entry was recorded, is above the entry in its session.
later_of_Above :
    (s : Bytes) (v : ℤ) (m : Bytes → ℤ) (es : List (Bytes × ℤ))
    → Above (set_seq s v m) es
    → All (λ f. f.0 ≡ s → v <ℤ f.1) es
later_of_Above s v m [] h = tt
later_of_Above s v m (e ∷ es) h = (
  λ q. subst (λ x. x <ℤ e.1) (ap (set_seq s v m) q ∙ set_seq_self s v m) h.0,
  later_of_Above s v m es h.1,
)

-- The log after one more call.
abbrev push : OperationPermit → Decision → List (Bytes × ℤ) → List (Bytes × ℤ)
push p d es = if d.allowed then (p.session_id, p.seq) ∷ es else es

abbrev Ordered : Authorizer → List (Bytes × ℤ) → Type 0
Ordered a es = Above a.last_seq es × Increasing es

-- A call puts its entry in front of a log that is ordered from the state after it.
push-Ordered :
    (a : Authorizer) (p : OperationPermit) (r : Decision × Authorizer) (es : List (Bytes × ℤ))
    → Outcome a p r
    → Ordered r.1 es
    → Ordered a (push p r.0 es)
push-Ordered a p r es (inl (denied, same)) h = rw denied (subst (λ b. Ordered b es) same h)
push-Ordered a p r es (inr (allowed, above, now)) h =
    let (higher, increasing) = subst (λ b. Ordered b es) now h in
    rw allowed (
      (
        above,
        Above-mono a.last_seq (set_seq p.session_id p.seq a.last_seq) es
            (set_seq_grows p.session_id p.seq a.last_seq above) higher,
      ),
      (later_of_Above p.session_id p.seq a.last_seq es higher, increasing),
    )

module _ (sha256 : Bytes → Bytes) (unicode_lower : Bytes → Bytes) where
  accepted-Ordered :
      (a : Authorizer) (rs : List Request) → Ordered a (accepted sha256 unicode_lower a rs)
  unfolding accepted
  accepted-Ordered a [] = (tt, tt)
  accepted-Ordered a (r ∷ rs) =
      push-Ordered a (permit_of r) (serve sha256 unicode_lower a r) _
        (serve-Outcome sha256 unicode_lower a r)
        (accepted-Ordered (serve sha256 unicode_lower a r).1 rs)

  -- Over any sequence of commands and screen views, the numbers that the gate accepts for one session
  -- increase strictly: no permit is accepted twice, not even once for each capability, and none
  -- after a later one.
  pub accepted-Increasing :
      (a : Authorizer) (rs : List Request) → Increasing (accepted sha256 unicode_lower a rs)
  accepted-Increasing a rs = (accepted-Ordered a rs).1
