-- ===== src/Operation/Gate/Admission.antt =====
-- When the gate admits an operation, and what each decision does to its state.
use platform_agent.Prelude.{
  ◌≤◌, ◌≡◌, ◌≢◌, ◌↔◌, refl, Bool, true, false, Option, none, some, length, arith,
}
use platform_agent.Prelude.Int.{ℤ, pos, ◌<ℤ◌}
use platform_agent.Bytes.{Bytes, beq, beq_iff}
use platform_agent.Operation.Permit.{OperationPermit}
use platform_agent.Operation.Command.{parse_command, is_empty}
use platform_agent.Operation.Verify.{Reason}
use platform_agent.Operation.Gate.{
  Authorizer, Decision, capability_constrained_pty, capability_view_only, max_command_line, advance,
  verified, command_hash, pty_steps, authorize, view_steps, authorize_view_only,
}

-- The authorizer's verify function accepts the permit.
pub record Verifies (a : Authorizer) (p : OperationPermit) (now : ℤ) : Type 0 where
  pub verify : OperationPermit → ℤ → Bool × Option Reason
  pub given : a.verify ≡ some verify
  pub accepts : (verify p now).0 ≡ true

-- What `advance` asks.
pub record IsNext (a : Authorizer) (p : OperationPermit) : Type 0 where
  pub positive : pos 0 <ℤ p.seq
  pub above : a.last_seq p.session_id <ℤ p.seq

advance-IsNext :
    (a : Authorizer) (p : OperationPermit) → (advance a p).0.allowed ≡ true → IsNext a p
unfolding advance
advance-IsNext a p h = ground arith

advance_of_IsNext :
    (a : Authorizer) (p : OperationPermit) → IsNext a p → (advance a p).0.allowed ≡ true
unfolding advance
advance_of_IsNext a p h = ground arith

verified_iff :
    (a : Authorizer) (p : OperationPermit) (now : ℤ) (next : Decision × Authorizer)
    → ((verified a p now next a.verify).0.allowed ≡ true)
      ↔ (Verifies a p now × (next.0.allowed ≡ true))
unfolding verified
verified_iff a p now next = (there a.verify refl, back)
  where
    there :
        (o : Option (OperationPermit → ℤ → Bool × Option Reason))
        → a.verify ≡ o
        → (verified a p now next o).0.allowed ≡ true
        → Verifies a p now × (next.0.allowed ≡ true)
    there none e h = cc
    there (some f) e h = (record { verify = f; given = e; accepts = ground arith }, ground arith)

    back :
        Verifies a p now × (next.0.allowed ≡ true)
        → (verified a p now next a.verify).0.allowed ≡ true
    back (v, h) = rw v.given (ground (arith, v.accepts))

module _ (sha256 : Bytes → Bytes) (unicode_lower : Bytes → Bytes) where
  -- All that the gate asks of a command.
  pub record IsAdmissible (a : Authorizer) (p : OperationPermit) (line : Bytes) (now : ℤ)
      : Type 0 where
    pub verifies : Verifies a p now
    pub capability : p.capability ≡ capability_constrained_pty
    pub bounded : length line ≤ max_command_line
    pub nonempty : is_empty (parse_command unicode_lower line) ≡ false
    pub bound_to :
        command_hash sha256 unicode_lower (parse_command unicode_lower line) ≡ p.command_hash
    pub next : IsNext a p

  record PtyTests (a : Authorizer) (p : OperationPermit) (line : Bytes) : Type 0 where
    capability : beq p.capability capability_constrained_pty ≡ true
    bounded : length line ≤ max_command_line
    nonempty : is_empty (parse_command unicode_lower line) ≡ false
    bound_to :
        beq (command_hash sha256 unicode_lower (parse_command unicode_lower line)) p.command_hash
        ≡ true
    next : (advance a p).0.allowed ≡ true

  PtyTests-of_allowed :
      (a : Authorizer) (p : OperationPermit) (line : Bytes)
      → (pty_steps sha256 unicode_lower a p line).0.allowed ≡ true
      → PtyTests a p line
  unfolding pty_steps
  PtyTests-of_allowed a p line h = ground arith

  allowed_of_PtyTests :
      (a : Authorizer) (p : OperationPermit) (line : Bytes)
      → PtyTests a p line
      → (pty_steps sha256 unicode_lower a p line).0.allowed ≡ true
  unfolding pty_steps
  allowed_of_PtyTests a p line h = ground arith

  -- The gate allows a command exactly when the permit verifies, grants the constrained terminal, and
  -- carries the hash of this command, which is not empty and comes from a line of at most 4096
  -- bytes, and the permit's sequence number is positive and above the session's last.
  pub authorize-IsAdmissible :
      (a : Authorizer) (p : OperationPermit) (line : Bytes) (now : ℤ)
      → ((authorize sha256 unicode_lower a p line now).0.allowed ≡ true) ↔ IsAdmissible a p line now
  unfolding authorize
  authorize-IsAdmissible a p line now = (there, back)
    where
      both :
          ((verified a p now (pty_steps sha256 unicode_lower a p line) a.verify).0.allowed ≡ true)
          ↔ (Verifies a p now × ((pty_steps sha256 unicode_lower a p line).0.allowed ≡ true))
      both = verified_iff a p now (pty_steps sha256 unicode_lower a p line)

      there :
          (verified a p now (pty_steps sha256 unicode_lower a p line) a.verify).0.allowed ≡ true
          → IsAdmissible a p line now
      there h =
          let (v, rest) = both.0 h in
          let t = PtyTests-of_allowed a p line rest in
          record {
            verifies = v;
            capability = (beq_iff _ _).0 t.capability;
            bounded = t.bounded;
            nonempty = t.nonempty;
            bound_to = (beq_iff _ _).0 t.bound_to;
            next = advance-IsNext a p t.next;
          }

      back :
          IsAdmissible a p line now
          → (verified a p now (pty_steps sha256 unicode_lower a p line) a.verify).0.allowed ≡ true
      back h = both.1 (
        h.verifies,
        allowed_of_PtyTests a p line (record {
          capability = (beq_iff _ _).1 h.capability;
          bounded = h.bounded;
          nonempty = h.nonempty;
          bound_to = (beq_iff _ _).1 h.bound_to;
          next = advance_of_IsNext a p h.next;
        }),
      )

-- All that the gate asks of a screen view.
pub record IsViewable (a : Authorizer) (p : OperationPermit) (now : ℤ) : Type 0 where
  pub verifies : Verifies a p now
  pub capability : p.capability ≡ capability_view_only
  pub no_command : length p.command_hash ≡ 0
  pub session : length p.session_id ≢ 0
  pub operation : length p.operation_id ≢ 0
  pub next : IsNext a p

view_tests :
    (a : Authorizer) (p : OperationPermit)
    → ((view_steps a p).0.allowed ≡ true) ↔ (
        (beq p.capability capability_view_only ≡ true)
        × (length p.command_hash ≡ 0)
        × (length p.session_id ≢ 0)
        × (length p.operation_id ≢ 0)
        × ((advance a p).0.allowed ≡ true))
unfolding view_steps
view_tests a p = (λ h. ground arith, λ h. ground arith)

-- The gate allows a screen view exactly when the permit verifies, grants the view, carries no
-- command hash, names its session and its operation, and its sequence number is positive and above
-- the session's last.
pub authorize_view_only-IsViewable :
    (a : Authorizer) (p : OperationPermit) (now : ℤ)
    → ((authorize_view_only a p now).0.allowed ≡ true) ↔ IsViewable a p now
unfolding authorize_view_only
authorize_view_only-IsViewable a p now = (there, back)
  where
    both :
        ((verified a p now (view_steps a p) a.verify).0.allowed ≡ true)
        ↔ (Verifies a p now × ((view_steps a p).0.allowed ≡ true))
    both = verified_iff a p now (view_steps a p)

    there : (verified a p now (view_steps a p) a.verify).0.allowed ≡ true → IsViewable a p now
    there h =
        let (v, rest) = both.0 h in
        let (capability, no_command, session, operation, next) = (view_tests a p).0 rest in
        record {
          verifies = v;
          capability = (beq_iff _ _).0 capability;
          no_command = no_command;
          session = session;
          operation = operation;
          next = advance-IsNext a p next;
        }

    back : IsViewable a p now → (verified a p now (view_steps a p) a.verify).0.allowed ≡ true
    back h = both.1 (
      h.verifies,
      (view_tests a p).1 (
        (beq_iff _ _).1 h.capability,
        h.no_command,
        h.session,
        h.operation,
        advance_of_IsNext a p h.next,
      ),
    )
