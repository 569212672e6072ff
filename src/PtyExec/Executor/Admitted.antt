-- ===== src/PtyExec/Executor/Admitted.antt =====
-- What an executor runs.
use platform_agent.Prelude.{
  ◌≡◌, inl, inr, refl, true, Option, none, some, List, All, Result, ok, err, Bool-cases,
}
use platform_agent.Prelude.Int.{ℤ}
use platform_agent.Bytes.{Bytes}
use platform_agent.Operation.Permit.{OperationPermit}
use platform_agent.Operation.Command.{CanonicalCommand, parse_command}
use platform_agent.Operation.Gate.{Decision, Authorizer, authorize}
use platform_agent.Operation.Gate.Admission.{IsAdmissible, authorize-IsAdmissible}
use platform_agent.PtyExec.ArgPolicy.{lookup}
use platform_agent.PtyExec.Plan.{ExecPlan, AllowRule, PlanError}
use platform_agent.PtyExec.Plan.Allowed.{Follows, build_exec_plan-Follows}
use platform_agent.PtyExec.Executor.{
  Runner, Executor, with_plan, ran, decided, execute_with, execute,
}

-- The allowlist has a rule for the command, and the plan follows it.
abbrev pub IsListed : List (Bytes × AllowRule) → CanonicalCommand → ExecPlan → Type 0
IsListed allowlist cmd plan =
    (rule : AllowRule) × (lookup cmd.command_id allowlist ≡ some rule) × Follows cmd rule plan

module _ (sha256 : Bytes → Bytes) (unicode_lower : Bytes → Bytes) where
  -- The executor's gate admits the command, and the plan is one that its allowlist has for it.
  pub record IsAdmitted (e : Executor) (p : OperationPermit) (line : Bytes) (now : ℤ)
      (plan : ExecPlan) : Type 0 where
    pub authz : Authorizer
    pub given : e.authz ≡ some authz
    pub admissible : IsAdmissible sha256 unicode_lower authz p line now
    pub listed : IsListed e.allowlist (parse_command unicode_lower line) plan

  with_plan-All :
      (P : ExecPlan → Type 0) (e : Executor) (run : Runner) (r : Result PlanError ExecPlan)
      → ((plan : ExecPlan) → r ≡ ok plan → P plan)
      → All P (with_plan e run r).spawned
  unfolding with_plan ran
  with_plan-All P e run (err x) h = tt
  with_plan-All P e run (ok plan) h = (h plan refl, tt)

  decided-All :
      (P : ExecPlan → Type 0) (e : Executor) (run : Runner) (line : Bytes)
      (r : Decision × Authorizer)
      → ((plan : ExecPlan)
          → r.0.allowed ≡ true
          → IsListed e.allowlist (parse_command unicode_lower line) plan
          → P plan)
      → All P (decided sha256 unicode_lower e run line r).spawned
  unfolding decided
  decided-All P e run line (d, a) h = elim (Bool-cases d.allowed) [
    | inl q ↦ rw q (
        with_plan-All P _ run _ (λ plan built.
          h plan q
            (build_exec_plan-Follows (parse_command unicode_lower line) e.allowlist plan built).1))
    | inr q ↦ rw q tt
  ]

  execute_with-IsAdmitted :
      (authz : Option Authorizer) (run : Option Runner) (e : Executor) (p : OperationPermit)
      (line : Bytes) (now : ℤ)
      → e.authz ≡ authz
      → All
          (IsAdmitted e p line now)
          (execute_with sha256 unicode_lower authz run e p line now).spawned
  unfolding execute_with
  execute_with-IsAdmitted none none e p line now q = tt
  execute_with-IsAdmitted none (some run) e p line now q = tt
  execute_with-IsAdmitted (some authz) none e p line now q = tt
  execute_with-IsAdmitted (some authz) (some run) e p line now q =
      decided-All (IsAdmitted e p line now) e run line
        (authorize sha256 unicode_lower authz p line now)
        (λ plan allowed listed. record {
          authz = authz;
          given = q;
          admissible = (authorize-IsAdmissible sha256 unicode_lower authz p line now).0 allowed;
          listed = listed;
        })

  -- Every process that an executor starts has been admitted by its operation gate for this permit,
  -- line and time, and its plan follows the rule that the allowlist has for the line's command.
  pub execute-IsAdmitted :
      (e : Executor) (p : OperationPermit) (line : Bytes) (now : ℤ)
      → All (IsAdmitted e p line now) (execute sha256 unicode_lower e p line now).spawned
  unfolding execute
  execute-IsAdmitted e p line now = execute_with-IsAdmitted e.authz e.run e p line now refl
