-- ===== src/PtyExec/Executor.antt =====
-- internal/remotebridge/ptyexec/executor.go and the start of ptyop.go: a command runs only once the
-- gate and the allowlist have passed it. The runner is a parameter: what it is handed is logged.
pub mod Admitted
use platform_agent.Prelude.{
  ℕ, Bool, true, false, not, Option, none, some, List, [], ◌∷◌, length, if◌then◌else◌, ◌==◌, Result,
  ok, err,
}
use platform_agent.Prelude.Int.{ℤ}
use platform_agent.Bytes.{Bytes}
use platform_agent.Operation.Permit.{OperationPermit}
use platform_agent.Operation.Command.{parse_command}
use platform_agent.Operation.Verify.{Reason}
use platform_agent.Operation.Gate.{Decision, Authorizer, authorize}
use platform_agent.PtyExec.Plan.{ExecPlan, AllowRule, PlanError, build_exec_plan}

pub record ExecResult : Type 0 where
  pub output : Bytes
  pub exit_code : ℕ

-- A denial carries the gate's reason, except for an executor that lacks its parts.
pub data ExecError : Type 0 where
  not_authorized : Option Reason → ExecError
  plan_rejected : PlanError → ExecError
  run_failed : ℕ → ExecError
  conpty_empty_output : ExecError

-- What the runner returns: output, exit code, and an error's number if there is one.
abbrev pub Runner : Type 0
Runner = ExecPlan → ℤ → ℤ → ExecResult × Option ℕ

pub record Executor : Type 0 where
  pub authz : Option Authorizer
  pub allowlist : List (Bytes × AllowRule)
  pub cols : ℤ
  pub rows : ℤ
  pub run : Option Runner

-- The result and error of a call, the executor it leaves, and the plans it ran.
pub record Execution : Type 0 where
  pub result : ExecResult
  pub error : Option ExecError
  pub after : Executor
  pub spawned : List ExecPlan

abbrev pub no_result : ExecResult
no_result = record { output = []; exit_code = 0 }

abbrev pub refused : Executor → ExecError → Execution
refused e x = record { result = no_result; error = some x; after = e; spawned = [] }

unfoldable pub new_executor_with_authorizer :
    Runner → Option Authorizer → List (Bytes × AllowRule) → ℤ → ℤ → Executor
new_executor_with_authorizer default_runner authz allowlist cols rows = record {
  authz = authz;
  allowlist = allowlist;
  cols = cols;
  rows = rows;
  run = some default_runner;
}

-- A run with no error and no output is an error too.
unfoldable pub run_error : ExecResult × Option ℕ → Option ExecError
run_error (r, some n) = some (run_failed n)
run_error (r, none) = if length r.output == 0 then some conpty_empty_output else none

unfoldable pub ran : Executor → ExecPlan → ExecResult × Option ℕ → Execution
ran e plan r = record { result = r.0; error = run_error r; after = e; spawned = plan ∷ [] }

unfoldable pub with_plan : Executor → Runner → Result PlanError ExecPlan → Execution
with_plan e run (err x) = refused e (plan_rejected x)
with_plan e run (ok plan) = ran e plan (run plan e.cols e.rows)

module _ (sha256 : Bytes → Bytes) (unicode_lower : Bytes → Bytes) where
  unfoldable pub decided : Executor → Runner → Bytes → Decision × Authorizer → Execution
  decided e run line (d, authz) =
      let after : Executor = record e { authz = some authz } in
      if not d.allowed
      then refused after (not_authorized d.reason)
      else with_plan after run (build_exec_plan (parse_command unicode_lower line) e.allowlist)

  unfoldable pub execute_with :
      Option Authorizer → Option Runner → Executor → OperationPermit → Bytes → ℤ → Execution
  execute_with (some authz) (some run) e p line now =
      decided e run line (authorize sha256 unicode_lower authz p line now)
  execute_with _ _ e p line now = refused e (not_authorized none)

  unfoldable pub execute : Executor → OperationPermit → Bytes → ℤ → Execution
  execute e p line now = execute_with e.authz e.run e p line now
