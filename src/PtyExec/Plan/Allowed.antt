-- ===== src/PtyExec/Plan/Allowed.antt =====
-- What a plan is.
use platform_agent.Prelude.{
  ◌≡◌, refl, true, false, Option, none, some, List, arith, Result, ok, err,
}
use platform_agent.Bytes.{Bytes}
use platform_agent.Operation.Command.{CanonicalCommand, is_empty}
use platform_agent.PtyExec.ArgPolicy.{ArgError, lookup}
use platform_agent.PtyExec.CommandLine.{build_command_line}
use platform_agent.PtyExec.Plan.{
  ExecPlan, AllowRule, PlanError, is_windows_abs, check_args, plan_of, by_rule, build_exec_plan,
}

abbrev Passes : Option (List Bytes → Result ArgError (Unit {0})) → List Bytes → Type 0
Passes none args = Unit
Passes (some policy) args = policy args ≡ ok tt

-- The plan follows the rule for the command.
pub record Follows (cmd : CanonicalCommand) (rule : AllowRule) (plan : ExecPlan) : Type 0 where
  pub absolute : is_windows_abs rule.exe_path ≡ true
  pub passes : Passes rule.arg_policy cmd.argv
  pub command_id : plan.command_id ≡ cmd.command_id
  pub exe_path : plan.exe_path ≡ rule.exe_path
  pub args : plan.args ≡ cmd.argv
  pub command_line : plan.command_line ≡ build_command_line rule.exe_path cmd.argv

Passes-of_check :
    (o : Option (List Bytes → Result ArgError (Unit {0}))) (args : List Bytes)
    → check_args o args ≡ ok tt
    → Passes o args
unfolding check_args
Passes-of_check none args h = tt
Passes-of_check (some policy) args h = go (policy args) refl
  where
    go : (r : Result ArgError (Unit {0})) → policy args ≡ r → policy args ≡ ok tt
    go (ok u) q = q
    go (err e) q = absurd (ground arith)

check_args-IsOk :
    (cmd : CanonicalCommand) (rule : AllowRule) (plan : ExecPlan)
    → is_windows_abs rule.exe_path ≡ true
    → (r : Result PlanError (Unit {0})) → check_args rule.arg_policy cmd.argv ≡ r
    → plan_of cmd rule r ≡ ok plan
    → Follows cmd rule plan
unfolding plan_of
check_args-IsOk cmd rule plan absolute (err e) q h = absurd (ground arith)
check_args-IsOk cmd rule plan absolute (ok tt) q h = record {
  absolute = absolute;
  passes = Passes-of_check rule.arg_policy cmd.argv q;
  command_id = ground arith;
  exe_path = ground arith;
  args = ground arith;
  command_line = ground arith;
}

Follows-of_plan :
    (cmd : CanonicalCommand) (rule : AllowRule) (plan : ExecPlan)
    → by_rule cmd (some rule) ≡ ok plan
    → Follows cmd rule plan
unfolding by_rule
Follows-of_plan cmd rule plan h =
    check_args-IsOk cmd rule plan (ground arith) (check_args rule.arg_policy cmd.argv) refl
      (ground arith)

-- A plan is built only for a command that is not empty and that the allowlist has a rule for, and
-- it follows that rule: the executable is the rule's and absolute, the arguments are the command's
-- and pass the rule's policy, and the command line is built from these.
pub build_exec_plan-Follows :
    (cmd : CanonicalCommand) (allowlist : List (Bytes × AllowRule)) (plan : ExecPlan)
    → build_exec_plan cmd allowlist ≡ ok plan
    → (is_empty cmd ≡ false)
      × ((rule : AllowRule) × (lookup cmd.command_id allowlist ≡ some rule) × Follows cmd rule plan)
unfolding build_exec_plan by_rule
build_exec_plan-Follows cmd allowlist plan h =
    go (lookup cmd.command_id allowlist) refl (ground arith)
  where
    go :
        (o : Option AllowRule)
        → lookup cmd.command_id allowlist ≡ o
        → by_rule cmd o ≡ ok plan
        → (is_empty cmd ≡ false)
          × ((rule : AllowRule) × (lookup cmd.command_id allowlist ≡ some rule)
              × Follows cmd rule plan)
    go none q g = absurd (ground arith)
    go (some rule) q g = (ground arith, (rule, q, Follows-of_plan cmd rule plan g))
