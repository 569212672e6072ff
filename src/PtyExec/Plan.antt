-- ===== src/PtyExec/Plan.antt =====
-- internal/remotebridge/ptyexec/plan.go: the allowlist and the execution plan.
pub mod Allowed
use platform_agent.Prelude.{
  ℕ, Bool, true, false, not, ◌&&◌, ◌||◌, Option, none, some, List, [], ◌∷◌, ◌++◌, if◌then◌else◌,
  ◌==◌, leb, Result, ok, err,
}
use platform_agent.Bytes.{Bytes}
use platform_agent.Bytes.Text.{codes, is_upper, is_lower}
use platform_agent.Operation.Command.{CanonicalCommand, is_empty}
use platform_agent.PtyExec.ArgPolicy.{ArgError, lookup, evaluate}
use platform_agent.PtyExec.Pilot.{
  hostname_policy, whoami_policy, netstat_policy, ping_policy, tracert_policy,
}
use platform_agent.PtyExec.CommandLine.{build_command_line}

pub record ExecPlan : Type 0 where
  pub command_id : Bytes
  pub exe_path : Bytes
  pub args : List Bytes
  pub command_line : Bytes

-- A nil policy accepts any arguments.
pub record AllowRule : Type 0 where
  pub exe_path : Bytes
  pub arg_policy : Option (List Bytes → Result ArgError (Unit {0}))

pub data PlanError : Type 0 where
  empty_command not_allowlisted rule_exe_not_abs : PlanError
  arg_policy_violation : ArgError → PlanError

-- A drive letter, a colon and a slash of either kind.
unfoldable pub is_windows_abs : Bytes → Bool
unfolding is_upper is_lower
is_windows_abs (c ∷ d ∷ e ∷ s) = (is_upper c || is_lower c) && (d == b':' && (e == 92 || e == b'/'))
is_windows_abs _ = false

check_args :
    Option (List Bytes → Result ArgError (Unit {0})) → List Bytes → Result PlanError (Unit {0})
check_args none args = ok tt
check_args (some policy) args = elim (policy args) [
  | ok _ ↦ ok tt
  | err e ↦ err (arg_policy_violation e)
]

plan_of : CanonicalCommand → AllowRule → Result PlanError (Unit {0}) → Result PlanError ExecPlan
plan_of cmd rule (err e) = err e
plan_of cmd rule (ok _) = ok (record {
  command_id = cmd.command_id;
  exe_path = rule.exe_path;
  args = cmd.argv;
  command_line = build_command_line rule.exe_path cmd.argv;
})

by_rule : CanonicalCommand → Option AllowRule → Result PlanError ExecPlan
by_rule cmd none = err not_allowlisted
by_rule cmd (some rule) =
    if not (is_windows_abs rule.exe_path)
    then err rule_exe_not_abs
    else plan_of cmd rule (check_args rule.arg_policy cmd.argv)

unfoldable pub build_exec_plan :
    CanonicalCommand → List (Bytes × AllowRule) → Result PlanError ExecPlan
unfolding by_rule plan_of check_args
build_exec_plan cmd allowlist =
    if is_empty cmd then err empty_command else by_rule cmd (lookup cmd.command_id allowlist)

abbrev pub sys : Bytes
sys = codes "C:\\Windows\\System32\\"

unfoldable pub default_allowlist : List (Bytes × AllowRule)
default_allowlist =
    (
      codes "hostname",
      record {
        exe_path = sys ++ codes "hostname.exe";
        arg_policy = some (evaluate hostname_policy);
      },
    )
    ∷ (
      codes "whoami",
      record { exe_path = sys ++ codes "whoami.exe"; arg_policy = some (evaluate whoami_policy) },
    )
    ∷ (
      codes "netstat",
      record { exe_path = sys ++ codes "netstat.exe"; arg_policy = some (evaluate netstat_policy) },
    )
    ∷ (
      codes "ping",
      record { exe_path = sys ++ codes "ping.exe"; arg_policy = some (evaluate ping_policy) },
    )
    ∷ (
      codes "tracert",
      record { exe_path = sys ++ codes "tracert.exe"; arg_policy = some (evaluate tracert_policy) },
    )
    ∷ []
