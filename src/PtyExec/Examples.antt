-- ===== src/PtyExec/Examples.antt =====
-- The argument policies, the plan, the executor and the stream at concrete inputs.
use platform_agent.Prelude.{◌≡◌, ◌↔◌, refl, true, some, List, [], ◌∷◌, ◌++◌, All, ok}
use platform_agent.Bytes.{Bytes, beq}
use platform_agent.Bytes.Text.{codes, is_upper, is_lower, is_digit}
use platform_agent.Operation.Command.{CanonicalCommand, is_empty}
use platform_agent.PtyExec.ArgPolicy.{
  ascii_lower, contains, lookup, evaluate, evaluate_from, round, accepts, is_host, is_arg_flag,
}
use platform_agent.PtyExec.ArgPolicy.Grammar.{Parse}
use platform_agent.PtyExec.ArgPolicy.Complete.{evaluate-Parse}
use platform_agent.PtyExec.Pilot.{ping_policy, pilot_arg_policies}
use platform_agent.PtyExec.CommandLine.{
  quote_args, quote_arg, contains_special, is_special, build_command_line,
}
use platform_agent.PtyExec.CommandLine.Splitter.{split_args, between}
use platform_agent.PtyExec.CommandLine.Parsed.{split-quote_args}
use platform_agent.PtyExec.Plan.{ExecPlan, build_exec_plan, default_allowlist, is_windows_abs, sys}

abbrev ping_args : List Bytes
ping_args = codes "-n" ∷ codes "4" ∷ codes "host-1.lan" ∷ []

ping_accepted : evaluate ping_policy ping_args ≡ ok tt
unfolding evaluate evaluate_from round ping_policy is_arg_flag ascii_lower contains lookup accepts
    is_host beq is_upper is_lower is_digit
ping_accepted = refl

evaluate-Parse_example : (evaluate ping_policy ping_args ≡ ok tt) ↔ Parse ping_policy 0 ping_args
evaluate-Parse_example = evaluate-Parse ping_policy ping_args

forbidden_are_flags : All (λ f. is_arg_flag f ≡ true) ping_policy.forbidden_flags
unfolding ping_policy is_arg_flag
forbidden_are_flags = (refl, tt)

ping_found : lookup (codes "ping") pilot_arg_policies ≡ some ping_policy
unfolding lookup pilot_arg_policies beq
ping_found = refl

abbrev odd_args : List Bytes
odd_args = codes "a b" ∷ [] ∷ codes "c\\\"d\\" ∷ codes "e f\\" ∷ []

split-quote_args_example : split_args between (quote_args odd_args) ≡ odd_args
split-quote_args_example = split-quote_args odd_args

abbrev ping_command : CanonicalCommand
ping_command = record { command_id = codes "ping"; argv = ping_args }

abbrev ping_plan : ExecPlan
ping_plan = record {
  command_id = codes "ping";
  exe_path = sys ++ codes "ping.exe";
  args = ping_args;
  command_line = codes "C:\\Windows\\System32\\ping.exe -n 4 host-1.lan";
}

ping_planned : build_exec_plan ping_command default_allowlist ≡ ok ping_plan
unfolding build_exec_plan is_empty default_allowlist is_windows_abs build_command_line quote_args
    quote_arg contains_special is_special evaluate evaluate_from round ping_policy is_arg_flag
    ascii_lower contains lookup accepts is_host beq is_upper is_lower is_digit
ping_planned = refl
