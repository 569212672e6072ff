-- ===== src/PtyExec/Runs.antt =====
-- The executor, its handler and the output stream at concrete inputs.
use platform_agent.Prelude.{
  ◌%◌, ◌≡◌, refl, true, false, none, some, [], ◌∷◌, ◌++◌, length, arith, All, ok,
}
use platform_agent.Prelude.Int.{pos, add64, wrap64}
use platform_agent.Bytes.{Bytes, beq}
use platform_agent.Bytes.Text.{codes, is_upper, is_lower}
use platform_agent.Bytes.Hex.{hex_encode}
use platform_agent.Operation.Permit.{OperationPermit, write_field}
use platform_agent.Operation.Command.{
  parse_command, java_trim, split_space_runs, to_lower, from_tokens, hash_payload, is_empty,
}
use platform_agent.Operation.Gate.{authorize, verified, pty_steps, advance, command_hash}
use platform_agent.PtyExec.ArgPolicy.{lookup, evaluate, evaluate_from}
use platform_agent.PtyExec.Pilot.{hostname_policy}
use platform_agent.PtyExec.CommandLine.{
  quote_args, quote_arg, contains_special, is_special, build_command_line,
}
use platform_agent.PtyExec.Plan.{ExecPlan, build_exec_plan, default_allowlist, is_windows_abs, sys}
use platform_agent.PtyExec.Executor.{
  Executor, execute, execute_with, decided, with_plan, ran, run_error,
}
use platform_agent.PtyExec.Executor.Admitted.{IsAdmitted, execute-IsAdmitted}
use platform_agent.PtyExec.OutStream.{
  OutputStreamer, Sent, Send, write, stream_output, new_output_streamer, pty_content_type,
  stream_to, copied, write_loop, after_send, after_copy, close, end_sent, frame_of, clamp_chunk,
}
use platform_agent.PtyExec.OutStream.Framed.Whole.{IsWhole, stream_output-IsWhole}
use platform_agent.PtyExec.PtyOp.{PtyOperationHandler, handle}
use platform_agent.PtyExec.PtyOp.Oracle.{IsOpaque, handle-IsOpaque}

abbrev pub toy_sha256 : Bytes → Bytes
toy_sha256 s = (length s % 256) ∷ []

abbrev pub identity : Bytes → Bytes
identity s = s

-- A runner that answers with two bytes.
abbrev executor : Executor
executor = record {
  authz = some (record { verify = some (λ p now. (true, none)); last_seq = λ _. pos 0 });
  allowlist = default_allowlist;
  cols = pos 0;
  rows = pos 0;
  run = some (λ plan cols rows. (record { output = 1 ∷ 2 ∷ []; exit_code = 0 }, none));
}

abbrev pub permit : OperationPermit
permit = record {
  alg = [];
  kid = [];
  permit_version = pos 1;
  policy_version = [];
  decision_id = [];
  session_id = codes "s";
  operation_id = codes "o";
  device_id = codes "d";
  operator_subject = [];
  capability = codes "CONSTRAINED_PTY";
  command_hash = codes "26";
  issued_at = pos 0;
  expires_at = pos 0;
  seq = pos 1;
  signature_b64 = [];
}

abbrev pub host_line : Bytes
host_line = codes " HostName "

abbrev host_plan : ExecPlan
host_plan = record {
  command_id = codes "hostname";
  exe_path = sys ++ codes "hostname.exe";
  args = [];
  command_line = codes "C:\\Windows\\System32\\hostname.exe";
}

-- One process, and its output.
hostname_ran :
    (execute toy_sha256 identity executor permit host_line (pos 0)).spawned ≡ host_plan ∷ []
unfolding execute execute_with decided with_plan ran run_error authorize verified pty_steps advance
    beq command_hash parse_command java_trim split_space_runs to_lower from_tokens hash_payload
    hex_encode is_empty write_field build_exec_plan default_allowlist is_windows_abs
    build_command_line quote_args quote_arg contains_special is_special evaluate evaluate_from
    hostname_policy lookup is_upper is_lower
hostname_ran = refl

execute-IsAdmitted_example :
    All
      (IsAdmitted toy_sha256 identity executor permit host_line (pos 0))
      (execute toy_sha256 identity executor permit host_line (pos 0)).spawned
execute-IsAdmitted_example =
    execute-IsAdmitted toy_sha256 identity executor permit host_line (pos 0)

abbrev pub always : Send
always log f = none

-- The second send fails.
abbrev once : Send
once [] f = none
once (g ∷ log) f = some 1

abbrev streamer : Send → OutputStreamer
streamer send = record {
  stream_id = codes "s";
  content_type = pty_content_type;
  chunk = 2;
  send = send;
  seq = pos 0;
  closed = false;
}

abbrev fresh : Send → Sent
fresh send = record { streamer = streamer send; frames = [] }

three_frames : (stream_output (codes "s") [] (pos 2) (1 ∷ 2 ∷ 3 ∷ []) (some always)).0 ≡ none
unfolding stream_output new_output_streamer stream_to copied write write_loop after_send after_copy
    close end_sent frame_of clamp_chunk add64 wrap64
three_frames = refl

stream_output-IsWhole_example :
    (s : OutputStreamer) × (new_output_streamer (codes "s") [] (pos 2) (some always) ≡ ok s)
    × IsWhole s
        (1 ∷ 2 ∷ 3 ∷ [])
        (stream_output (codes "s") [] (pos 2) (1 ∷ 2 ∷ 3 ∷ []) (some always)).1
stream_output-IsWhole_example =
    stream_output-IsWhole (codes "s") [] (pos 2) (1 ∷ 2 ∷ 3 ∷ []) (some always) (omega arith)
      three_frames

abbrev pub handler : PtyOperationHandler
handler = record { exec = executor; chunk = pos 2; exec_timeout = pos 1 }

pub output_length :
    length (execute toy_sha256 identity executor permit host_line (pos 0)).result.output ≡ 2
unfolding execute execute_with decided with_plan ran run_error authorize verified pty_steps advance
    beq command_hash parse_command java_trim split_space_runs to_lower from_tokens hash_payload
    hex_encode is_empty write_field build_exec_plan default_allowlist is_windows_abs
    build_command_line quote_args quote_arg contains_special is_special evaluate evaluate_from
    hostname_policy lookup is_upper is_lower
output_length = refl

handle-IsOpaque_example :
    IsOpaque toy_sha256 identity handler permit host_line
      (pos 0)
      (handle toy_sha256 identity handler permit host_line (codes "s") (some always) (pos 0))
handle-IsOpaque_example =
    handle-IsOpaque toy_sha256 identity handler permit host_line (codes "s") (some always) (pos 0)
      (omega (arith, output_length))
