-- ===== src/PtyExec/PtyOp.antt =====
-- internal/remotebridge/ptyexec/ptyop.go: one command run and its output streamed.
pub mod Oracle
use platform_agent.Prelude.{
  ℕ, Bool, true, false, not, Option, none, some, List, [], ◌∷◌, ◌++◌, length, if◌then◌else◌, ◌==◌,
  Result, ok, err,
}
use platform_agent.Prelude.Int.{ℤ, pos, leb_ℤ, pos_part}
use platform_agent.Bytes.{Bytes}
use platform_agent.Bytes.Trim.{trim_space}
use platform_agent.Operation.Permit.{OperationPermit}
use platform_agent.PtyExec.Plan.{ExecPlan}
use platform_agent.PtyExec.Executor.{ExecResult, ExecError, Executor, Execution, no_result, execute}
use platform_agent.PtyExec.OutStream.{
  DataFrame, Send, StreamError, default_data_frame_chunk, pty_content_type, stream_output,
}

-- Nanoseconds.
abbrev pub default_exec_timeout : ℕ
default_exec_timeout = 30000000000

-- The joined errors are a list of them.
pub data HandleError : Type 0 where
  nil_handler nil_send invalid_operation : HandleError
  exec_error : ExecError → HandleError
  stream_error : StreamError → HandleError

-- The runner is handed its time limit with the executor's other parts.
pub record PtyOperationHandler : Type 0 where
  pub exec : Executor
  pub chunk : ℤ
  pub exec_timeout : ℤ

handler_of : ℤ → ℤ → Option Executor → Result HandleError PtyOperationHandler
handler_of chunk exec_timeout none = err nil_handler
handler_of chunk exec_timeout (some exec) = ok (record {
  exec = exec;
  chunk = if leb_ℤ chunk (pos 0) then pos default_data_frame_chunk else chunk;
  exec_timeout = if leb_ℤ exec_timeout (pos 0) then pos default_exec_timeout else exec_timeout;
})

unfoldable pub new_pty_operation_handler :
    Option Executor → ℤ → ℤ → Result HandleError PtyOperationHandler
unfolding handler_of
new_pty_operation_handler exec chunk exec_timeout = handler_of chunk exec_timeout exec

-- The result and errors of a call, the frames it sent, the executor it leaves and the plans it ran.
pub record Handled : Type 0 where
  pub result : ExecResult
  pub errors : List HandleError
  pub frames : List DataFrame
  pub after : Executor
  pub spawned : List ExecPlan

unfoldable pub refusal : Executor → HandleError → Handled
refusal e x = record { result = no_result; errors = x ∷ []; frames = []; after = e; spawned = [] }

unfoldable pub exec_errors : Option ExecError → List HandleError
exec_errors none = []
exec_errors (some e) = exec_error e ∷ []

unfoldable pub stream_errors : Option StreamError → List HandleError
stream_errors none = []
stream_errors (some e) = stream_error e ∷ []

-- The captured output is streamed, whatever the execution's error.
unfoldable pub streamed : Execution → Option StreamError × List DataFrame → Handled
streamed x r = record {
  result = x.result;
  errors = exec_errors x.error ++ stream_errors r.0;
  frames = r.1;
  after = x.after;
  spawned = x.spawned;
}

-- A blank command is refused before the executor: the stream is only ended.
unfoldable pub blank_command : Executor → Option StreamError × List DataFrame → Handled
blank_command e r = record {
  result = no_result;
  errors = invalid_operation ∷ stream_errors r.0;
  frames = r.1;
  after = e;
  spawned = [];
}

module _ (sha256 : Bytes → Bytes) (unicode_lower : Bytes → Bytes) where
  unfoldable pub handle_to :
      PtyOperationHandler → OperationPermit → Bytes → Bytes → ℤ → Option Send → Handled
  handle_to h p line stream_id now none = refusal h.exec nil_send
  handle_to h p line stream_id now (some send) =
      let x = execute sha256 unicode_lower h.exec p line now in
      if length (trim_space stream_id) == 0
      then refusal h.exec invalid_operation
      else if length (trim_space line) == 0
      then blank_command h.exec (stream_output stream_id pty_content_type h.chunk [] (some send))
      else streamed x (stream_output stream_id pty_content_type h.chunk x.result.output (some send))

  unfoldable pub handle :
      PtyOperationHandler → OperationPermit → Bytes → Bytes → Option Send → ℤ → Handled
  handle h p line stream_id send now = handle_to h p line stream_id now send
