-- ===== src/PtyExec.antt =====
-- internal/remotebridge/ptyexec and cmdline: the second gate of a constrained command, on its name
-- and its arguments, its execution, and the stream of its output.
pub mod ArgPolicy
pub mod Pilot
pub mod CommandLine
pub mod Plan
pub mod Executor
pub mod OutStream
pub mod PtyOp
mod Examples
pub mod Runs
