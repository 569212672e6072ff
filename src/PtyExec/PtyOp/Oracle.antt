-- ===== src/PtyExec/PtyOp/Oracle.antt =====
-- What the frames of a command's stream can carry.
use platform_agent.Prelude.{
  ℕ, ◌^◌, ◌<◌, ◌≡◌, ◌≢◌, ◌⊎◌, inl, inr, refl, ap, ◌∙◌, Option, none, some, List, [], ◌∷◌, ◌++◌,
  length, take, All, arith, append-nil, Result, ok, err, ◌==◌, Bool-cases,
}
use platform_agent.Prelude.Int.{ℤ}
use platform_agent.Bytes.{Bytes}
use platform_agent.Bytes.Trim.{trim_space}
use platform_agent.Operation.Permit.{OperationPermit}
use platform_agent.Operation.Gate.{Decision, Authorizer, authorize}
use platform_agent.PtyExec.Plan.{ExecPlan, PlanError}
use platform_agent.PtyExec.Executor.{
  Runner, Executor, with_plan, ran, decided, execute_with, execute,
}
use platform_agent.PtyExec.Executor.Admitted.{IsAdmitted, execute-IsAdmitted}
use platform_agent.PtyExec.OutStream.{
  DataFrame, OutputStreamer, Send, Sent, Written, StreamError, frame_of, new_output_streamer,
  end_sent, close, after_copy, stream_to, stream_output, pty_content_type,
}
use platform_agent.PtyExec.OutStream.Framed.{payloads}
use platform_agent.PtyExec.OutStream.Framed.Whole.{copied-Cut, new_output_streamer-IsNew}
use platform_agent.PtyExec.PtyOp.{
  PtyOperationHandler, Handled, refusal, streamed, blank_command, handle_to, handle,
}

-- The frames carry the first bytes of the output.
abbrev pub IsPrefix : List DataFrame → Bytes → Type 0
IsPrefix frames output = (n : ℕ) × (payloads frames ≡ take n output)

payloads-ended :
    (fs : List DataFrame) (f : DataFrame) → f.payload ≡ [] → payloads (fs ++ (f ∷ [])) ≡ payloads fs
payloads-ended [] f h = append-nil f.payload ∙ h
payloads-ended (g ∷ fs) f h = ap (λ q. g.payload ++ q) (payloads-ended fs f h)

end_sent-payloads :
    (o : Option ℕ) (t : Sent) (f : DataFrame)
    → f.payload ≡ []
    → payloads (end_sent o t f).1.frames ≡ payloads t.frames
unfolding end_sent
end_sent-payloads (some e) t f h = refl
end_sent-payloads none t f h = payloads-ended t.frames f h

close-payloads : (t : Sent) → payloads (close t).1.frames ≡ payloads t.frames
unfolding close frame_of
close-payloads t = elim (Bool-cases t.streamer.closed) [
  | inl q ↦ simp q refl
  | inr q ↦ simp q (end_sent-payloads _ _ _ refl)
]

after_copy-payloads : (r : Written) → payloads (after_copy r).1 ≡ payloads r.1.frames
unfolding after_copy
after_copy-payloads ((n, some e), t) = close-payloads t
after_copy-payloads ((n, none), t) = close-payloads t

-- Whatever errors it meets, a stream carries nothing but the first bytes of its source.
stream_output-IsPrefix :
    (stream_id content_type : Bytes) (chunk : ℤ) (src : Bytes) (send : Option Send)
    → length src < 2 ^ 63
    → IsPrefix (stream_output stream_id content_type chunk src send).1 src
unfolding stream_output stream_to
stream_output-IsPrefix stream_id content_type chunk src send h =
    go (new_output_streamer stream_id content_type chunk send) refl
  where
    go :
        (r : Result StreamError OutputStreamer)
        → new_output_streamer stream_id content_type chunk send ≡ r
        → IsPrefix (stream_to r src).1 src
    go (err e) q = (0, refl)
    go (ok s) q =
        let c =
          copied-Cut s src (new_output_streamer-IsNew stream_id content_type chunk send s q) h in
        (c.count, after_copy-payloads _ ∙ ap payloads c.frames ∙ c.carried)

module _ (sha256 : Bytes → Bytes) (unicode_lower : Bytes → Bytes) where
  -- A process was started, or there is no output.
  abbrev pub Silent : List ExecPlan → Bytes → Type 0
  Silent spawned output = (spawned ≢ []) ⊎ (output ≡ [])

  with_plan-Silent :
      (e : Executor) (run : Runner) (r : Result PlanError ExecPlan)
      → Silent (with_plan e run r).spawned (with_plan e run r).result.output
  unfolding with_plan ran
  with_plan-Silent e run (err x) = inr refl
  with_plan-Silent e run (ok plan) = inl (λ h. cc)

  decided-Silent :
      (e : Executor) (run : Runner) (line : Bytes) (r : Decision × Authorizer)
      → Silent
          (decided sha256 unicode_lower e run line r).spawned
          (decided sha256 unicode_lower e run line r).result.output
  unfolding decided
  decided-Silent e run line (d, a) = elim (Bool-cases d.allowed) [
    | inl q ↦ rw q (with_plan-Silent _ run _)
    | inr q ↦ rw q (inr refl)
  ]

  execute-Silent :
      (e : Executor) (p : OperationPermit) (line : Bytes) (now : ℤ)
      → Silent
          (execute sha256 unicode_lower e p line now).spawned
          (execute sha256 unicode_lower e p line now).result.output
  unfolding execute execute_with
  execute-Silent e p line now = go e.authz e.run
    where
      go :
          (authz : Option Authorizer) (run : Option Runner)
          → Silent
              (execute_with sha256 unicode_lower authz run e p line now).spawned
              (execute_with sha256 unicode_lower authz run e p line now).result.output
      go none none = inr refl
      go none (some run) = inr refl
      go (some authz) none = inr refl
      go (some authz) (some run) =
          decided-Silent e run line (authorize sha256 unicode_lower authz p line now)

  -- What a handled command shows and starts.
  pub record IsOpaque (h : PtyOperationHandler) (p : OperationPermit) (line : Bytes) (now : ℤ)
      (r : Handled) : Type 0 where
    pub carried : IsPrefix r.frames r.result.output
    pub silent : Silent r.spawned r.result.output
    pub admitted : All (IsAdmitted sha256 unicode_lower h.exec p line now) r.spawned

  -- The frames of a handled command carry nothing but the first bytes of the output that it returns;
  -- there is output only if a process was started; and every process that was started had been
  -- admitted by the gate and the allowlist. The output's length is one that an int holds.
  pub handle-IsOpaque :
      (h : PtyOperationHandler) (p : OperationPermit) (line stream_id : Bytes) (send : Option Send)
      (now : ℤ)
      → length (execute sha256 unicode_lower h.exec p line now).result.output < 2 ^ 63
      → IsOpaque h p line now (handle sha256 unicode_lower h p line stream_id send now)
  unfolding handle handle_to refusal streamed blank_command
  handle-IsOpaque h p line stream_id none now b = record {
    carried = (0, refl);
    silent = inr refl;
    admitted = tt;
  }
  handle-IsOpaque h p line stream_id (some send) now b =
      elim (Bool-cases (length (trim_space stream_id) == 0)) [
        | inl q ↦ rw q (record { carried = (0, refl); silent = inr refl; admitted = tt })
        | inr q ↦ elim (Bool-cases (length (trim_space line) == 0)) [
          | inl r ↦
              rw (q, r)
                (record {
                  carried =
                      stream_output-IsPrefix stream_id pty_content_type h.chunk [] (some send)
                        (omega arith);
                  silent = inr refl;
                  admitted = tt;
                })
          | inr r ↦
              rw (q, r)
                (record {
                  carried =
                      stream_output-IsPrefix stream_id pty_content_type h.chunk _ (some send) b;
                  silent = execute-Silent h.exec p line now;
                  admitted = execute-IsAdmitted sha256 unicode_lower h.exec p line now;
                })
        ]
      ]
