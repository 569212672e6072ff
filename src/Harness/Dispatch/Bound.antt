-- ===== src/Harness/Dispatch/Bound.antt =====
-- What a dispatched operation can do, from the device's binding to the report.
use platform_agent.Prelude.{
  ◌≡◌, ◌≢◌, ◌⊎◌, inl, inr, sym, ap, ◌∙◌, ◌==◌, ◌^◌, ◌<◌, refl, Bool, true, false, Bool-cases,
  Option, List, [], ◌∷◌, length, map, All, All-weaken, arith,
}
use platform_agent.Prelude.Int.{ℤ}
use platform_agent.Bytes.{Bytes, beq, eq_of_beq, beq_refl}
use platform_agent.Bytes.Text.{codes}
use platform_agent.Operation.Permit.{OperationPermit}
use platform_agent.PtyExec.Plan.{ExecPlan}
use platform_agent.PtyExec.Executor.{execute}
use platform_agent.PtyExec.Executor.Admitted.{IsAdmitted}
use platform_agent.PtyExec.OutStream.{DataFrame, Send}
use platform_agent.PtyExec.PtyOp.{HandleError, PtyOperationHandler, handle}
use platform_agent.PtyExec.PtyOp.Oracle.{handle-IsOpaque}
use platform_agent.Harness.Messages.{Envelope, data_channel}
use platform_agent.Harness.Sender.{Message, session_error_message}
use platform_agent.Harness.Codes.Bounded.{dispatch_codes, dispatch_error_code-listed}
use platform_agent.Harness.ViewCodes.{listed}
use platform_agent.Harness.Dispatch.{
  Dispatched, is_bound, data_envelope, report, handled, dispatch_operation,
}

-- The frame travels for this operation of this session, on DATA.
pub record IsOf (p : OperationPermit) (env : Envelope) : Type 0 where
  pub of_session : env.session_id ≡ p.session_id
  pub of_operation : env.stream_id ≡ p.operation_id
  pub on_data : env.channel ≡ data_channel

abbrev pub start_codes : List Bytes
start_codes = codes "operation-device-mismatch" ∷ codes "data-stream-open-failed" ∷ []

start-listed :
    (listed start_codes (codes "operation-device-mismatch") ≡ true)
    × (listed start_codes (codes "data-stream-open-failed") ≡ true)
unfolding listed beq
start-listed = (refl, refl)

-- A report is an error of the session, with a fixed code.
abbrev pub IsReport : OperationPermit → Message → Type 0
IsReport p (session_error_message session code retryable) =
    (session ≡ p.session_id)
    × ((listed start_codes code ≡ true) ⊎ (listed dispatch_codes code ≡ true))
IsReport p _ = ⊥

module _ (sha256 : Bytes → Bytes) (unicode_lower : Bytes → Bytes)
    (other_text : HandleError → Bytes) where
  -- A program that was admitted, of a permit for this device.
  pub record IsBound (h : PtyOperationHandler) (device : Bytes) (p : OperationPermit) (line : Bytes)
      (now : ℤ) (plan : ExecPlan) : Type 0 where
    pub named : length device ≢ 0
    pub of_device : p.device_id ≡ device
    pub admitted : IsAdmitted sha256 unicode_lower h.exec p line now plan

  -- The permit is for the device, the stream opened, and the handler ended without an error.
  abbrev pub HasSucceeded :
      PtyOperationHandler → Bytes → Bool → OperationPermit → Bytes → Option Send → ℤ → Type 0
  HasSucceeded h device opened p line send now =
      ((length device ≢ 0) × (p.device_id ≡ device))
      × ((opened ≡ true)
          × ((handle sha256 unicode_lower h p line p.operation_id send now).errors ≡ []))

  -- No message after a success; after anything else one, which is a report.
  abbrev pub Tells : OperationPermit → Type 0 → List Message → Type 0
  Tells p Success messages =
      ((messages ≡ []) × Success)
      ⊎ ((m : Message) × (messages ≡ m ∷ []) × (IsReport p m × (¬ Success)))

  pub record IsDispatched (h : PtyOperationHandler) (device : Bytes) (opened : Bool)
      (p : OperationPermit) (line : Bytes) (send : Option Send) (now : ℤ) (r : Dispatched)
      : Type 0 where
    pub runs : All (IsBound h device p line now) r.spawned
    pub sends : All (IsOf p) r.envelopes
    pub tells : Tells p (HasSucceeded h device opened p line send now) r.messages

  report-Tells :
      (p : OperationPermit) (Bound Opened : Type 0) (es : List HandleError)
      → Bound
      → Opened
      → Tells p
          (Bound × (Opened × (es ≡ [])))
          (report sha256 unicode_lower other_text p.session_id es)
  unfolding report
  report-Tells p Bound Opened [] b o = inl (refl, (b, (o, refl)))
  report-Tells p Bound Opened (e ∷ es) b o = inr (
    _,
    refl,
    ((refl, inr (dispatch_error_code-listed other_text e es)), λ q. let never = q.1.1 in cc),
  )

  envelopes-IsOf :
      (p : OperationPermit) (now : ℤ) (fs : List DataFrame)
      → All (IsOf p) (map (data_envelope p now) fs)
  unfolding data_envelope
  envelopes-IsOf p now [] = tt
  envelopes-IsOf p now (f ∷ fs) =
      (record { of_session = refl; of_operation = refl; on_data = refl }, envelopes-IsOf p now fs)

  is_bound-parts :
      (device : Bytes) (p : OperationPermit)
      → is_bound device p ≡ true
      → (length device ≢ 0) × (p.device_id ≡ device)
  unfolding is_bound
  is_bound-parts device p h =
      let same : beq p.device_id device ≡ true = ground arith in
      (ground arith, eq_of_beq p.device_id device same)

  is_bound-of :
      (device : Bytes) (p : OperationPermit)
      → length device ≢ 0
      → p.device_id ≡ device
      → is_bound device p ≡ true
  unfolding is_bound
  is_bound-of device p named same =
      let equal : beq p.device_id device ≡ true =
        ap (λ d. beq p.device_id d) (sym same) ∙ beq_refl p.device_id in
      let text : (length device == 0) ≡ false = ground arith in rw (text, equal) refl

  -- An operation runs a program only if its permit is for the device that this stream has named, and the
  -- gate and the allowlist have admitted it; its frames travel under the permit's session and operation;
  -- and the broker gets no message when the permit is for the device, the stream opens and the handler
  -- has no error, and otherwise exactly one, an error of the permit's session with a fixed code. The
  -- program's output is shorter than 2^63 bytes.
  pub dispatch_operation-IsDispatched :
      (h : PtyOperationHandler) (device : Bytes) (opened : Bool) (p : OperationPermit)
      (line : Bytes) (send : Option Send) (now : ℤ)
      → length (execute sha256 unicode_lower h.exec p line now).result.output < 2 ^ 63
      → IsDispatched h device opened p line send now
          (dispatch_operation sha256 unicode_lower other_text h device opened p line send now)
  unfolding dispatch_operation handled
  dispatch_operation-IsDispatched h device opened p line send now short =
      elim (Bool-cases (is_bound device p)) [
        | inr foreign ↦ rw foreign (record {
          runs = tt;
          sends = tt;
          tells = inr (
            _,
            refl,
            (
              (refl, inl start-listed.0),
              λ q.
                  let same = is_bound-of device p q.0.0 q.0.1 in
                  let never = sym foreign ∙ same in cc,
            ),
          );
        })
        | inl bound ↦ by_stream bound opened
      ]
    where
      by_stream :
          is_bound device p ≡ true
          → (open_stream : Bool)
          → IsDispatched h device open_stream p line send now (
              dispatch_operation sha256 unicode_lower other_text h device open_stream p line send
                now)
      by_stream bound false = rw bound (record {
        runs = tt;
        sends = tt;
        tells = inr (_, refl, ((refl, inl start-listed.1), λ q. let never = q.1.0 in cc));
      })
      by_stream bound true = rw bound (record {
        runs =
            All-weaken
              (λ plan admitted. record {
                named = (is_bound-parts device p bound).0;
                of_device = (is_bound-parts device p bound).1;
                admitted = admitted;
              })
              (handle sha256 unicode_lower h p line p.operation_id send now).spawned
              (handle-IsOpaque sha256 unicode_lower h p line p.operation_id send now
                short).admitted;
        sends =
            envelopes-IsOf p now
              (handle sha256 unicode_lower h p line p.operation_id send now).frames;
        tells =
            report-Tells p _ _ (handle sha256 unicode_lower h p line p.operation_id send now).errors
              (is_bound-parts device p bound) refl;
      })
