-- ===== src/ScreenView/Dispatcher/Authorized.antt =====
-- A whole call of Handle: what had to hold before its first frame.
use platform_agent.Prelude.{ℕ, ◌≡◌, ◌≢◌, refl, Bool, true, false, Option, none, some, List, []}
use platform_agent.Prelude.Int.{ℤ, pos, leb_ℤ, sub64}
use platform_agent.Bytes.{Bytes}
use platform_agent.Operation.Permit.{OperationPermit}
use platform_agent.Operation.Gate.{Decision, Authorizer, authorize_view_only}
use platform_agent.Operation.Gate.Admission.{IsViewable, authorize_view_only-IsViewable}
use platform_agent.PtyExec.OutStream.{Send}
use platform_agent.ScreenView.Dispatcher.{
  Dispatcher, Context, living, cancelled, expired, Moment, Ending, Feed, shut, context_end, stream,
  decided_view, handle_view, not_opened,
}
use platform_agent.ScreenView.Dispatcher.Fed.{offers, IsFed}
use platform_agent.ScreenView.Dispatcher.Whole.{opened_feed, stream-IsFed}

module _ (d : Dispatcher) (stream_id : Bytes) (send : Send) (p : OperationPermit) (now clock : ℤ)
    (start : Option (ℕ × Context)) (ms : List Moment) where
  -- The checks that a call with this outcome has passed, and what it has sent.
  pub record IsStarted (t : Ending × Feed) : Type 0 where
    pub viewable : IsViewable d.authorizer p now
    pub in_time : leb_ℤ (sub64 p.expires_at clock) (pos 0) ≡ false
    pub started : start ≡ none
    pub fed : IsFed d stream_id send (opened_feed d) (offers ms) t

  decided-IsStarted :
      (decision : Decision) (a : Authorizer)
      → (decision.allowed ≡ true → IsViewable d.authorizer p now)
      → (decided_view d stream_id send p clock start ms (decision, a)).0.1.frames ≢ []
      → IsStarted (decided_view d stream_id send p clock start ms (decision, a)).0
  unfolding decided_view not_opened stream shut context_end
  decided-IsStarted decision a viewable h =
      by_checks decision.allowed (leb_ℤ (sub64 p.expires_at clock) (pos 0)) start refl refl refl
    where
      by_checks :
          (b c : Bool) (s : Option (ℕ × Context))
          → decision.allowed ≡ b
          → leb_ℤ (sub64 p.expires_at clock) (pos 0) ≡ c
          → start ≡ s
          → IsStarted (decided_view d stream_id send p clock start ms (decision, a)).0
      by_checks false c s q r u = absurd (h (rw (q, decided_view, not_opened) refl))
      by_checks true true s q r u = absurd (h (rw (q, r, decided_view, not_opened) refl))
      by_checks true false (some (e, living)) q r u =
          absurd (h (rw (q, r, u, decided_view, stream, shut) refl))
      by_checks true false (some (e, cancelled)) q r u =
          absurd (h (rw (q, r, u, decided_view, stream, context_end, shut) refl))
      by_checks true false (some (e, expired)) q r u =
          absurd (h (rw (q, r, u, decided_view, stream, context_end, shut) refl))
      by_checks true false none q r u = record {
        viewable = viewable q;
        in_time = r;
        started = u;
        fed = rw (q, r, u, decided_view) (stream-IsFed d stream_id send ms);
      }

  -- If a call of Handle has sent a frame, then the gate accepted the permit as a screen view with a new
  -- sequence number, the int64 difference of the permit's expiry and the clock was positive, the producer
  -- had started, and all that was sent is image frames numbered from 0 whose payloads the producer offered, in the order of the offers,
  -- none twice and none made up; one end frame may follow them, and only when the call returns no error.
  pub handle_view-IsStarted :
      (handle_view d stream_id send p now clock start ms).0.1.frames ≢ []
      → IsStarted (handle_view d stream_id send p now clock start ms).0
  unfolding handle_view
  handle_view-IsStarted h =
      decided-IsStarted (authorize_view_only d.authorizer p now).0
        (authorize_view_only d.authorizer p now).1
        (authorize_view_only-IsViewable d.authorizer p now).0 h
