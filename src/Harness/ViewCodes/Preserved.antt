-- ===== src/Harness/ViewCodes/Preserved.antt =====
-- A local end of a screen view is reported as it is; nothing else than fixed codes leaves.
use platform_agent.Prelude.{
  ◌≡◌, ◌≢◌, inl, inr, refl, Bool, true, false, Bool-cases, Option, none, some, List, [], ◌∷◌,
  length, arith, All, ◌==◌,
}
use platform_agent.Prelude.Int.{ℤ}
use platform_agent.Bytes.{Bytes, beq, beq_refl, beq_differs}
use platform_agent.Bytes.Text.{codes}
use platform_agent.Harness.Sender.{Message, session_error_message, audit_event_message}
use platform_agent.Harness.ViewCodes.{
  ViewError, view_codes, listed, view_failed, view_code, screen_view_failure_code,
  merge_screen_view_data_error, view_report,
}

abbrev pub reported : Option ViewError → Bytes → Bytes → ℤ → List Message
reported handled code session now =
    view_report session now (merge_screen_view_data_error handled code)

-- A fixed audit event of the session, or an error of the session with a fixed code that is not to be
-- tried again.
abbrev pub IsFixed : Bytes → Message → Type 0
IsFixed session (session_error_message s code retryable) =
    (s ≡ session)
    × (retryable ≡ false)
    × (listed (view_failed ∷ codes "screen-view-permit-expired" ∷ view_codes) code ≡ true)
IsFixed session (audit_event_message s event now) =
    (s ≡ session) × (listed (codes "LOCAL_ABORT" ∷ codes "AGENT_INDICATOR_LOST" ∷ []) event ≡ true)
IsFixed session _ = ⊥

pub listed_later :
    (d : Bytes) (cs : List Bytes) (c : Bytes) → listed cs c ≡ true → listed (d ∷ cs) c ≡ true
unfolding listed
listed_later d cs c h = ground arith

pub listed_here : (c : Bytes) (cs : List Bytes) → listed (c ∷ cs) c ≡ true
unfolding listed
listed_here c cs = rw (beq_refl c) refl

pub listed_second :
    (a d : Bytes) (cs : List Bytes) (c : Bytes)
    → listed (a ∷ cs) c ≡ true
    → listed (a ∷ d ∷ cs) c ≡ true
unfolding listed
listed_second a d cs c h = ground arith

abbrev report_codes : List Bytes
report_codes = view_failed ∷ codes "screen-view-permit-expired" ∷ view_codes

view_code-none : listed report_codes (view_code none) ≡ true
unfolding listed view_code beq
view_code-none = refl

permit_expired-listed : listed report_codes (codes "screen-view-permit-expired") ≡ true
unfolding listed beq
permit_expired-listed = refl

view_code-listed : (o : Option Bytes) → listed report_codes (view_code o) ≡ true
unfolding view_code
view_code-listed none = view_code-none
view_code-listed (some code) = by_test (listed view_codes code) refl
  where
    by_test :
        (b : Bool) → listed view_codes code ≡ b → listed report_codes (view_code (some code)) ≡ true
    by_test true e = rw e (listed_later _ _ code (listed_later _ view_codes code e))
    by_test false e = rw e view_code-none

events-listed :
    (listed (codes "LOCAL_ABORT" ∷ codes "AGENT_INDICATOR_LOST" ∷ []) (codes "LOCAL_ABORT") ≡ true)
    × (listed
          (codes "LOCAL_ABORT" ∷ codes "AGENT_INDICATOR_LOST" ∷ [])
          (codes "AGENT_INDICATOR_LOST")
        ≡ true)
unfolding listed beq
events-listed = (refl, refl)

view_report-IsFixed :
    (session : Bytes) (now : ℤ) (e : Option ViewError)
    → All (IsFixed session) (view_report session now e)
unfolding view_report screen_view_failure_code
view_report-IsFixed session now none = tt
view_report-IsFixed session now (some e) = elim (Bool-cases e.local_abort) [
  | inl aborted ↦ rw (aborted, All) ((refl, events-listed.0), tt)
  | inr h ↦ elim (Bool-cases e.indicator_lost) [
    | inl lost ↦ rw (h, lost, All) ((refl, events-listed.1), tt)
    | inr k ↦ elim (Bool-cases e.permit_expired) [
      | inl expired ↦ rw (h, k, expired, All) ((refl, refl, permit_expired-listed), tt)
      | inr l ↦ rw (h, k, l, All) ((refl, refl, view_code-listed e.code), tt)
    ]
  ]
]

-- Whatever the handler's error and the broker's code carry, the report of a screen view is a fixed event
-- or an error with one of the fixed codes, for its session and not to be retried.
pub reported-IsFixed :
    (handled : Option ViewError) (code session : Bytes) (now : ℤ)
    → All (IsFixed session) (reported handled code session now)
reported-IsFixed handled code session now = view_report-IsFixed session now _

-- Whatever the broker answers on the DATA stream, an error of the handler is reported as it is, a local
-- abort, a lost indicator and an expired permit among them, unless its code is that of a failed
-- DATA send.
pub reported-kept :
    (e : ViewError) (code session : Bytes) (now : ℤ)
    → screen_view_failure_code e ≢ codes "screen-view-data-send-failed"
    → reported (some e) code session now ≡ view_report session now (some e)
unfolding merge_screen_view_data_error
reported-kept e code session now other = elim (Bool-cases (length code == 0)) [
  | inl none_given ↦ rw none_given refl
  | inr given ↦ rw (given, beq_differs _ _ other) refl
]
