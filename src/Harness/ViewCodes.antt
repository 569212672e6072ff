-- ===== src/Harness/ViewCodes.antt =====
-- internal/remotebridge/harness/dispatch.go: what the broker is told of a screen view that failed.
pub mod Preserved
use platform_agent.Prelude.{
  ℕ, Bool, true, false, ◌||◌, Option, none, some, List, [], ◌∷◌, length, ◌==◌, if◌then◌else◌,
}
use platform_agent.Prelude.Int.{ℤ}
use platform_agent.Bytes.{Bytes, beq}
use platform_agent.Bytes.Text.{codes}
use platform_agent.Harness.Sender.{Message, session_error_message, audit_event_message}

-- An error as the harness asks for it: three times errors.Is, and errors.As with the code it gives.
pub record ViewError : Type 0 where
  pub local_abort : Bool
  pub indicator_lost : Bool
  pub permit_expired : Bool
  pub code : Option Bytes

abbrev pub view_codes : List Bytes
view_codes =
    codes "screen-view-platform-unsupported"
    ∷ codes "screen-view-session-binding-failed"
    ∷ codes "screen-view-helper-resolution-failed"
    ∷ codes "screen-view-active-session-failed"
    ∷ codes "screen-view-secure-pipe-failed"
    ∷ codes "screen-view-launch-nonce-failed"
    ∷ codes "screen-view-helper-launch-failed"
    ∷ codes "screen-view-helper-handshake-failed"
    ∷ codes "screen-view-helper-peer-failed"
    ∷ codes "screen-view-banner-create-failed"
    ∷ codes "screen-view-banner-not-visible"
    ∷ codes "screen-view-capture-start-failed"
    ∷ codes "screen-view-capture-lost"
    ∷ codes "screen-view-helper-exited-before-frame"
    ∷ codes "screen-view-helper-exited"
    ∷ codes "screen-view-first-frame-timeout"
    ∷ codes "screen-view-first-frame-protocol-failed"
    ∷ codes "screen-view-authorize-failed"
    ∷ codes "screen-view-data-send-failed"
    ∷ codes "screen-view-frame-too-large"
    ∷ codes "screen-view-data-rejected"
    ∷ []

unfoldable pub listed : List Bytes → Bytes → Bool
listed [] code = false
listed (c ∷ cs) code = beq code c || listed cs code

abbrev pub view_failed : Bytes
view_failed = codes "screen-view-failed"

unfoldable pub view_code : Option Bytes → Bytes
view_code none = view_failed
view_code (some code) = if listed view_codes code then code else view_failed

unfoldable pub screen_view_failure_code : ViewError → Bytes
unfolding view_code
screen_view_failure_code e = view_code e.code

abbrev pub data_error : Bytes → ViewError
data_error code = record {
  local_abort = false;
  indicator_lost = false;
  permit_expired = false;
  code = some code;
}

unfoldable pub broker_screen_view_data_error : Bytes → ViewError
broker_screen_view_data_error code =
    if beq code (codes "data-frame-too-large")
    then data_error (codes "screen-view-frame-too-large")
    else data_error (codes "screen-view-data-rejected")

-- `nil` is `none`, and no code of the broker is the empty text.
unfoldable pub merge_screen_view_data_error : Option ViewError → Bytes → Option ViewError
merge_screen_view_data_error none code =
    if length code == 0 then none else some (broker_screen_view_data_error code)
merge_screen_view_data_error (some e) code =
    if length code == 0
    then some e
    else if beq (screen_view_failure_code e) (codes "screen-view-data-send-failed")
    then some (broker_screen_view_data_error code)
    else some e

-- The message on CONTROL, if there is an error to report.
unfoldable pub view_report : Bytes → ℤ → Option ViewError → List Message
view_report session now none = []
view_report session now (some e) =
    (if e.local_abort
      then audit_event_message session (codes "LOCAL_ABORT") now
      else if e.indicator_lost
      then audit_event_message session (codes "AGENT_INDICATOR_LOST") now
      else if e.permit_expired
      then session_error_message session (codes "screen-view-permit-expired") false
      else session_error_message session (screen_view_failure_code e) false)
    ∷ []

-- The broker's half of the DATA stream: the first error that has a code counts.
unfoldable pub broker_data_error : List (Option Bytes) → Bytes
broker_data_error [] = []
broker_data_error (none ∷ envs) = broker_data_error envs
broker_data_error (some code ∷ envs) =
    let rest = broker_data_error envs in if length code == 0 then rest else code
