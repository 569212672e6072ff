-- ===== src/Harness/Sender/Contiguous.antt =====
-- What the broker reads off the wire: frames numbered from 0 with no gap.
use platform_agent.Prelude.{
  ℕ, ◌+◌, ◌<◌, ◌^◌, ◌≡◌, ◌≢◌, ◌⊎◌, inl, inr, refl, ap, Bool, true, false, Option, none, some, List,
  [], ◌∷◌, length, arith,
}
use platform_agent.Prelude.Int.{ℤ, pos, add64, add64_pos}
use platform_agent.Bytes.{Bytes}
use platform_agent.Harness.Messages.{Envelope, control_channel}
use platform_agent.Harness.Sender.{
  ControlSender, SendError, Sending, Message, agent_may_send, stamp, send, envelope_of,
  send_envelope, send_message, wire_from, heartbeat_message, heartbeat_required, stream_failed,
  hello_message, error_message, session_error_message, consent_result_message, audit_event_message,
  attestation_message,
}

-- A frame that the broker takes: on CONTROL, of a kind the agent may send, with its number.
pub record IsControl (seq : ℕ) (env : Envelope) : Type 0 where
  pub on_control : env.channel ≡ control_channel
  pub numbered : env.frame_seq ≡ pos seq
  pub allowed : agent_may_send env.payload ≡ true

abbrev pub Contiguous : ℕ → List Envelope → Type 0
Contiguous seq [] = Unit
Contiguous seq (env ∷ envs) = IsControl seq env × Contiguous (seq + 1) envs

abbrev pub sender_at : ℕ → ControlSender
sender_at seq = record { next_seq = pos seq }

-- Nothing is taken and the sender stays, or a stamped frame is taken and the sender moves on by one.
abbrev Outcome : ℕ → Sending → Type 0
Outcome seq r =
    ((r.taken ≡ none) × (r.after ≡ sender_at seq))
    ⊎ ((env : Envelope) × (r.taken ≡ some env)
        × (r.after ≡ sender_at (seq + 1))
        × IsControl seq env)

send-Outcome :
    (seq : ℕ) (now : ℤ) (took : Bool) (env : Envelope)
    → seq + 1 < 2 ^ 63
    → Outcome seq (send (sender_at seq) now took env)
unfolding send
send-Outcome seq now took env h = by_kind (agent_may_send env.payload) refl took
  where
    moved : add64 (pos seq) (pos 1) ≡ pos (seq + 1)
    moved = add64_pos seq 1 h

    by_kind :
        (allowed : Bool)
        → agent_may_send env.payload ≡ allowed
        → (b : Bool) → Outcome seq (send (sender_at seq) now b env)
    by_kind false e b = rw e (inl (refl, refl))
    by_kind true e false = rw e (inl (refl, refl))
    by_kind true e true = rw e (
        inr (
          stamp (sender_at seq) now env,
          refl,
          ap (λ k. record { next_seq = k }) moved,
          record { on_control = refl; numbered = refl; allowed = e },
        ))

abbrev pub failure : Bool → Message → Option SendError
failure took (heartbeat_message none) = some heartbeat_required
failure true m = none
failure false m = some stream_failed

module _ (sha256 : Bytes → Bytes) where
  send_message-Outcome :
      (seq : ℕ) (now : ℤ) (took : Bool) (m : Message)
      → seq + 1 < 2 ^ 63
      → Outcome seq (send_message sha256 (sender_at seq) now took m)
  unfolding send_message send_envelope
  send_message-Outcome seq now took m h = by_envelope (envelope_of sha256 m) refl
    where
      by_envelope :
          (o : Option Envelope)
          → envelope_of sha256 m ≡ o
          → Outcome seq (send_message sha256 (sender_at seq) now took m)
      by_envelope none e = rw e (inl (refl, refl))
      by_envelope (some env) e = rw e (send-Outcome seq now took env h)

  wire_from-Contiguous :
      (seq : ℕ) (ms : List (ℤ × Bool × Message))
      → seq + length ms < 2 ^ 63
      → Contiguous seq (wire_from sha256 (sender_at seq) ms)
  unfolding wire_from
  wire_from-Contiguous seq [] h = tt
  wire_from-Contiguous seq ((now, took, m) ∷ ms) h =
      by_outcome (wire_from-Contiguous seq ms (omega arith))
        (wire_from-Contiguous (seq + 1) ms (omega arith))
        (send_message-Outcome seq now took m (omega arith))
    where
      by_outcome :
          Contiguous seq (wire_from sha256 (sender_at seq) ms)
          → Contiguous (seq + 1) (wire_from sha256 (sender_at (seq + 1)) ms)
          → Outcome seq (send_message sha256 (sender_at seq) now took m)
          → Contiguous seq (wire_from sha256 (sender_at seq) ((now, took, m) ∷ ms))
      by_outcome stay move (inl (none_taken, stays)) = rw (none_taken, Contiguous) (rw stays stay)
      by_outcome stay move (inr (env, takes, moves, good)) =
          rw (takes, Contiguous) (rw moves (good, move))

  -- Whatever is sent and whichever sends the stream fails, the frames that it takes are on CONTROL,
  -- of the kinds that the agent may send, and numbered from 0 with no gap, for fewer than 2^63
  -- calls.
  pub wire-Contiguous :
      (ms : List (ℤ × Bool × Message))
      → length ms < 2 ^ 63
      → Contiguous 0 (wire_from sha256 (sender_at 0) ms)
  wire-Contiguous ms h = wire_from-Contiguous 0 ms (omega arith)

  -- A method of the sender is never refused for its payload: it fails exactly for a nil heartbeat,
  -- or because the stream fails. A send that fails leaves the number for the next one.
  pub send_message-error :
      (s : ControlSender) (now : ℤ) (took : Bool) (m : Message)
      → ((send_message sha256 s now took m).error ≡ failure took m)
        × ((failure took m ≢ none) → (send_message sha256 s now took m).after ≡ s)
  unfolding send_message send_envelope envelope_of send agent_may_send
  send_message-error s now true (hello_message m) = (refl, λ h. absurd (h refl))
  send_message-error s now true (error_message c r) = (refl, λ h. absurd (h refl))
  send_message-error s now true (session_error_message x c r) = (refl, λ h. absurd (h refl))
  send_message-error s now true (consent_result_message r) = (refl, λ h. absurd (h refl))
  send_message-error s now true (heartbeat_message none) = (refl, λ h. refl)
  send_message-error s now true (heartbeat_message (some b)) = (refl, λ h. absurd (h refl))
  send_message-error s now true (audit_event_message x e at) = (refl, λ h. absurd (h refl))
  send_message-error s now true (attestation_message x r) = (refl, λ h. absurd (h refl))
  send_message-error s now false (heartbeat_message none) = (refl, λ h. refl)
  send_message-error s now false m = ground arith
