-- ===== src/Harness/Stream/Ordered.antt =====
-- While a stream stays open its frames are in order.
use platform_agent.Prelude.{
  ◌≡◌, ◌≢◌, sym, inl, inr, refl, Bool, true, Bool-cases, Option, none, some, List, [], ◌∷◌, arith,
  Result, ok, err,
}
use platform_agent.Prelude.Int.{ℤ}
use platform_agent.Bytes.{Bytes}
use platform_agent.Harness.Messages.{Envelope, Payload}
use platform_agent.Harness.Config.{Config}
use platform_agent.Harness.SeqGuard.{InboundSeqGuard, SeqDefect, fresh_guard, admit, admits}
use platform_agent.Harness.SeqGuard.Accepted.{IsStream, admits-eq-IsStream}
use platform_agent.Harness.Inbound.{
  InboundAction, non_control_channel, sequence_defect, handle_inbound, sequenced, on_control,
}
use platform_agent.Harness.Stream.{
  Stream, StreamEnd, protocol_defect, Arrival, frame, context_ends, watchdog_fires, stream_ends,
  stream_fails, Turn, answered, mark_healthy, start_kill_ack, start_dispatch, start_screen_view,
  defect_end, act, judged, receive, serve,
}

-- The numbers of the frames that arrive.
abbrev pub numbers : List Arrival → List ℤ
numbers [] = []
numbers (frame (some env) now took ∷ arrivals) = env.frame_seq ∷ numbers arrivals
numbers (_ ∷ arrivals) = numbers arrivals

some_apart {ℓ} : {A : Type ℓ} {a : A} → some a ≢ none
some_apart h = cc

module _ (sha256 : Bytes → Bytes) (cfg : Config) where
  act-guard :
      (s : Stream) (session : Bytes) (p : Payload) (now : ℤ) (took : Bool) (a : InboundAction)
      → (act sha256 cfg s session p now took a).1.guard ≡ s.guard
  unfolding act defect_end start_kill_ack start_dispatch start_screen_view answered mark_healthy
  act-guard s session p now took a = ground arith

  -- The stream after a frame whose number is admitted.
  abbrev acted : Stream → Envelope → ℤ → Bool → InboundSeqGuard → Turn
  acted s env now took next =
      judged sha256 cfg s (some env) now took (sequenced cfg s.harness s.guard env now (ok next))

  acted-guard :
      (s : Stream) (env : Envelope) (now : ℤ) (took : Bool) (next : InboundSeqGuard)
      → (acted s env now took next).1.guard ≡ next
  unfolding judged sequenced
  acted-guard s env now took next = act-guard _ env.session_id env.payload now took _

  -- The loop goes on only after a frame on CONTROL whose number the guard admits.
  receive-open :
      (s : Stream) (env : Envelope) (now : ℤ) (took : Bool)
      → (receive sha256 cfg s (frame (some env) now took)).0 ≡ none
      → (next : InboundSeqGuard) × (admit s.guard env.frame_seq ≡ ok next)
        × ((receive sha256 cfg s (frame (some env) now took)).1.guard ≡ next)
  unfolding receive handle_inbound judged sequenced act defect_end
  receive-open s env now took h = elim (Bool-cases (on_control env.channel)) [
    | inl control ↦ by_seq control (admit s.guard env.frame_seq) refl
    | inr other ↦
        let f : Path (Option StreamEnd) (some (protocol_defect non_control_channel)) none =
          rw other at h in
        absurd (some_apart f)
  ]
    where
      by_seq :
          on_control env.channel ≡ true
          → (g : Result SeqDefect InboundSeqGuard) → admit s.guard env.frame_seq ≡ g
          → (next : InboundSeqGuard) × (admit s.guard env.frame_seq ≡ ok next)
            × ((receive sha256 cfg s (frame (some env) now took)).1.guard ≡ next)
      by_seq control (err d) e =
          let f : Path (Option StreamEnd) (some (protocol_defect (sequence_defect d))) none =
            rw (control, e) at h in
          absurd (some_apart f)
      by_seq control (ok next) e = (next, e, rw (control, e) (acted-guard s env now took next))

  serve-open :
      (s : Stream) (a : Arrival) (arrivals : List Arrival)
      → (serve sha256 cfg s (a ∷ arrivals)).0 ≡ none
      → ((receive sha256 cfg s a).0 ≡ none)
        × ((serve sha256 cfg (receive sha256 cfg s a).1 arrivals).0 ≡ none)
  unfolding serve
  serve-open s a arrivals h = by_end (receive sha256 cfg s a).0 refl
    where
      by_end :
          (o : Option StreamEnd)
          → (receive sha256 cfg s a).0 ≡ o
          → ((receive sha256 cfg s a).0 ≡ none)
            × ((serve sha256 cfg (receive sha256 cfg s a).1 arrivals).0 ≡ none)
      by_end none e =
          let f : (serve sha256 cfg (receive sha256 cfg s a).1 arrivals).0 ≡ none =
            rw (e, serve) at h in
          (e, f)
      by_end (some x) e =
          let f : Path (Option StreamEnd) (some x) none = rw (e, serve) at h in
          absurd (some_apart f)

  serve-admits :
      (s : Stream) (arrivals : List Arrival)
      → (serve sha256 cfg s arrivals).0 ≡ none
      → admits s.guard (numbers arrivals) ≡ true
  unfolding serve receive judged defect_end act handle_inbound admits
  serve-admits s [] h = refl
  serve-admits s (context_ends ∷ arrivals) h = cc
  serve-admits s (watchdog_fires ∷ arrivals) h = cc
  serve-admits s (stream_ends ∷ arrivals) h = cc
  serve-admits s (stream_fails ∷ arrivals) h = cc
  serve-admits s (frame none now took ∷ arrivals) h = cc
  serve-admits s (frame (some env) now took ∷ arrivals) h =
      let (opened, rest) = serve-open s (frame (some env) now took) arrivals h in
      let (next, admitted, guarded) = receive-open s env now took opened in
      rw (admitted, admits)
        (rw (sym guarded)
          (serve-admits (receive sha256 cfg s (frame (some env) now took)).1 arrivals rest))

  -- A stream that is still open has received frames whose numbers are any number of zeros and then
  -- positive numbers that rise strictly: the first replayed, rewound, negative or unnumbered frame
  -- ends it.
  pub serve-IsStream :
      (s : Stream) (arrivals : List Arrival)
      → s.guard ≡ fresh_guard
      → (serve sha256 cfg s arrivals).0 ≡ none
      → IsStream (numbers arrivals)
  serve-IsStream s arrivals fresh h =
      let all : admits s.guard (numbers arrivals) ≡ true = serve-admits s arrivals h in
      (admits-eq-IsStream (numbers arrivals)).0 (rw fresh at all)
