-- ===== src/ScreenView/Dispatcher.antt =====
-- internal/remotebridge/screenview/dispatcher.go: one VIEW_ONLY operation. The pump's goroutine and the
-- timers are moments that the loop meets, in any order.
pub mod Images
pub mod Fed
pub mod Whole
pub mod Authorized
pub mod Ended
use platform_agent.Prelude.{
  ℕ, ◌+◌, Bool, true, false, not, Option, none, some, List, [], ◌∷◌, ◌++◌, length, ◌==◌,
  if◌then◌else◌, Result, ok, err,
}
use platform_agent.Prelude.Int.{ℤ, pos, leb_ℤ, add64, sub64}
use platform_agent.Bytes.{Bytes}
use platform_agent.Bytes.Text.{codes}
use platform_agent.Operation.Permit.{OperationPermit}
use platform_agent.Operation.Verify.{Reason}
use platform_agent.Operation.Gate.{Decision, Authorizer, authorize_view_only}
use platform_agent.DataPlane.ViewSession.{
  ViewSession, new_view_session, set_recording_not_required, activate, abort, offer, drain,
}
use platform_agent.PtyExec.OutStream.{DataFrame, Send}

abbrev pub default_drain_batch : ℤ
default_drain_batch = pos 8

abbrev pub default_content_type : Bytes
default_content_type = codes "image/png"

pub record Options : Type 0 where
  pub queue_cap : ℤ
  pub drain_batch : ℤ
  pub content_type : Bytes

pub record Dispatcher : Type 0 where
  pub authorizer : Authorizer
  pub queue_cap : ℤ
  pub drain_batch : ℤ
  pub content_type : Bytes

pub data DispatcherError : Type 0 where
  authorizer_required producer_factory_required : DispatcherError

-- The drain interval and the clock come from the environment.
unfoldable pub new_dispatcher :
    Option Authorizer → Bool → Options → Result DispatcherError Dispatcher
new_dispatcher none factory o = err authorizer_required
new_dispatcher (some a) factory o =
    if not factory
    then err producer_factory_required
    else ok (record {
      authorizer = a;
      queue_cap = o.queue_cap;
      drain_batch = if leb_ℤ o.drain_batch (pos 0) then default_drain_batch else o.drain_batch;
      content_type = if length o.content_type == 0 then default_content_type else o.content_type;
    })

-- The stream's context: it lives, or it has ended, by a cancel or by the permit's expiry.
pub data Context : Type 0 where
  living cancelled expired : Context

pub data ViewEnd : Type 0 where
  authorize_denied : Option Reason → ViewEnd
  permit_expired : ViewEnd
  capture_start_failed : ℕ → ViewEnd
  source_failed : ℕ → ViewEnd
  data_send_failed : ℕ → ViewEnd

-- What happens next: the pump offers a frame, or the select takes a case, with the context as it is then.
-- The context is read where the code reads it, when a case is taken, and not between the sends of a drain:
-- one that ends within a drain leaves it as it is, and shows in the moments after it.
-- The pump's end comes with the error of the producer.
pub data Moment : Type 0 where
  frame_offered : Bytes → Moment
  tick : Context → Moment
  pump_done : Context → Option ℕ → Moment
  context_done : Context → Moment

-- The gate, the next number, and the frames that the stream has taken.
pub record Feed : Type 0 where
  pub session : ViewSession
  pub seq : ℤ
  pub frames : List DataFrame

-- How the call stands: it goes on, or it has returned, with an error or with none.
pub data Ending : Type 0 where
  running : Ending
  returned : Option ViewEnd → Ending

-- After a drain: nothing failed, or the send of a frame did.
abbrev pub Drained : Type 0
Drained = Option ℕ × Feed

unfoldable pub opened_session : Dispatcher → ViewSession
opened_session d = activate (set_recording_not_required (new_view_session d.queue_cap) true)

module _ (d : Dispatcher) (stream_id : Bytes) (send : Send) where
  unfoldable pub image_frame : ℤ → Bytes → Bool → DataFrame
  image_frame seq payload end_stream = record {
    stream_id = stream_id;
    frame_seq = seq;
    content_type = d.content_type;
    payload = payload;
    end_stream = end_stream;
  }

  abbrev pub took : Feed → Bytes → Feed
  took f payload = record f {
    seq = add64 f.seq (pos 1);
    frames = f.frames ++ (image_frame f.seq payload false ∷ []);
  }

  unfoldable pub send_all : Feed → List Bytes → Drained
  send_all f [] = (none, f)
  send_all f (payload ∷ payloads) =
      let rest = send_all (took f payload) payloads in
      elim (send f.frames (image_frame f.seq payload false)) [ some e ↦ (some e, f) | none ↦ rest ]

  unfoldable pub drain_feed : Feed → Drained
  drain_feed f =
      let (payloads, session) = drain f.session d.drain_batch in
      send_all (record f { session = session }) payloads

  abbrev pub Turn : Type 0
  Turn = Ending × Feed

  unfoldable pub shut : Option ViewEnd → Feed → Turn
  shut e f = (returned e, record f { session = abort f.session })

  -- The context has ended: the gate is shut, and only an expiry is an error.
  unfoldable pub context_end : Context → Feed → Turn
  context_end expired f = shut (some permit_expired) f
  context_end _ f = shut none f

  unfoldable pub after_tick : Drained → Turn
  after_tick (some e, f) = shut (some (data_send_failed e)) f
  after_tick (none, f) = (running, f)

  -- The last frame is sent as well as it goes.
  unfoldable pub end_stream : Feed → Feed
  end_stream f = elim (send f.frames (image_frame f.seq [] true)) [
    | some e ↦ f
    | none ↦ record f { frames = f.frames ++ (image_frame f.seq [] true ∷ []) }
  ]

  unfoldable pub after_pump : Drained → Turn
  after_pump (some e, f) = shut (some (data_send_failed e)) f
  after_pump (none, f) = (returned none, end_stream f)

  unfoldable pub meet : Feed → Moment → Turn
  meet f (frame_offered payload) = (running, record f { session = (offer f.session payload).1 })
  meet f (tick living) = after_tick (drain_feed f)
  meet f (tick c) = context_end c f
  meet f (pump_done living (some e)) = shut (some (source_failed e)) f
  meet f (pump_done living none) = after_pump (drain_feed f)
  meet f (pump_done c e) = context_end c f
  meet f (context_done c) = context_end c f

  unfoldable pub feed : Feed → List Moment → Turn
  feed f [] = (running, f)
  feed f (m ∷ moments) =
      let (ending, next) = meet f m in
      let rest = feed next moments in
      elim ending [ returned e ↦ (returned e, next) | running ↦ rest ]

  -- Past the gate: the producer's factory fails, with the context as it is then, or the loop runs.
  unfoldable pub stream : Option (ℕ × Context) → List Moment → Turn
  stream (some (e, living)) moments =
      shut (some (capture_start_failed e))
        (record { session = opened_session d; seq = pos 0; frames = [] })
  stream (some (e, c)) moments =
      context_end c (record { session = opened_session d; seq = pos 0; frames = [] })
  stream none moments =
      feed (record { session = opened_session d; seq = pos 0; frames = [] }) moments

  unfoldable pub not_opened : ViewEnd → Turn
  not_opened e = (
    returned (some e),
    record { session = new_view_session d.queue_cap; seq = pos 0; frames = [] },
  )

  unfoldable pub decided_view :
      OperationPermit
      → ℤ
      → Option (ℕ × Context)
      → List Moment
      → Decision × Authorizer
      → Turn × Authorizer
  unfolding not_opened
  decided_view p clock start moments (decision, a) = (
    if not decision.allowed
        then not_opened (authorize_denied decision.reason)
        else if leb_ℤ (sub64 p.expires_at clock) (pos 0)
        then not_opened permit_expired
        else stream start moments,
    a,
  )

  unfoldable pub handle_view :
      OperationPermit → ℤ → ℤ → Option (ℕ × Context) → List Moment → Turn × Authorizer
  unfolding decided_view
  handle_view p now clock start moments =
      decided_view p clock start moments (authorize_view_only d.authorizer p now)
