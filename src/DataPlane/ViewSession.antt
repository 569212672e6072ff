-- ===== src/DataPlane/ViewSession.antt =====
-- internal/remotebridge/dataplane/session.go: the gate and the bounded queue of one screen view.
-- Each method holds the session's mutex, so it is one step.
pub mod Gated
pub mod Conserved
pub mod Ordered
use platform_agent.Prelude.{
  ℕ, ◌+◌, ◌%◌, ◌^◌, Bool, true, false, not, ◌&&◌, ◌||◌, List, [], ◌∷◌, ◌++◌, length, take, drop,
  if◌then◌else◌, ◌==◌, ltb, leb,
}
use platform_agent.Prelude.Int.{ℤ, pos, negsuc, leb_ℤ, pos_part}
use platform_agent.Bytes.{Bytes}

abbrev pub default_queue_cap : ℕ
default_queue_cap = 32

pub data Outcome : Type 0 where
  outcome_dropped_gate outcome_queued outcome_dropped_backpressure : Outcome

-- A counter is an int64, kept as the 64-bit word that represents it.
abbrev pub bump : ℕ → ℕ → ℕ
bump c n = (c + n) % 2 ^ 64

-- The abort channel is closed exactly when `aborted` is set.
pub record ViewSession : Type 0 where
  pub recording_ready : Bool
  pub recording_not_required : Bool
  pub active : Bool
  pub aborted : Bool
  pub queue : List Bytes
  pub cap : ℕ
  pub queued : ℕ
  pub dropped_gate : ℕ
  pub dropped_backpres : ℕ
  pub flushed : ℕ
  pub drained : ℕ

unfoldable pub new_view_session : ℤ → ViewSession
new_view_session queue_cap = record {
  recording_ready = false;
  recording_not_required = false;
  active = false;
  aborted = false;
  queue = [];
  cap = if leb_ℤ queue_cap (pos 0) then default_queue_cap else pos_part queue_cap;
  queued = 0;
  dropped_gate = 0;
  dropped_backpres = 0;
  flushed = 0;
  drained = 0;
}

unfoldable pub can_send : ViewSession → Bool
can_send s = (s.recording_ready || s.recording_not_required) && (s.active && not s.aborted)

-- The queue with the new frame at its end.
unfoldable pub admit : Bytes → List Bytes → ViewSession → ViewSession
admit f rest s = record s { queue = rest ++ (f ∷ []); queued = bump s.queued 1 }

unfoldable pub offer : ViewSession → Bytes → Outcome × ViewSession
offer s f =
    if not (can_send s)
    then (outcome_dropped_gate, record s { dropped_gate = bump s.dropped_gate 1 })
    else if leb s.cap (length s.queue)
    then (
      outcome_dropped_backpressure,
      admit f (drop 1 s.queue) (record s { dropped_backpres = bump s.dropped_backpres 1 }),
    )
    else (outcome_queued, admit f s.queue s)

-- What a drain of `n` frames takes, once `n` is cut to the length of the queue.
unfoldable pub take_frames : ViewSession → ℕ → List Bytes × ViewSession
take_frames s n = (take n s.queue, record s { queue = drop n s.queue; drained = bump s.drained n })

unfoldable pub drain : ViewSession → ℤ → List Bytes × ViewSession
drain s n =
    if s.aborted
    then ([], s)
    else if leb_ℤ n (pos 0) || (length s.queue == 0)
    then ([], s)
    else take_frames s (if ltb (length s.queue) (pos_part n) then length s.queue else pos_part n)

unfoldable pub flush : ViewSession → ViewSession
flush s =
    if ltb 0 (length s.queue)
    then record s { flushed = bump s.flushed (length s.queue); queue = [] }
    else s

unfoldable pub set_recording_ready : ViewSession → Bool → ViewSession
set_recording_ready s ready =
    let t : ViewSession = record s { recording_ready = ready } in if not ready then flush t else t

unfoldable pub set_recording_not_required : ViewSession → Bool → ViewSession
set_recording_not_required s not_required =
    let t : ViewSession = record s { recording_not_required = not_required } in
    if not not_required then flush t else t

unfoldable pub activate : ViewSession → ViewSession
activate s = record s { active = true }

unfoldable pub deactivate : ViewSession → ViewSession
deactivate s = flush (record s { active = false })

-- A second abort changes nothing but an empty queue.
unfoldable pub abort : ViewSession → ViewSession
abort s = flush (if not s.aborted then record s { aborted = true } else s)

-- The counters' snapshot, in the order of the source.
unfoldable pub counters : ViewSession → ℕ × ℕ × ℕ × ℕ × ℕ
counters s = (s.queued, s.dropped_gate, s.dropped_backpres, s.flushed, s.drained)

-- A call of the session's methods, and what each leaves.
pub data Call : Type 0 where
  offer_call : Bytes → Call
  drain_call : ℤ → Call
  ready_call not_required_call : Bool → Call
  activate_call deactivate_call abort_call : Call

unfoldable pub step : ViewSession → Call → ViewSession
step s (offer_call f) = (offer s f).1
step s (drain_call n) = (drain s n).1
step s (ready_call b) = set_recording_ready s b
step s (not_required_call b) = set_recording_not_required s b
step s activate_call = activate s
step s deactivate_call = deactivate s
step s abort_call = abort s

-- What a call hands to the sender.
unfoldable pub sent : ViewSession → Call → List Bytes
sent s (drain_call n) = (drain s n).0
sent s _ = []

unfoldable pub run : ViewSession → List Call → ViewSession
run s [] = s
run s (c ∷ cs) = run (step s c) cs

unfoldable pub egress : ViewSession → List Call → List Bytes
egress s [] = []
egress s (c ∷ cs) = sent s c ++ egress (step s c) cs
