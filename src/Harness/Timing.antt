-- ===== src/Harness/Timing.antt =====
-- internal/remotebridge/harness/harness.go: the heartbeat watchdog, the backoff and the loop of Run.
-- Durations are int64 and wrap. The factor of a jitter is a float64 of the code; here it is the exact
-- number that the draw stands for, and the product is rounded down to whole nanoseconds.
pub mod Paced
pub mod Doubling
use platform_agent.Prelude.{
  ℕ, ◌+◌, ◌*◌, ◌/◌, ◌^◌, Bool, true, false, Option, none, some, List, [], ◌∷◌, ◌++◌, length, ◌==◌,
  if◌then◌else◌,
}
use platform_agent.Prelude.Int.{ℤ, pos, negsuc, ltb_ℤ, mul64}
use platform_agent.Bytes.{Bytes}
use platform_agent.Bytes.Trim.{trim_space}
use platform_agent.Harness.Config.{Config, second, minute}

abbrev pub min_heartbeat_interval : ℤ
min_heartbeat_interval = pos second

abbrev pub max_heartbeat_interval : ℤ
max_heartbeat_interval = pos (5 * minute)

unfoldable pub clamp_interval : ℤ → ℤ
clamp_interval d =
    if ltb_ℤ d min_heartbeat_interval
    then min_heartbeat_interval
    else if ltb_ℤ max_heartbeat_interval d
    then max_heartbeat_interval
    else d

-- What the watchdog is set to when a heartbeat announces its interval in milliseconds.
unfoldable pub watchdog_deadline : Config → ℤ → ℤ
watchdog_deadline cfg millis =
    mul64 (clamp_interval (mul64 millis (pos 1000000))) cfg.heartbeat_miss_factor

unfoldable pub next_backoff : ℤ → ℤ → ℤ → ℤ
next_backoff cur lo hi =
    let doubled = mul64 cur (pos 2) in
    let capped = if ltb_ℤ hi doubled then hi else doubled in if ltb_ℤ capped lo then lo else capped

-- rand.Float64 is so many parts of this.
abbrev pub draws : ℕ
draws = 2 ^ 53

-- The delay times 0.8 + 0.4 * draw / draws.
unfoldable pub jitter : ℕ → ℤ → ℤ
jitter draw (negsuc n) = negsuc n
jitter draw (pos n) = pos ((8 * (draws * n) + 4 * (n * draw)) / (10 * draws))

-- What the environment answers in one turn of the loop: the identity, whether connectOnce's stream
-- turned healthy, whether the context has ended after it, the random draw, and whether the sleep ran to
-- its end.
pub record Round : Type 0 where
  pub device_id : Bytes
  pub healthy : Bool
  pub cancelled : Bool
  pub draw : ℕ
  pub slept : Bool

pub data Event : Type 0 where
  polled : ℤ → Event
  dialled : Bytes → Event
  backed_off : ℤ → Event

-- The events of one turn, and the backoff for the next one, unless the loop ends.
unfoldable pub turn : Config → ℤ → Round → List Event × Option ℤ
turn cfg backoff r =
    let id = trim_space r.device_id in
    let next =
      if r.healthy then cfg.backoff_min else next_backoff backoff cfg.backoff_min cfg.backoff_max in
    if length id == 0
    then (polled cfg.identity_poll_interval ∷ [], if r.slept then some backoff else none)
    else if r.cancelled
    then (dialled id ∷ [], none)
    else (dialled id ∷ backed_off (jitter r.draw next) ∷ [], if r.slept then some next else none)

unfoldable pub run_from : Config → ℤ → List Round → List Event
run_from cfg backoff [] = []
run_from cfg backoff (r ∷ rs) =
    let (events, after) = turn cfg backoff r in
    events ++ elim after [ none ↦ [] | some next ↦ run_from cfg next rs ]

unfoldable pub run : Config → List Round → List Event
run cfg rs = run_from cfg cfg.backoff_min rs
