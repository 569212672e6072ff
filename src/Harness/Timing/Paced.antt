-- ===== src/Harness/Timing/Paced.antt =====
-- The delays of the loop stay within the configured bounds, and no turn dials without an identity.
use native.Mathlib.Nat.{mul-le-mul_right}
use platform_agent.Prelude.{
  ℕ, ◌*◌, ◌/◌, ◌≤◌, ◌<◌, ◌≡◌, ◌≢◌, refl, true, false, List, [], ◌∷◌, length, arith, ◌==◌,
  if◌then◌else◌, All,
}
use platform_agent.Prelude.Int.{ℤ, pos, negsuc, pos_part, ◌≤ℤ◌, ◌<ℤ◌, mul64, mul64_pos}
use platform_agent.Bytes.{Bytes}
use platform_agent.Bytes.Trim.{trim_space}
use platform_agent.Harness.Config.{Config, with_defaults, second, minute}
use platform_agent.Harness.Timing.{
  draws, Round, Event, polled, dialled, backed_off, clamp_interval, watchdog_deadline, next_backoff,
  turn, run_from, run,
}

-- The timing fields of a configuration after its defaults.
pub record IsTimed (c : Config) : Type 0 where
  pub deadline : pos 0 <ℤ c.first_heartbeat_deadline
  pub factor : pos 0 <ℤ c.heartbeat_miss_factor
  pub least : pos 0 <ℤ c.backoff_min
  pub ordered : c.backoff_min ≤ℤ c.backoff_max
  pub polling : pos 0 <ℤ c.identity_poll_interval
  pub dialling : pos 0 <ℤ c.dial_timeout

pub with_defaults-IsTimed : (c : Config) → IsTimed (with_defaults c)
unfolding with_defaults
with_defaults-IsTimed c = ground arith

pub next_backoff-Within :
    (cur lo hi : ℤ) → lo ≤ℤ hi → (lo ≤ℤ next_backoff cur lo hi) × (next_backoff cur lo hi ≤ℤ hi)
unfolding next_backoff
next_backoff-Within cur lo hi h = ground arith

-- The delay of a backoff is at least 0.8 times the lower bound, rounded down, and at most 1.2 times the
-- upper bound.
abbrev pub IsSpread : Config → ℤ → Type 0
IsSpread c (pos d) =
    ((8 * pos_part c.backoff_min) / 10 ≤ d) × (d * 10 ≤ 12 * pos_part c.backoff_max)
IsSpread c (negsuc d) = ⊥

-- A poll waits the poll interval, a dial has an identity, and a backoff is spread about its bounds.
abbrev pub IsPaced : Config → Event → Type 0
IsPaced c (polled d) = d ≡ c.identity_poll_interval
IsPaced c (dialled id) = length id ≢ 0
IsPaced c (backed_off d) = IsSpread c d

abbrev pub IsDrawn : Round → Type 0
IsDrawn r = r.draw < draws

-- The identities that the rounds offer, blank ones left out.
abbrev pub identities : List Round → List Bytes
identities [] = []
identities (r ∷ rs) =
    let rest = identities rs in
    if length (trim_space r.device_id) == 0 then rest else trim_space r.device_id ∷ rest

abbrev pub dials : List Event → List Bytes
dials [] = []
dials (dialled id ∷ es) = id ∷ dials es
dials (polled d ∷ es) = dials es
dials (backed_off d ∷ es) = dials es

abbrev pub Runs : Round → Type 0
Runs r = (r.cancelled ≡ false) × (r.slept ≡ true)

run_from-dials :
    (c : Config) (backoff : ℤ) (rs : List Round)
    → All Runs rs
    → dials (run_from c backoff rs) ≡ identities rs
unfolding run_from turn
run_from-dials c backoff [] h = refl
run_from-dials c backoff (r ∷ rs) h = ground (
  arith,
  run_from-dials c backoff rs h.1,
  run_from-dials c c.backoff_min rs h.1,
  run_from-dials c (next_backoff backoff c.backoff_min c.backoff_max) rs h.1,
)

-- While the context lasts, the loop never gives up: it dials once for every turn that finds an
-- identity, with that identity, however often the streams before it failed.
pub run-dials : (c : Config) (rs : List Round) → All Runs rs → dials (run c rs) ≡ identities rs
unfolding run
run-dials c rs h = run_from-dials c c.backoff_min rs h

clamp_interval-Within :
    (d : ℤ) → (n : ℕ) → clamp_interval d ≡ pos n → (second ≤ n) × (n ≤ 5 * minute)
unfolding clamp_interval
clamp_interval-Within d n h = ground arith

clamp_interval-pos : (d : ℤ) → (n : ℕ) × (clamp_interval d ≡ pos n)
unfolding clamp_interval
clamp_interval-pos d = by_sign (clamp_interval d) refl
  where
    by_sign : (e : ℤ) → clamp_interval d ≡ e → (n : ℕ) × (clamp_interval d ≡ pos n)
    by_sign (pos n) h = (n, h)
    by_sign (negsuc n) h = absurd (ground arith)

times : (n f : ℕ) → second ≤ n → n ≤ 5 * minute → (second * f ≤ n * f) × (n * f ≤ 5 * minute * f)
times n f h k = (mul-le-mul_right f h, mul-le-mul_right f k)

-- Any int64 that a heartbeat announces sets the watchdog to between one second and five minutes for
-- each heartbeat that may be missed, though the milliseconds wrap when they become nanoseconds, for a
-- miss factor of at most thirty million.
pub watchdog_deadline-Within :
    (c : Config) (millis : ℤ) (f : ℕ)
    → c.heartbeat_miss_factor ≡ pos f
    → f ≤ 30000000
    → (n : ℕ) × (watchdog_deadline c millis ≡ pos n) × (second * f ≤ n) × (n ≤ 5 * minute * f)
unfolding watchdog_deadline
watchdog_deadline-Within c millis f e h =
    let (d, p) = clamp_interval-pos (mul64 millis (pos 1000000)) in
    let (low, high) = clamp_interval-Within (mul64 millis (pos 1000000)) d p in
    let (least, most) = times d f low high in
    (d * f, rw (p, e) (mul64_pos d f (omega (arith, most, h))), least, most)
