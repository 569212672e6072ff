-- ===== src/Harness/Kill/Concurrent/Acknowledged.antt =====
-- What an acknowledged KILL means, in every interleaving of the receive loop and the screen views.
use platform_agent.Prelude.{ℕ, ◌≡◌, ap, sym, ◌∙◌, some, some_injective, All}
use platform_agent.Prelude.Int.{ℤ}
use platform_agent.Bytes.{Bytes}
use platform_agent.Harness.Kill.{obey_kill_locked}
use platform_agent.Harness.Kill.Concurrent.{streaming, cancelling, System, start, killing, Leads}
use platform_agent.Harness.Kill.Concurrent.Sound.{IsOver, Leads-IsSound}

-- At any time at most one dispatch streams for a session.
pub streaming_once :
    (s : System)
    → Leads start s
    → (session : Bytes) (e k : ℕ) → s.phase e ≡ streaming session
    → s.phase k ≡ streaming session
    → e ≡ k
streaming_once s path session e k p q = some_injective (
    sym ((Leads-IsSound path).tabled.held e session p)
    ∙ (Leads-IsSound path).tabled.held k session q)

-- A KILL of a session finds the dispatch that streams for it, whichever interleaving led there: the
-- receive loop goes on to cancel just that entry.
pub kill-target :
    (s : System)
    → Leads start s
    → (session reason : Bytes) (now : ℤ) (e : ℕ) → s.phase e ≡ streaming session
    → (killing s session (obey_kill_locked s.harness session reason now)).receiver
      ≡ cancelling session (some e)
unfolding killing obey_kill_locked
kill-target s path session reason now e p =
    ap (cancelling session) ((Leads-IsSound path).tabled.held e session p)

-- When a KILL is acknowledged to the broker, the dispatch that it found is cancelled and has finished,
-- and that stays so, in every interleaving.
pub sent-IsOver : (s : System) → Leads start s → All (IsOver s.harness s.phase) s.sent
sent-IsOver s path = (Leads-IsSound path).over
