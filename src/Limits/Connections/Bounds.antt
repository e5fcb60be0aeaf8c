-- ===== src/Limits/Connections/Bounds.antt =====
-- The number of live connections: never above the limit, and counted exactly.
use Prim.Native.Nat.{max}
use ai_channel.Prelude.{ℕ, ◌≤◌, ◌<◌, ◌≡◌, ◌↔◌, true, arith}
use ai_channel.Limits.Connections.{
  new_limiter, try_acquire, drop_guard, Server, Step, accepted, rejected, closed, Reach, start,
  next,
}

pub record IsWellFormed (limit : ℕ) (s : Server) : Type 0 where
  pub configured : s.limiter.max_connections ≡ max limit 1
  pub counted : s.limiter.active_connections ≡ s.guards
  pub bounded : s.guards ≤ max limit 1

Step-IsWellFormed :
    {limit : ℕ} {s t : Server} → Step s t → IsWellFormed limit s → IsWellFormed limit t
unfolding try_acquire drop_guard
Step-IsWellFormed (accepted s l e) w = ground arith
Step-IsWellFormed (rejected s l e) w = ground arith
Step-IsWellFormed (closed s n e) w = ground arith

abbrev pub initial : ℕ → Server
initial limit = record { limiter = new_limiter limit; guards = 0 }

initial-IsWellFormed : (limit : ℕ) → IsWellFormed limit (initial limit)
unfolding new_limiter
initial-IsWellFormed limit = ground arith

-- However connections come and go, from a fresh limiter the count of active connections is the
-- number of guards that are alive, and that is at most the configured limit, or one if that is 0.
pub Reach-IsWellFormed : (limit : ℕ) (t : Server) → Reach (initial limit) t → IsWellFormed limit t
Reach-IsWellFormed limit t start = initial-IsWellFormed limit
Reach-IsWellFormed limit t (next {t = u} r st) = Step-IsWellFormed st (Reach-IsWellFormed limit u r)

-- In every reachable state a new connection is taken in exactly when fewer guards than the limit
-- are alive.
pub try_acquire_iff :
    (limit : ℕ) (t : Server)
    → Reach (initial limit) t
    → ((try_acquire t.limiter).0 ≡ true) ↔ (t.guards < max limit 1)
unfolding try_acquire
try_acquire_iff limit t r =
    let w = Reach-IsWellFormed limit t r in
    (λ e. ground (arith, w.configured, w.counted), λ e. ground (arith, w.configured, w.counted))
