-- ===== src/Limits/Connections.antt =====
-- `ConnectionLimiter` and `ConnectionGuard` of crates/aichan-server/src/lib.rs. A guard is held by
-- the thread of its connection and is dropped when that ends.
pub mod Bounds
use Prim.Native.Nat.{max}
use ai_channel.Prelude.{ℕ, ◌+◌, ◌-◌, ◌≡◌, Bool, true, false, List, [], ◌∷◌, leb, if◌then◌else◌}

pub record ConnectionLimiter : Type 0 where
  pub max_connections : ℕ
  pub active_connections : ℕ

-- `ConnectionLimiter::new`
unfoldable pub new_limiter : ℕ → ConnectionLimiter
new_limiter max_connections = record {
  max_connections = max max_connections 1;
  active_connections = 0;
}

-- `try_acquire`: whether a guard was given, and the limiter after it
unfoldable pub try_acquire : ConnectionLimiter → Bool × ConnectionLimiter
try_acquire limiter =
    if leb limiter.max_connections limiter.active_connections
    then (false, limiter)
    else (true, record limiter { active_connections = limiter.active_connections + 1 })

-- `Drop for ConnectionGuard`; `-` is `saturating_sub`
unfoldable pub drop_guard : ConnectionLimiter → ConnectionLimiter
drop_guard limiter = record limiter { active_connections = limiter.active_connections - 1 }

-- The limiter together with the number of guards that are alive.
pub record Server : Type 0 where
  pub limiter : ConnectionLimiter
  pub guards : ℕ

-- What can happen, in any order: the accept loop of `run` takes in a connection, or turns it away,
-- and a connection that has a guard ends.
pub data Step : Server → Server → Type 0 where
  accepted :
      (s : Server) (l : ConnectionLimiter)
      → try_acquire s.limiter ≡ (true, l)
      → Step s (record { limiter = l; guards = s.guards + 1 })
  rejected :
      (s : Server) (l : ConnectionLimiter)
      → try_acquire s.limiter ≡ (false, l)
      → Step s (record { limiter = l; guards = s.guards })
  closed :
      (s : Server) (n : ℕ)
      → s.guards ≡ n + 1
      → Step s (record { limiter = drop_guard s.limiter; guards = n })

pub data Reach (s : Server) : Server → Type 0 where
  start : Reach s s
  next : {t u : Server} → Reach s t → Step t u → Reach s u
