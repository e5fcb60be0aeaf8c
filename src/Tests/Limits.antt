-- ===== src/Tests/Limits.antt =====
-- The limiters and the replay controls at concrete inputs.
use Prim.Native.Nat.{max, min}
use ai_channel.Prelude.{◌*◌, ◌≤◌, ◌<◌, ◌≡◌, ◌≢◌, ◌↔◌, refl, true, none, some, List, [], ◌∷◌, arith}
use ai_channel.Prelude.Text.{text}
use ai_channel.Time.{DateTime, second}
use ai_channel.Limits.Connections.{Server, new_limiter, try_acquire, Reach, start, next, accepted}
use ai_channel.Limits.Connections.Bounds as Connections
use ai_channel.Limits.Rate.{
  RateLimitKey, RateLimitBucket, RateLimitClass, default_config, lookup, charge, renew, retry_after,
  class_limit,
}
use ai_channel.Limits.Rate.Window.{Arrival, admitted, arriving, Within}
use ai_channel.Limits.Rate.Span.{admitted-le-twice, admitted_first_window, retry_after_suffices}
use ai_channel.Auth.Nonces.{auth_controls, mark_nonce_once, prune, contains_key, key_eq}
use ai_channel.Auth.Nonces as Nonces
use ai_channel.Auth.Nonces.Replay.{
  Presented, judge, serve, replay_refused, replay_never_accepted, replay_accepted_again,
}
use ai_channel.Tests.Samples.{alice, bob}

-- One connection on a limiter for one.
abbrev busy : Server
busy = record { limiter = record { max_connections = 1; active_connections = 1 }; guards = 1 }

busy-Reach : Reach (Connections.initial 1) busy
unfolding new_limiter try_acquire
busy-Reach = next start (accepted (Connections.initial 1) busy.limiter refl)

Reach-IsWellFormed_example : Connections.IsWellFormed 1 busy
Reach-IsWellFormed_example = Connections.Reach-IsWellFormed 1 busy busy-Reach

try_acquire_iff_example : ((try_acquire busy.limiter).0 ≡ true) ↔ (busy.guards < max 1 1)
try_acquire_iff_example = Connections.try_acquire_iff 1 busy busy-Reach

abbrev reader : RateLimitKey
reader = record { client = text "10.0.0.1"; class = RateLimitClass.read }

abbrev writer : RateLimitKey
writer = record { client = text "10.0.0.1"; class = RateLimitClass.write }

abbrev traffic : List Arrival
traffic =
    record { instant = 5 * second; key = reader }
    ∷ record { instant = 6 * second; key = writer }
    ∷ record { instant = 64 * second; key = reader }
    ∷ []

traffic-Within : Within (5 * second) traffic
traffic-Within =
    ((omega arith, omega arith), ((omega arith, omega arith), ((omega arith, omega arith), tt)))

admitted-le-twice_example :
    admitted default_config reader traffic [] ≤ 2 * class_limit default_config reader.class
admitted-le-twice_example =
    admitted-le-twice default_config reader traffic (5 * second) [] traffic-Within

unseen : lookup reader [] ≡ none
unfolding lookup
unseen = refl

admitted_first_window_example :
    admitted default_config reader traffic []
    ≡ min (arriving reader traffic) (class_limit default_config reader.class)
admitted_first_window_example =
    admitted_first_window default_config reader traffic (5 * second) [] traffic-Within unseen

abbrev used_up : RateLimitBucket
used_up = record { window_start = 0; count = 20 }

used_up_refuses : (charge second 20 used_up).0 ≡ some 59
unfolding charge renew retry_after
used_up_refuses = refl

retry_after_suffices_example :
    (1 ≤ 59) × (59 ≤ 60) × ((charge (61 * second) 20 (charge second 20 used_up).1).0 ≡ none)
retry_after_suffices_example =
    retry_after_suffices second (61 * second) 20 59 used_up (omega arith) (omega arith)
      used_up_refuses (omega arith)

-- A request of Alice, signed at one time and presented at another.
abbrev presented : DateTime → DateTime → Presented
presented timestamp clock = record {
  peer_id = alice;
  nonce = text "n";
  timestamp = timestamp;
  clock = clock;
}

abbrev on_time : Presented
on_time = presented (1000 * second) (1000 * second)

on_time_accepted : (judge on_time []).0 ≡ Nonces.accepted
unfolding auth_controls mark_nonce_once prune contains_key
on_time_accepted = refl

abbrev others : List Presented
others =
    record { peer_id = bob; nonce = text "n"; timestamp = 1000 * second; clock = 1100 * second }
    ∷ []

replay_refused_example :
    (judge (presented (1200 * second) (1200 * second)) (serve others (judge on_time []).1)).0
    ≢ Nonces.accepted
replay_refused_example =
    replay_refused on_time (presented (1200 * second) (1200 * second)) others [] on_time_accepted
      refl refl (omega arith, tt) (omega arith)

replay_never_accepted_example :
    (judge (presented (1000 * second) (1300 * second)) (serve others (judge on_time []).1)).0
    ≢ Nonces.accepted
replay_never_accepted_example =
    replay_never_accepted on_time (presented (1000 * second) (1300 * second)) others []
      on_time_accepted refl refl refl (omega arith) (omega arith, tt)

abbrev ahead : Presented
ahead = presented (1200 * second) (1000 * second)

ahead_accepted : (judge ahead []).0 ≡ Nonces.accepted
unfolding auth_controls mark_nonce_once prune contains_key
ahead_accepted = refl

replay_accepted_again_example :
    (judge (presented (1200 * second) (1400 * second)) (judge ahead []).1).0 ≡ Nonces.accepted
replay_accepted_again_example =
    replay_accepted_again ahead (presented (1200 * second) (1400 * second)) [] ahead_accepted refl
      refl refl (omega arith) (omega arith)
