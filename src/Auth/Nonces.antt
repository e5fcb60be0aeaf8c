-- ===== src/Auth/Nonces.antt =====
-- `RequestAuthTracker` and `RequestNonceKey` of crates/aichan-server/src/lib.rs, and the decision of
-- `validate_request_auth_controls`.
pub mod Seen
pub mod Replay
use ai_channel.Prelude.{
  ℕ, ◌+◌, ◌-◌, Bool, true, false, not, ◌&&◌, ◌||◌, Option, none, some, List, [], ◌∷◌, ltb, leb,
  if◌then◌else◌, any, retain,
}
use ai_channel.Prelude.Text.{Text, text_eq}
use ai_channel.Time.{DateTime, max_skew}
use ai_channel.Protocol.Types.{PeerId}

pub record RequestNonceKey : Type 0 where
  pub peer_id : PeerId
  pub nonce : Text

unfoldable pub key_eq : RequestNonceKey → RequestNonceKey → Bool
key_eq a b = text_eq a.peer_id b.peer_id && text_eq a.nonce b.nonce

-- The `BTreeMap` from keys to the time at which they were seen.
abbrev pub SeenNonces : Type 0
SeenNonces = List (RequestNonceKey × DateTime)

-- `now - Duration::seconds(300)`; `Utc::now()` is past the epoch, so the subtraction is exact.
abbrev pub oldest_allowed : DateTime → DateTime
oldest_allowed now = now - max_skew

unfoldable pub prune : DateTime → SeenNonces → SeenNonces
prune now [] = []
prune now ((k, seen_at) ∷ seen) =
    if leb (oldest_allowed now) seen_at then (k, seen_at) ∷ prune now seen else prune now seen

unfoldable pub contains_key : RequestNonceKey → SeenNonces → Bool
contains_key key [] = false
contains_key key ((k, seen_at) ∷ seen) = key_eq k key || contains_key key seen

-- `mark_nonce_once`. The key is inserted only where the map does not have it.
unfoldable pub mark_nonce_once : PeerId → Text → DateTime → SeenNonces → Bool × SeenNonces
unfolding prune contains_key
mark_nonce_once peer_id nonce now seen =
    let kept = prune now seen in
    let key : RequestNonceKey = record { peer_id = peer_id; nonce = nonce } in
    if contains_key key kept then (false, kept) else (true, (key, now) ∷ kept)

pub data Verdict : Type 0 where
  accepted stale replayed : Verdict

-- What `validate_request_auth_controls` decides for a request that is signed with the timestamp
-- `timestamp`, when the clock reads `now`.
unfoldable pub auth_controls :
    PeerId → Text → DateTime → DateTime → SeenNonces → Verdict × SeenNonces
auth_controls peer_id nonce timestamp now seen =
    if ltb timestamp (oldest_allowed now) || ltb (now + max_skew) timestamp
    then (stale, seen)
    else let (fresh, seen') = mark_nonce_once peer_id nonce now seen in
      if fresh then (accepted, seen') else (replayed, seen')
