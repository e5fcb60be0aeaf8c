-- ===== src/Auth/Nonces/Replay.antt =====
-- Replays of a signed request: refused while the nonce is remembered, and accepted afterwards.
use ai_channel.Prelude.{
  ◌+◌, ◌≤◌, ◌<◌, ◌≡◌, ◌≢◌, false, List, [], ◌∷◌, arith, leb, leb→le, not_leb→lt, Bool-cases, inl,
  inr, All, All-map_imp,
}
use ai_channel.Prelude.Text.{Text}
use ai_channel.Time.{DateTime, max_skew}
use ai_channel.Protocol.Types.{PeerId}
use ai_channel.Auth.Nonces.{
  RequestNonceKey, SeenNonces, oldest_allowed, prune, contains_key, mark_nonce_once, Verdict,
  accepted, auth_controls,
}
use ai_channel.Auth.Nonces.Seen.{
  key_eq_iff, SeenSince, SeenSince-prune, contains_key_of_SeenSince, SeenBefore,
  contains_key_of_SeenBefore,
}

-- A signed request, and the relay's clock when it comes in.
pub record Presented : Type 0 where
  pub peer_id : PeerId
  pub nonce : Text
  pub timestamp : DateTime
  pub clock : DateTime

abbrev pub judge : Presented → SeenNonces → Verdict × SeenNonces
judge r seen = auth_controls r.peer_id r.nonce r.timestamp r.clock seen

-- The map after a sequence of requests, accepted or not.
unfoldable pub serve : List Presented → SeenNonces → SeenNonces
serve [] seen = seen
serve (r ∷ rs) seen = serve rs (judge r seen).1

abbrev pub ClocksUpTo : DateTime → List Presented → Type 0
ClocksUpTo limit = All (λ r. r.clock ≤ limit)

abbrev key_of : Presented → RequestNonceKey
key_of r = record { peer_id = r.peer_id; nonce = r.nonce }

-- one request keeps what was seen less than the skew ago
SeenSince-judge :
    (since : DateTime) (key : RequestNonceKey) (r : Presented) (seen : SeenNonces)
    → r.clock ≤ since + max_skew
    → SeenSince since key seen
    → SeenSince since key (judge r seen).1
unfolding auth_controls mark_nonce_once
SeenSince-judge since key r seen h s = ground (arith, SeenSince-prune since r.clock key seen h s)

SeenSince-serve :
    (since : DateTime) (key : RequestNonceKey) (rs : List Presented) (seen : SeenNonces)
    → ClocksUpTo (since + max_skew) rs
    → SeenSince since key seen
    → SeenSince since key (serve rs seen)
unfolding serve
SeenSince-serve since key [] seen h s = s
SeenSince-serve since key (r ∷ rs) seen h s =
    SeenSince-serve since key rs (judge r seen).1 h.1 (SeenSince-judge since key r seen h.0 s)

accepted_is_seen :
    (r : Presented) (seen : SeenNonces)
    → (judge r seen).0 ≡ accepted
    → SeenSince r.clock (key_of r) (judge r seen).1
unfolding auth_controls mark_nonce_once
accepted_is_seen r seen e = ground arith

seen_is_refused :
    (since : DateTime) (r : Presented) (seen : SeenNonces)
    → r.clock ≤ since + max_skew
    → SeenSince since (key_of r) seen
    → (judge r seen).0 ≢ accepted
unfolding auth_controls mark_nonce_once
seen_is_refused since r seen h s = ground (
  arith,
  contains_key_of_SeenSince since (key_of r) (prune r.clock seen)
      (SeenSince-prune since r.clock (key_of r) seen h s),
)

-- Once a request has been accepted, no request of the same peer with the same nonce is accepted in
-- the 300 seconds that follow, whatever its timestamp and whatever other requests come in between,
-- provided that the clock has not passed those 300 seconds at any of them.
pub replay_refused :
    (first again : Presented) (between : List Presented) (seen : SeenNonces)
    → (judge first seen).0 ≡ accepted
    → again.peer_id ≡ first.peer_id
    → again.nonce ≡ first.nonce
    → ClocksUpTo (first.clock + max_skew) between
    → again.clock ≤ first.clock + max_skew
    → (judge again (serve between (judge first seen).1)).0 ≢ accepted
replay_refused first again between seen e same_peer same_nonce h k =
    let kept =
      SeenSince-serve first.clock (key_of first) between (judge first seen).1 h
        (accepted_is_seen first seen e) in
    seen_is_refused first.clock again (serve between (judge first seen).1) k
      (rw (same_peer, same_nonce) kept)

stale_is_refused :
    (r : Presented) (seen : SeenNonces)
    → r.timestamp + max_skew < r.clock
    → (judge r seen).0 ≢ accepted
unfolding auth_controls
stale_is_refused r seen h = ground arith

-- A request whose timestamp is not ahead of the relay's clock when it is first accepted is never
-- accepted again, at any later time and after any requests in between, provided that the clock
-- never runs backwards past the time of the second presentation.
pub replay_never_accepted :
    (first again : Presented) (between : List Presented) (seen : SeenNonces)
    → (judge first seen).0 ≡ accepted
    → again.peer_id ≡ first.peer_id
    → again.nonce ≡ first.nonce
    → again.timestamp ≡ first.timestamp
    → first.timestamp ≤ first.clock
    → ClocksUpTo again.clock between
    → (judge again (serve between (judge first seen).1)).0 ≢ accepted
replay_never_accepted first again between seen e same_peer same_nonce same_time past h =
    elim (Bool-cases (leb again.clock (first.clock + max_skew))) [
      | inl soon ↦
          let k = leb→le _ _ soon in
          replay_refused first again between seen e same_peer same_nonce
            (All-map_imp (λ r. r.clock ≤ again.clock) (λ r. r.clock ≤ first.clock + max_skew)
              (λ r b. omega (arith, b, k)) between h)
            k
      | inr late ↦
          stale_is_refused again (serve between (judge first seen).1)
            (omega (arith, not_leb→lt _ _ late, same_time, past))
    ]

-- the entries for the key are all older than the skew when the clock reads `later`
absent_then_old :
    (key : RequestNonceKey) (now later : DateTime) (seen : SeenNonces)
    → contains_key key seen ≡ false
    → SeenBefore (oldest_allowed later) key seen
unfolding contains_key
absent_then_old key now later [] h = tt
absent_then_old key now later ((k, seen_at) ∷ seen) h =
    (λ e. ground (arith, key_eq_iff k key), absent_then_old key now later seen (ground arith))

accepted_map :
    (r : Presented) (seen : SeenNonces)
    → (judge r seen).0 ≡ accepted
    → (contains_key (key_of r) (prune r.clock seen) ≡ false)
      × ((judge r seen).1 ≡ (key_of r, r.clock) ∷ prune r.clock seen)
unfolding auth_controls mark_nonce_once
accepted_map r seen e = ground arith

accepted_in_range :
    (r : Presented) (seen : SeenNonces)
    → (judge r seen).0 ≡ accepted
    → r.timestamp ≤ r.clock + max_skew
unfolding auth_controls
accepted_in_range r seen e = ground arith

fresh_is_accepted :
    (r : Presented) (seen : SeenNonces)
    → r.clock ≤ r.timestamp + max_skew
    → r.timestamp ≤ r.clock + max_skew
    → contains_key (key_of r) (prune r.clock seen) ≡ false
    → (judge r seen).0 ≡ accepted
unfolding auth_controls mark_nonce_once
fresh_is_accepted r seen lo hi c = ground arith

-- A request whose timestamp is ahead of the clock when it is accepted can be accepted a second
-- time: more than 300 seconds later the nonce is forgotten, while the same signed request is still
-- inside the accepted range of timestamps.
pub replay_accepted_again :
    (first again : Presented) (seen : SeenNonces)
    → (judge first seen).0 ≡ accepted
    → again.peer_id ≡ first.peer_id
    → again.nonce ≡ first.nonce
    → again.timestamp ≡ first.timestamp
    → first.clock + max_skew < again.clock
    → again.clock ≤ first.timestamp + max_skew
    → (judge again (judge first seen).1).0 ≡ accepted
replay_accepted_again first again seen e same_peer same_nonce same_time later valid =
    let (absent, after) = accepted_map first seen e in
    fresh_is_accepted again (judge first seen).1 (omega (arith, same_time, valid))
      (omega (arith, same_time, later, accepted_in_range first seen e))
      (contains_key_of_SeenBefore again.clock (key_of again) (judge first seen).1 (
        rw (same_peer, same_nonce, after)
          (
            λ p. omega (arith, later),
            absent_then_old (key_of first) first.clock again.clock (prune first.clock seen) absent,
          )))
