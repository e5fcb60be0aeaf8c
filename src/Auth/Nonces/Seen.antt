-- ===== src/Auth/Nonces/Seen.antt =====
-- What the map of seen nonces remembers.
use ai_channel.Prelude.{◌+◌, ◌≤◌, ◌<◌, ◌≡◌, refl, ◌↔◌, ◌⊎◌, true, false, [], ◌∷◌, arith}
use ai_channel.Prelude.Text.{text_eq_iff}
use ai_channel.Time.{DateTime, max_skew}
use ai_channel.Auth.Nonces.{
  RequestNonceKey, key_eq, SeenNonces, oldest_allowed, prune, contains_key,
}

pub key_eq_iff : (a b : RequestNonceKey) → (key_eq a b ≡ true) ↔ (a ≡ b)
unfolding key_eq
key_eq_iff a b = ground (arith, text_eq_iff a.peer_id b.peer_id, text_eq_iff a.nonce b.nonce)

-- The key is in the map, with a time that is not before `since`.
abbrev pub SeenSince : DateTime → RequestNonceKey → SeenNonces → Type 0
SeenSince since key [] = ⊥
SeenSince since key ((k, seen_at) ∷ seen) =
    ((k ≡ key) × (since ≤ seen_at)) ⊎ SeenSince since key seen

-- pruning keeps what was seen less than the skew ago
pub SeenSince-prune :
    (since now : DateTime) (key : RequestNonceKey) (seen : SeenNonces)
    → now ≤ since + max_skew
    → SeenSince since key seen
    → SeenSince since key (prune now seen)
unfolding prune
SeenSince-prune since now key [] h s = s
SeenSince-prune since now key ((k, seen_at) ∷ seen) h s =
    ground (arith, SeenSince-prune since now key seen h)

pub contains_key_of_SeenSince :
    (since : DateTime) (key : RequestNonceKey) (seen : SeenNonces)
    → SeenSince since key seen
    → contains_key key seen ≡ true
unfolding contains_key
contains_key_of_SeenSince since key [] s = absurd s
contains_key_of_SeenSince since key ((k, seen_at) ∷ seen) s =
    ground (arith, key_eq_iff k key, contains_key_of_SeenSince since key seen)

-- The key is not in the map, or every entry for it is older than `before`.
abbrev pub SeenBefore : DateTime → RequestNonceKey → SeenNonces → Type 0
SeenBefore before key [] = Unit
SeenBefore before key ((k, seen_at) ∷ seen) =
    (k ≡ key → seen_at < before) × SeenBefore before key seen

pub contains_key_of_SeenBefore :
    (now : DateTime) (key : RequestNonceKey) (seen : SeenNonces)
    → SeenBefore (oldest_allowed now) key seen
    → contains_key key (prune now seen) ≡ false
unfolding contains_key prune
contains_key_of_SeenBefore now key [] s = refl
contains_key_of_SeenBefore now key ((k, seen_at) ∷ seen) s =
    ground (arith, key_eq_iff k key, s.0, contains_key_of_SeenBefore now key seen s.1)
