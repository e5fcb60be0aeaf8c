-- ===== src/Protocol/Request/Laws.antt =====
-- What a verified request signature shows, and that a signed request verifies.
use ai_channel.Prelude.{ℕ, ◌≡◌, refl, List, arith, true, Option, none, some, inl, inr}
use ai_channel.Prelude.Text.{Text, text, text_eq_iff, text_eq_refl}
use ai_channel.Prelude.Result.{ok, err, Result-cases}
use ai_channel.Protocol.Types.{protocol_id, ed25519_alg, RequestToSign, AichanRequestSignature}
use ai_channel.Protocol.External.{Crypto, Codec}
use ai_channel.Protocol.Verify.{derive_peer_id, decode_base64url_array}
use ai_channel.Protocol.Laws.{IsSound, decode_encoded}
use ai_channel.Protocol.Request.{
  option_text_eq, request_signature_input, sign_request, headers_match, verify_request,
}

option_text_eq→eq : (s t : Option Text) → option_text_eq s t ≡ true → s ≡ t
unfolding option_text_eq
option_text_eq→eq none none h = refl
option_text_eq→eq none (some t) h = cc
option_text_eq→eq (some s) none h = cc
option_text_eq→eq (some s) (some t) h = ground (arith, text_eq_iff s t)

option_text_eq_refl : (s : Option Text) → option_text_eq s s ≡ true
unfolding option_text_eq
option_text_eq_refl none = refl
option_text_eq_refl (some s) = text_eq_refl s

module _ (crypto : Crypto) (codec : Codec) (signature : AichanRequestSignature)
    (request : RequestToSign) where
  headers_match_sound :
      headers_match crypto codec signature request ≡ true
      → (signature.peer_id ≡ request.peer_id)
        × (signature.public_key ≡ request.public_key)
        × (signature.timestamp ≡ request.timestamp)
        × (signature.nonce ≡ request.nonce)
        × (signature.idempotency_key ≡ request.idempotency_key)
  unfolding headers_match
  headers_match_sound h = (
    ground (arith, text_eq_iff signature.peer_id request.peer_id),
    ground (arith, text_eq_iff signature.public_key request.public_key),
    ground arith,
    ground (arith, text_eq_iff signature.nonce request.nonce),
    option_text_eq→eq signature.idempotency_key request.idempotency_key (ground arith),
  )

  verified_headers :
      verify_request crypto codec signature request ≡ ok tt
      → headers_match crypto codec signature request ≡ true
  unfolding verify_request
  verified_headers h = ground arith

-- A request signature that verifies for a request repeats the request's peer, public key, timestamp,
-- nonce and idempotency key; and its peer is the one derived from the key that its public key
-- decodes to.
pub verify_request_sound :
    (crypto : Crypto) (codec : Codec) (signature : AichanRequestSignature) (request : RequestToSign)
    (key : List ℕ)
    → verify_request crypto codec signature request ≡ ok tt
    → decode_base64url_array crypto 32 signature.public_key (text "public_key") ≡ ok key
    → (signature.peer_id ≡ derive_peer_id crypto key)
      × (signature.peer_id ≡ request.peer_id)
      × (signature.public_key ≡ request.public_key)
      × (signature.timestamp ≡ request.timestamp)
      × (signature.nonce ≡ request.nonce)
      × (signature.idempotency_key ≡ request.idempotency_key)
verify_request_sound crypto codec signature request key h decoded =
    let same =
      headers_match_sound crypto codec signature request
        (verified_headers crypto codec signature request h) in
    (derived crypto codec signature request key h decoded, same.0, same.1, same.2, same.3, same.4)
  where
    derived :
        (crypto : Crypto) (codec : Codec) (signature : AichanRequestSignature)
        (request : RequestToSign) (key : List ℕ)
        → verify_request crypto codec signature request ≡ ok tt
        → decode_base64url_array crypto 32 signature.public_key (text "public_key") ≡ ok key
        → signature.peer_id ≡ derive_peer_id crypto key
    derived crypto codec signature request key h decoded =
        unfold verify_request in
        ground (arith, decoded, text_eq_iff signature.peer_id (derive_peer_id crypto key))

module _ (crypto : Crypto) (sound : IsSound crypto) (codec : Codec) (request : RequestToSign)
    (key input : List ℕ) where
  -- the signature that `sign_request` makes
  signature_of : AichanRequestSignature
  signature_of = record {
    protocol = protocol_id;
    alg = ed25519_alg;
    peer_id = request.peer_id;
    public_key = request.public_key;
    timestamp = request.timestamp;
    nonce = request.nonce;
    idempotency_key = request.idempotency_key;
    value = crypto.encode_base64url (crypto.sign key input);
  }

  signed_key :
      (signature : AichanRequestSignature)
      → sign_request crypto codec request key ≡ ok signature
      → crypto.encode_base64url (crypto.public_key_of key) ≡ request.public_key
  unfolding sign_request
  signed_key signature h =
      ground
        (arith, text_eq_iff (crypto.encode_base64url (crypto.public_key_of key)) request.public_key)

  signed_result :
      (signature : AichanRequestSignature)
      → request_signature_input crypto codec request ≡ ok input
      → sign_request crypto codec request key ≡ ok signature
      → signature_of ≡ signature
  unfolding sign_request signature_of
  signed_result signature made h = ground (arith, made)

  key_decodes :
      crypto.encode_base64url (crypto.public_key_of key) ≡ request.public_key
      → decode_base64url_array crypto 32 request.public_key (text "public_key")
        ≡ ok (crypto.public_key_of key)
  key_decodes e = rw (← e) (
      decode_encoded crypto sound 32 (crypto.public_key_of key) (text "public_key")
        (sound.key_length key))

  signed_peer :
      request_signature_input crypto codec request ≡ ok input
      → crypto.encode_base64url (crypto.public_key_of key) ≡ request.public_key
      → request.peer_id ≡ derive_peer_id crypto (crypto.public_key_of key)
  unfolding request_signature_input
  signed_peer made e = ground (
    arith,
    made,
    key_decodes e,
    text_eq_iff request.peer_id (derive_peer_id crypto (crypto.public_key_of key)),
  )

  own_headers_match : headers_match crypto codec signature_of request ≡ true
  unfolding headers_match signature_of
  own_headers_match = ground (
    arith,
    text_eq_refl request.peer_id,
    text_eq_refl request.public_key,
    text_eq_refl request.nonce,
    option_text_eq_refl request.idempotency_key,
  )

  signature_verifies :
      request_signature_input crypto codec request ≡ ok input
      → crypto.encode_base64url (crypto.public_key_of key) ≡ request.public_key
      → verify_request crypto codec signature_of request ≡ ok tt
  unfolding verify_request signature_of
  signature_verifies made e = ground (
    arith,
    made,
    own_headers_match,
    key_decodes e,
    text_eq_refl protocol_id,
    text_eq_refl ed25519_alg,
    text_eq_iff request.peer_id (derive_peer_id crypto (crypto.public_key_of key)),
    signed_peer made e,
    sound.key_valid key,
    decode_encoded crypto sound 64 (crypto.sign key input) (text "signature")
        (sound.sign_length key input),
    sound.verify_sign key input,
  )

-- A request that was signed with a key without an error verifies with the signature, where base64
-- and ed25519 keep their promises.
pub verify_request-sign_request :
    (crypto : Crypto)
    → IsSound crypto
    → (codec : Codec) (request : RequestToSign) (key : List ℕ) (signature : AichanRequestSignature)
    → sign_request crypto codec request key ≡ ok signature
    → verify_request crypto codec signature request ≡ ok tt
verify_request-sign_request crypto sound codec request key signature h =
    elim (Result-cases (request_signature_input crypto codec request)) [
      | inr (e, refused) ↦ absurd (not_signed e refused)
      | inl (input, made) ↦
          rw (← signed_result crypto sound codec request key input signature made h) (
            signature_verifies crypto sound codec request key input made
              (signed_key crypto sound codec request key input signature h))
    ]
  where
    not_signed : (e : Text) → request_signature_input crypto codec request ≡ err e → ⊥
    not_signed e refused = unfold sign_request in ground (arith, refused, h)
