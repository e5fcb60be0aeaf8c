-- ===== src/Protocol/Laws.antt =====
-- What a verified object shows, and that what is signed verifies.
use ai_channel.Prelude.{ℕ, ◌≡◌, List, arith, length, inl, inr, ap, sym, []}
use ai_channel.Prelude.Text.{Text, text, text_eq_iff, text_eq_refl}
use ai_channel.Prelude.Result.{Result, ok, Result-cases, err, bind-ok}
use ai_channel.Json.{Value}
use ai_channel.Protocol.Types.{
  PeerId, protocol_id, ed25519_alg, PublishRecordPayload, MessageEnvelopePayload,
  UnsignedProtocolObject, SignedProtocolObject, unsigned,
}
use ai_channel.Protocol.External.{Crypto, Codec}
use ai_channel.Protocol.Canonical.{object_signature_input}
use ai_channel.Protocol.Verify.{
  derive_peer_id, decode_base64url_array, sign, verify_signature, verify_publish_record,
  verify_message_envelope,
}

-- A publish record that verifies for a peer is of type publish.record, names that peer in its
-- payload, names the payload's public key in its signature, and that signature verifies for the peer.
pub verify_publish_record_sound :
    (crypto : Crypto) (codec : Codec) (object : SignedProtocolObject PublishRecordPayload)
    (peer : PeerId)
    → verify_publish_record crypto codec object ≡ ok peer
    → (object.payload.peer_id ≡ peer)
      × (object.signature.public_key ≡ object.payload.public_key)
      × (object.object_type ≡ text "publish.record")
      × (verify_signature crypto codec codec.unsigned_publish_value object ≡ ok peer)
unfolding verify_publish_record
verify_publish_record_sound crypto codec object peer h =
    elim (Result-cases (verify_signature crypto codec codec.unsigned_publish_value object)) [
      | inr (e, refused) ↦ absurd (ground (arith, refused))
      | inl (signer, signed) ↦ (
        ground (arith, signed, text_eq_iff signer object.payload.peer_id),
        ground (arith, signed, text_eq_iff object.signature.public_key object.payload.public_key),
        ground (arith, text_eq_iff object.object_type (text "publish.record")),
        ground (arith, signed),
      )
    ]

-- A message envelope that verifies for a peer names that peer as its sender, and its signature
-- verifies for the peer.
pub verify_message_envelope_sound :
    (crypto : Crypto) (codec : Codec) (object : SignedProtocolObject MessageEnvelopePayload)
    (peer : PeerId)
    → verify_message_envelope crypto codec object ≡ ok peer
    → (object.payload.sender ≡ peer)
      × (verify_signature crypto codec codec.unsigned_message_value object ≡ ok peer)
unfolding verify_message_envelope
verify_message_envelope_sound crypto codec object peer h =
    elim (Result-cases (verify_signature crypto codec codec.unsigned_message_value object)) [
      | inr (e, refused) ↦ absurd (ground (arith, refused))
      | inl (signer, signed) ↦
          (ground (arith, signed, text_eq_iff signer object.payload.sender), ground (arith, signed))
    ]

-- What base64 and ed25519 promise.
pub record IsSound (crypto : Crypto) : Type 0 where
  pub decode_encode : (b : List ℕ) → crypto.decode_base64url (crypto.encode_base64url b) ≡ ok b
  pub key_valid :
      (k : List ℕ) → crypto.verifying_key (crypto.public_key_of k) ≡ ok (crypto.public_key_of k)
  pub key_length : (k : List ℕ) → length (crypto.public_key_of k) ≡ 32
  pub sign_length : (k m : List ℕ) → length (crypto.sign k m) ≡ 64
  pub verify_sign :
      (k m : List ℕ) → crypto.verify (crypto.public_key_of k) m (crypto.sign k m) ≡ ok tt

module _ (crypto : Crypto) (sound : IsSound crypto) where
  -- an array that was encoded decodes, if it has the length that is asked for
  pub decode_encoded :
      (n : ℕ) (b : List ℕ) (field : Text)
      → length b ≡ n
      → decode_base64url_array crypto n (crypto.encode_base64url b) field ≡ ok b
  unfolding decode_base64url_array
  decode_encoded n b field h = ground (arith, sound.decode_encode b, h)

  -- the object that `sign` makes
  signed_with : {T : Type 0} → UnsignedProtocolObject T → List ℕ → List ℕ → SignedProtocolObject T
  signed_with object key input = record {
    protocol = object.protocol;
    object_type = object.object_type;
    id = object.id;
    created_at = object.created_at;
    extensions = object.extensions;
    payload = object.payload;
    signature = record {
      alg = ed25519_alg;
      public_key = crypto.encode_base64url (crypto.public_key_of key);
      value = crypto.encode_base64url (crypto.sign key input);
    };
  }

  sign_result :
      (codec : Codec) {T : Type 0} (to_value : UnsignedProtocolObject T → Result Value)
      (object : UnsignedProtocolObject T) (key : List ℕ) (signed : SignedProtocolObject T)
      (input : List ℕ)
      → object_signature_input codec (to_value object) ≡ ok input
      → sign crypto codec to_value object key ≡ ok signed
      → signed_with object key input ≡ signed
  unfolding sign signed_with
  sign_result codec to_value object key signed input made h = ground (arith, made)

  -- An object of this protocol that was signed with a key without an error verifies for the peer of
  -- that key, where base64 and ed25519 keep their promises.
  pub verify_signature-sign :
      (codec : Codec) {T : Type 0} (to_value : UnsignedProtocolObject T → Result Value)
      (object : UnsignedProtocolObject T) (key : List ℕ) (signed : SignedProtocolObject T)
      → object.protocol ≡ protocol_id
      → sign crypto codec to_value object key ≡ ok signed
      → verify_signature crypto codec to_value signed
        ≡ ok (derive_peer_id crypto (crypto.public_key_of key))
  unfolding sign verify_signature unsigned signed_with
  verify_signature-sign codec to_value object key signed p h =
      elim (Result-cases (object_signature_input codec (to_value object))) [
        | inr (e, refused) ↦ absurd (ground (arith, refused))
        | inl (input, made) ↦ rw (← sign_result codec to_value object key signed input made h) (
            ground (
              arith,
              made,
              p,
              text_eq_iff object.protocol protocol_id,
              text_eq_refl ed25519_alg,
              decode_encoded 32 (crypto.public_key_of key) (text "public_key")
                  (sound.key_length key),
              sound.key_valid key,
              decode_encoded 64 (crypto.sign key input) (text "signature")
                  (sound.sign_length key input),
              sound.verify_sign key input,
            ))
      ]

-- What `sign` keeps of an object, and the public key that it adds.
pub record SignedAs (crypto : Crypto) {T : Type 0} (object : UnsignedProtocolObject T)
    (key : List ℕ) (signed : SignedProtocolObject T) : Type 0 where
  pub same : unsigned signed ≡ object
  pub signer : signed.signature.public_key ≡ crypto.encode_base64url (crypto.public_key_of key)

pub sign-SignedAs :
    (crypto : Crypto) (codec : Codec) {T : Type 0}
    (to_value : UnsignedProtocolObject T → Result Value) (object : UnsignedProtocolObject T)
    (key : List ℕ) (signed : SignedProtocolObject T)
    → sign crypto codec to_value object key ≡ ok signed
    → SignedAs crypto object key signed
unfolding sign unsigned
sign-SignedAs crypto codec {T} to_value object key signed h =
    let (input, made, done) = bind-ok (object_signature_input codec (to_value object)) _ signed h in
    record { same = ap (λ r. unsigned_of r) (sym done); signer = ap (λ r. signer_of r) (sym done) }
  where
    unsigned_of : Result (SignedProtocolObject T) → UnsignedProtocolObject T
    unsigned_of (ok o) = unsigned o
    unsigned_of (err e) = object

    signer_of : Result (SignedProtocolObject T) → Text
    signer_of (ok o) = o.signature.public_key
    signer_of (err e) = []
