-- ===== src/Protocol/Verify.antt =====
-- Signing and verification of protocol objects: `sign`, `verify_signature`,
-- `verify_publish_record` and `verify_message_envelope` of crates/aichan-core/src/protocol.rs, and
-- `derive_peer_id` of identity.rs.
use ai_channel.Prelude.{ℕ, List, ◌++◌, ◌==◌, length, take, if◌then◌else◌}
use ai_channel.Prelude.Text.{Text, text, text_eq, starts_with, decimal}
use ai_channel.Prelude.Result.{Result, ok, err, ◌>>=◌, ◌>>◌, map_err, ensure}
use ai_channel.Json.{Value}
use ai_channel.Protocol.Types.{
  PeerId, protocol_id, ed25519_alg, PublishRecordPayload, MessageEnvelopePayload,
  UnsignedProtocolObject, SignedProtocolObject, unsigned,
}
use ai_channel.Protocol.External.{Crypto, Codec}
use ai_channel.Protocol.Canonical.{protocol_error, object_signature_input}

-- `PeerId::parse`
unfoldable pub parse_peer_id : Text → Result PeerId
parse_peer_id value =
    if starts_with (text "peer_") value
    then ok value
    else err (text "invalid identity file: " ++ text "peer_id must start with peer_")

module _ (crypto : Crypto) where
  unfoldable pub derive_peer_id : List ℕ → PeerId
  derive_peer_id public_key =
      text "peer_" ++ crypto.encode_base64url (take 18 (crypto.blake3 public_key))

  -- `decode_base64url_array::<N>`
  unfoldable pub decode_base64url_array : ℕ → Text → Text → Result (List ℕ)
  decode_base64url_array n encoded field = do
    bytes ←
        map_err
          (λ source. protocol_error (text "invalid " ++ field ++ text " encoding: " ++ source))
          (crypto.decode_base64url encoded)
    ensure (length bytes == n) (
        protocol_error
          (field ++ text " must be " ++ decimal n ++ text " bytes, got " ++ decimal (length bytes)))
    ok bytes

module _ (crypto : Crypto) (codec : Codec) {T : Type 0}
    (to_value : UnsignedProtocolObject T → Result Value) where
  -- `UnsignedProtocolObject::sign` with the secret key `key`
  unfoldable pub sign : UnsignedProtocolObject T → List ℕ → Result (SignedProtocolObject T)
  sign object key = do
    input ← object_signature_input codec (to_value object)
    ok (record {
      protocol = object.protocol;
      object_type = object.object_type;
      id = object.id;
      created_at = object.created_at;
      extensions = object.extensions;
      payload = object.payload;
      signature = record {
        alg = ed25519_alg;
        public_key = crypto.encode_base64url (crypto.public_key_of key);
        value = crypto.encode_base64url (crypto.sign key input);
      };
    })

  unfoldable pub verify_signature : SignedProtocolObject T → Result PeerId
  verify_signature object = do
    ensure (text_eq object.protocol protocol_id)
        (protocol_error (text "unsupported protocol " ++ object.protocol))
    ensure (text_eq object.signature.alg ed25519_alg)
        (protocol_error (text "unsupported signature algorithm " ++ object.signature.alg))
    public_key ← decode_base64url_array crypto 32 object.signature.public_key (text "public_key")
    verifying_key ←
        map_err (λ source. protocol_error (text "invalid public_key: " ++ source))
          (crypto.verifying_key public_key)
    signature ← decode_base64url_array crypto 64 object.signature.value (text "signature")
    input ← object_signature_input codec (to_value (unsigned object))
    map_err (λ source. protocol_error (text "invalid signature: " ++ source))
        (crypto.verify verifying_key input signature)
    ok (derive_peer_id crypto public_key)

module _ (crypto : Crypto) (codec : Codec) where
  unfoldable pub verify_publish_record : SignedProtocolObject PublishRecordPayload → Result PeerId
  verify_publish_record object = do
    ensure (text_eq object.object_type (text "publish.record"))
        (protocol_error (text "expected publish.record, got " ++ object.object_type))
    signer_peer_id ← verify_signature crypto codec codec.unsigned_publish_value object
    payload_public_key ←
        decode_base64url_array crypto 32 object.payload.public_key (text "public_key")
    ensure (text_eq object.payload.peer_id (derive_peer_id crypto payload_public_key))
        (protocol_error (text "payload peer_id does not match payload public_key"))
    ensure (text_eq object.signature.public_key object.payload.public_key)
        (protocol_error (text "signature public_key does not match payload public_key"))
    ensure (text_eq signer_peer_id object.payload.peer_id)
        (protocol_error (text "signature public_key does not match payload peer_id"))
    ok signer_peer_id

  unfoldable pub verify_message_envelope :
      SignedProtocolObject MessageEnvelopePayload → Result PeerId
  verify_message_envelope object = do
    ensure (text_eq object.object_type (text "message.envelope"))
        (protocol_error (text "expected message.envelope, got " ++ object.object_type))
    signer_peer_id ← verify_signature crypto codec codec.unsigned_message_value object
    ensure (text_eq signer_peer_id object.payload.sender)
        (protocol_error (text "signature public_key does not match message sender"))
    ok signer_peer_id
