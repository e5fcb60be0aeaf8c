-- ===== src/Client/Compose.antt =====
-- What the client of crates/aichan/src/main.rs signs: `build_publish_record`, `normalize_tags` and
-- `build_message_envelope`. The identity that `create_or_load` returns, the clock and what is random
-- are arguments.
pub mod Laws
pub mod Records
pub mod Delivery
use ai_channel.Prelude.{ℕ, not, none, some, List, [], ◌∷◌, ◌++◌, map, retain}
use ai_channel.Prelude.Text.{Text, text, trim, is_empty, to_ascii_lowercase}
use ai_channel.Prelude.Result.{Result, ok, err, ◌>>=◌}
use ai_channel.Time.{DateTime, add_seconds}
use ai_channel.Json.{number, string, pos_int, json_object}
use ai_channel.Protocol.Types.{
  PeerId, PublishRecordPayload, MessageEnvelopePayload, UnsignedProtocolObject, new_unsigned,
}
use ai_channel.Protocol.External.{Crypto, Codec}
use ai_channel.Protocol.Verify.{sign}
use ai_channel.Publish.Record.{PublishObject}
use ai_channel.Message.{MessageObject, Outcome, returned, panicked}
use ai_channel.Core.External.{Ciphers}
use ai_channel.Core.MessageCrypto.{
  MessageKeyPair, SealedPrivateMessage, message_encryption_suite, message_encryption_aad,
  encrypt_private_message,
}
use ai_channel.Core.Identity.{IdentityFile, signing_key, message_key_pair}
use ai_channel.Client.External.{ClientCodec}

unfoldable pub normalize_tags : List Text → List Text
normalize_tags tags =
    retain (λ tag. not (is_empty tag)) (map (λ tag. to_ascii_lowercase (trim tag)) tags)

abbrev pub publish_payload :
    IdentityFile → MessageKeyPair → Text → List Text → DateTime → PublishRecordPayload
publish_payload identity message_keys body tags now = record {
  peer_id = identity.peer_id;
  public_key = identity.public_key;
  tags = normalize_tags tags;
  contact_policy = text "encrypted_messages";
  capabilities = record {
    message_encryption =
        record {
          suite = message_encryption_suite;
          key_id = message_keys.key_id;
          public_key = message_keys.public_key;
        }
        ∷ [];
  };
  body = body;
  updated_at = now;
}

abbrev pub lifetime_seconds : ℕ
lifetime_seconds = 604_800

-- the random values of a message: the UUID of its id, the ephemeral secret and the nonce
pub record MessageSeed : Type 0 where
  pub uuid : Text
  pub ephemeral : List ℕ
  pub nonce : List ℕ

abbrev pub message_id : MessageSeed → Text
message_id seed = text "msg_" ++ seed.uuid

-- the JSON that is sealed
unfoldable pub plaintext_of : Codec → Text → DateTime → List ℕ
plaintext_of codec body now = codec.to_vec (
    json_object (
      (text "version", number (pos_int 1))
      ∷ (text "body", string body)
      ∷ (text "sent_at", codec.timestamp_value now)
      ∷ []))

abbrev pub message_payload :
    PeerId → PeerId → SealedPrivateMessage → DateTime → MessageEnvelopePayload
message_payload sender recipient sealed expires_at = record {
  sender = sender;
  recipient = recipient;
  content_encoding = text "application/aichan+json; version=1";
  encryption = record {
    suite = sealed.suite;
    recipient_key_id = sealed.recipient_key_id;
    ephemeral_public_key = sealed.ephemeral_public_key;
    nonce = sealed.nonce;
  };
  ciphertext = sealed.ciphertext;
  expires_at = expires_at;
  ttl_seconds = lifetime_seconds;
}

abbrev pub unsigned_message :
    IdentityFile
    → PeerId
    → SealedPrivateMessage
    → MessageSeed
    → DateTime
    → DateTime
    → UnsignedProtocolObject MessageEnvelopePayload
unsigned_message identity recipient sealed seed now expires_at =
    new_unsigned (text "message.envelope") (message_id seed) now
      (message_payload identity.peer_id recipient sealed expires_at)

module _ (crypto : Crypto) (ciphers : Ciphers) (codec : Codec) (client : ClientCodec) where
  -- with the random UUID
  unfoldable pub build_publish_record :
      IdentityFile → Text → List Text → Text → DateTime → Result PublishObject
  build_publish_record identity body tags uuid now = do
    message_keys ← message_key_pair crypto ciphers identity
    key ← signing_key crypto identity
    sign crypto codec codec.unsigned_publish_value
        (new_unsigned (text "publish.record") (text "pub_" ++ uuid) now
          (publish_payload identity message_keys body tags now))
        key

  abbrev pub aad_of : IdentityFile → PeerId → MessageSeed → DateTime → List ℕ
  aad_of identity recipient seed now =
      message_encryption_aad (message_id seed) identity.peer_id recipient (client.to_rfc3339 now)

  -- the part of `build_message_envelope` before the expiry is computed
  unfoldable pub seal_message :
      IdentityFile
      → PeerId
      → Text
      → Text
      → Text
      → MessageSeed
      → DateTime
      → Result (List ℕ × SealedPrivateMessage)
  seal_message identity recipient body key_id public_key seed now = do
    key ← signing_key crypto identity
    sealed ←
        encrypt_private_message crypto ciphers public_key key_id (plaintext_of codec body now)
          (aad_of identity recipient seed now) seed.ephemeral seed.nonce
    ok (key, sealed)

  -- chrono's addition panics past the last time that it represents
  unfoldable pub build_message_envelope :
      IdentityFile → PeerId → Text → Text → Text → MessageSeed → DateTime → Outcome MessageObject
  unfolding seal_message
  build_message_envelope identity recipient body key_id public_key seed now =
      elim (seal_message identity recipient body key_id public_key seed now) [
        | err e ↦ returned (err e)
        | ok made ↦ elim (add_seconds now lifetime_seconds) [
          | none ↦ panicked
          | some expires_at ↦ returned (
              sign crypto codec codec.unsigned_message_value
                (unsigned_message identity recipient made.1 seed now expires_at) made.0)
        ]
      ]
