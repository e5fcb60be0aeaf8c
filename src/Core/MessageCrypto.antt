-- ===== src/Core/MessageCrypto.antt =====
-- Message keys and sealed messages: crates/aichan-core/src/message_crypto.rs. What `OsRng` returns is
-- an argument.
pub mod Laws
use ai_channel.Prelude.{ℕ, List, [], ◌∷◌, ◌++◌, not}
use ai_channel.Prelude.Text.{Text, text, text_eq, trim, is_empty, as_bytes}
use ai_channel.Prelude.Result.{Result, ok, err, ◌>>=◌, ◌>>◌, map_err, ensure}
use ai_channel.Protocol.External.{Crypto}
use ai_channel.Protocol.Canonical.{protocol_error}
use ai_channel.Protocol.Verify.{decode_base64url_array}
use ai_channel.Core.External.{Ciphers}

abbrev pub message_encryption_suite : Text
message_encryption_suite = text "aichan.x25519.chacha20poly1305.v1"

pub record MessageKeyPair : Type 0 where
  pub key_id : Text
  pub public_key : Text
  pub private_key : Text

pub record SealedPrivateMessage : Type 0 where
  pub suite : Text
  pub recipient_key_id : Text
  pub ephemeral_public_key : Text
  pub nonce : Text
  pub ciphertext : Text

-- the message of `AichanError::InvalidIdentity`
unfoldable pub identity_error : Text → Text
identity_error message = text "invalid identity file: " ++ message

unfoldable pub message_encryption_aad : Text → Text → Text → Text → List ℕ
message_encryption_aad message_id sender recipient created_at = as_bytes (
    text "aichan.message.v1\n"
    ++ (message_id ++ b'\n' ∷ (sender ++ b'\n' ∷ (recipient ++ b'\n' ∷ created_at))))

module _ (crypto : Crypto) (ciphers : Ciphers) where
  -- `MessageKeyPair::generate` with the random secret `private`
  unfoldable pub generate : Text → List ℕ → MessageKeyPair
  generate key_id private = record {
    key_id = key_id;
    public_key = crypto.encode_base64url (ciphers.x25519_public_key private);
    private_key = crypto.encode_base64url private;
  }

  -- `MessageKeyPair::validate`
  unfoldable pub validate_key_pair : MessageKeyPair → Result (Unit {0})
  validate_key_pair keys = do
    private ← decode_base64url_array crypto 32 keys.private_key (text "message_private_key")
    public ← decode_base64url_array crypto 32 keys.public_key (text "message_public_key")
    ensure (text_eq (ciphers.x25519_public_key private) public)
        (identity_error (text "message_private_key does not match message_public_key"))
    ensure (not (is_empty (trim keys.key_id)))
        (identity_error (text "message_key_id must not be empty"))

  unfoldable pub from_parts : Text → Text → Text → Result MessageKeyPair
  unfolding validate_key_pair
  from_parts key_id public_key private_key = do
    let keys : MessageKeyPair = record {
      key_id = key_id;
      public_key = public_key;
      private_key = private_key;
    }
    validate_key_pair keys
    ok keys

  unfoldable pub derive_message_key : List ℕ → List ℕ → Result (List ℕ)
  derive_message_key shared_secret aad =
      map_err (λ e. protocol_error (text "message key derivation failed"))
        (ciphers.hkdf_sha256 (as_bytes (text "aichan message encryption v1")) shared_secret aad 32)

  -- with the random secret `ephemeral` and the random `nonce`
  unfoldable pub encrypt_private_message :
      Text → Text → List ℕ → List ℕ → List ℕ → List ℕ → Result SealedPrivateMessage
  encrypt_private_message recipient_public_key recipient_key_id plaintext aad ephemeral nonce = do
    recipient_public ←
        decode_base64url_array crypto 32 recipient_public_key (text "recipient_public_key")
    key ← derive_message_key (ciphers.diffie_hellman ephemeral recipient_public) aad
    ciphertext ←
        map_err (λ e. protocol_error (text "message encryption failed"))
          (ciphers.encrypt key nonce [] plaintext)
    ok (record {
      suite = message_encryption_suite;
      recipient_key_id = recipient_key_id;
      ephemeral_public_key = crypto.encode_base64url (ciphers.x25519_public_key ephemeral);
      nonce = crypto.encode_base64url nonce;
      ciphertext = crypto.encode_base64url ciphertext;
    })

  unfoldable pub decrypt_private_message :
      MessageKeyPair → SealedPrivateMessage → List ℕ → Result (List ℕ)
  decrypt_private_message recipient_keys sealed aad = do
    ensure (text_eq sealed.suite message_encryption_suite)
        (protocol_error (text "unsupported message encryption suite " ++ sealed.suite))
    ensure (text_eq sealed.recipient_key_id recipient_keys.key_id)
        (protocol_error (text "message recipient key id does not match local key"))
    private ←
        decode_base64url_array crypto 32 recipient_keys.private_key (text "message_private_key")
    ephemeral_public ←
        decode_base64url_array crypto 32 sealed.ephemeral_public_key (text "ephemeral_public_key")
    nonce ← decode_base64url_array crypto 12 sealed.nonce (text "message_nonce")
    ciphertext ←
        map_err (λ source. protocol_error (text "invalid message ciphertext encoding: " ++ source))
          (crypto.decode_base64url sealed.ciphertext)
    key ← derive_message_key (ciphers.diffie_hellman private ephemeral_public) aad
    map_err (λ e. protocol_error (text "message decryption failed"))
        (ciphers.decrypt key nonce [] ciphertext)
