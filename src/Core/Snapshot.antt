-- ===== src/Core/Snapshot.antt =====
-- Encrypted memory snapshots: crates/aichan-core/src/activity.rs, whose event and its checks are in
-- Activity/Event.antt. What `OsRng`, the UUID generator and the clock return are arguments.
pub mod Laws
use ai_channel.Prelude.{ℕ, none, some, List, ◌∷◌, ◌++◌, ◌==◌}
use ai_channel.Prelude.Text.{Text, text, as_bytes, decimal}
use ai_channel.Prelude.Result.{Result, ok, err, ◌>>=◌, ◌>>◌, map_err, ensure}
use ai_channel.Time.{DateTime, add_seconds, activity_ttl_seconds}
use ai_channel.Protocol.Types.{ActivityEvent}
use ai_channel.Protocol.External.{Crypto}
use ai_channel.Protocol.Canonical.{protocol_error}
use ai_channel.Protocol.Verify.{decode_base64url_array}
use ai_channel.Activity.Event.{
  activity_content_encoding, activity_encryption_suite, activity_kdf, validate_event,
}
use ai_channel.Message.{Outcome, returned, panicked}
use ai_channel.Core.External.{Ciphers}
use ai_channel.Core.Memory.{MemoryFile, validate_memory}
use ai_channel.Core.Device.{DeviceId}
use ai_channel.Core.Identity.{IdentityFile, signing_key}

pub record ActivityLocator : Type 0 where
  pub bucket_id : Text
  pub auth_token : Text

pub record ActivityPayload : Type 0 where
  pub version : ℕ
  pub memory : MemoryFile
  pub created_at : DateTime

-- serde's conversions of the payload, and chrono's `to_rfc3339`
pub record SnapshotCodec : Type 0 where
  pub print : ActivityPayload → Result (List ℕ)
  pub parse : List ℕ → Result ActivityPayload
  pub to_rfc3339 : DateTime → Text

module _ (crypto : Crypto) (ciphers : Ciphers) where
  unfoldable pub derive_activity_locator : IdentityFile → Result ActivityLocator
  derive_activity_locator identity = do
    seed ← signing_key crypto identity
    bucket_bytes ←
        map_err (λ e. protocol_error (text "activity bucket derivation failed"))
          (ciphers.hkdf_sha256 (as_bytes (text "aichan.activity.v1")) seed
            (as_bytes (text "aichan.activity.v1.bucket_id")) 24)
    auth_bytes ←
        map_err (λ e. protocol_error (text "activity auth derivation failed"))
          (ciphers.hkdf_sha256 (as_bytes (text "aichan.activity.v1")) seed
            (as_bytes (text "aichan.activity.v1.auth_token")) 32)
    ok (record {
      bucket_id = text "sync_" ++ crypto.encode_base64url bucket_bytes;
      auth_token = text "auth_" ++ crypto.encode_base64url auth_bytes;
    })

  unfoldable pub derive_activity_key : IdentityFile → List ℕ → Result (List ℕ)
  derive_activity_key identity salt = do
    seed ← signing_key crypto identity
    map_err (λ e. protocol_error (text "activity key derivation failed"))
        (ciphers.hkdf_sha256 salt seed (as_bytes (text "aichan.activity.v1.encryption_key")) 32)

module _ (codec : SnapshotCodec) where
  unfoldable pub activity_aad : Text → DeviceId → DateTime → List ℕ
  activity_aad event_id source_device_id created_at = as_bytes (
      text "aichan.activity.v1\n"
      ++ (event_id ++ b'\n' ∷ (source_device_id ++ b'\n' ∷ codec.to_rfc3339 created_at)))

abbrev pub new_payload : MemoryFile → DateTime → ActivityPayload
new_payload memory now = record { version = 1; memory = memory; created_at = now }

-- the id of an event, from the hex digits of a random UUID
abbrev pub new_event_id : Text → Text
new_event_id uuid = text "act_" ++ uuid

module _ (crypto : Crypto) where
  -- the event that `encrypt_activity_snapshot` makes
  abbrev pub new_event :
      Text → DeviceId → DateTime → DateTime → List ℕ → List ℕ → List ℕ → ActivityEvent
  new_event uuid device now expires_at salt nonce ciphertext = record {
    version = 1;
    event_id = new_event_id uuid;
    source_device_id = device;
    created_at = now;
    expires_at = expires_at;
    content_encoding = activity_content_encoding;
    encryption = record {
      suite = activity_encryption_suite;
      kdf = activity_kdf;
      salt = crypto.encode_base64url salt;
      nonce = crypto.encode_base64url nonce;
    };
    ciphertext = crypto.encode_base64url ciphertext;
  }

module _ (crypto : Crypto) (ciphers : Ciphers) (codec : SnapshotCodec) where
  -- the part of `encrypt_activity_snapshot` before the expiry is computed: the ciphertext
  unfoldable pub seal_snapshot :
      IdentityFile → DeviceId → MemoryFile → Text → List ℕ → List ℕ → DateTime → Result (List ℕ)
  seal_snapshot identity device memory uuid salt nonce now = do
    validate_memory memory
    plaintext ←
        map_err (λ source. protocol_error (text "invalid activity payload: " ++ source))
          (codec.print (new_payload memory now))
    key ← derive_activity_key crypto ciphers identity salt
    map_err (λ e. protocol_error (text "activity encryption failed"))
        (ciphers.encrypt key nonce (activity_aad codec (new_event_id uuid) device now) plaintext)

  -- with the random UUID, salt and nonce, and the time; chrono's addition panics past its last time
  unfoldable pub encrypt_activity_snapshot :
      IdentityFile
      → DeviceId
      → MemoryFile
      → Text
      → List ℕ
      → List ℕ
      → DateTime
      → Outcome ActivityEvent
  unfolding seal_snapshot
  encrypt_activity_snapshot identity device memory uuid salt nonce now =
      elim (seal_snapshot identity device memory uuid salt nonce now) [
        | err e ↦ returned (err e)
        | ok ciphertext ↦ elim (add_seconds now activity_ttl_seconds) [
          | none ↦ panicked
          | some expires_at ↦
              returned (ok (new_event crypto uuid device now expires_at salt nonce ciphertext))
        ]
      ]

  unfoldable pub decrypt_activity_snapshot : IdentityFile → ActivityEvent → Result ActivityPayload
  decrypt_activity_snapshot identity event = do
    validate_event event
    salt ← decode_base64url_array crypto 16 event.encryption.salt (text "activity salt")
    nonce ← decode_base64url_array crypto 12 event.encryption.nonce (text "activity nonce")
    ciphertext ←
        map_err (λ source. protocol_error (text "invalid activity ciphertext encoding: " ++ source))
          (crypto.decode_base64url event.ciphertext)
    key ← derive_activity_key crypto ciphers identity salt
    plaintext ←
        map_err (λ e. protocol_error (text "activity decryption failed"))
          (ciphers.decrypt key nonce
            (activity_aad codec event.event_id event.source_device_id event.created_at) ciphertext)
    payload ←
        map_err (λ source. protocol_error (text "invalid activity payload: " ++ source))
          (codec.parse plaintext)
    ensure (payload.version == 1)
        (protocol_error (text "unsupported activity payload version " ++ decimal payload.version))
    validate_memory payload.memory
    ok payload
