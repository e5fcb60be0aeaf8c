-- ===== src/Core/BackupFile.antt =====
-- Encrypted backups: crates/aichan-core/src/backup.rs, but for its reads and writes. What `OsRng` and
-- the clock return are arguments; serde's conversions of the payload are a parameter.
pub mod Laws
use ai_channel.Prelude.{ℕ, Option, none, List, [], ◌++◌, ◌==◌}
use ai_channel.Prelude.Text.{Text, text, text_eq, starts_with, as_bytes, decimal}
use ai_channel.Prelude.Result.{Result, ok, ◌>>=◌, ◌>>◌, map_err, ensure}
use ai_channel.Time.{DateTime}
use ai_channel.Protocol.Types.{PeerId}
use ai_channel.Protocol.External.{Crypto}
use ai_channel.Protocol.Canonical.{protocol_error}
use ai_channel.Protocol.Verify.{decode_base64url_array}
use ai_channel.Core.External.{Ciphers}
use ai_channel.Core.Memory.{MemoryFile, validate_memory}
use ai_channel.Core.Device.{DeviceId}
use ai_channel.Core.Config.{AichanConfig}
use ai_channel.Core.Identity.{IdentityFile, signing_key, message_key_pair}

abbrev pub backup_encryption_suite : Text
backup_encryption_suite = text "aichan.backup.chacha20poly1305.hkdf-sha256.v1"

abbrev pub backup_kdf : Text
backup_kdf = text "hkdf-sha256"

abbrev pub recovery_phrase_prefix : Text
recovery_phrase_prefix = text "aichan-rp-"

pub record BackupEncryption : Type 0 where
  pub suite : Text
  pub kdf : Text
  pub salt : Text
  pub nonce : Text

pub record BackupFile : Type 0 where
  pub version : ℕ
  pub created_at : DateTime
  pub encryption : BackupEncryption
  pub ciphertext : Text

pub record BackupPayload : Type 0 where
  pub version : ℕ
  pub peer_id : PeerId
  pub source_device_id : DeviceId
  pub identity : IdentityFile
  pub memory : MemoryFile
  pub config : Option AichanConfig
  pub created_at : DateTime

pub record HostedBackupLocator : Type 0 where
  pub backup_lookup_id : Text
  pub backup_auth_token : Text

pub record BackupMetadata : Type 0 where
  pub version : ℕ
  pub last_local_backup_at : Option DateTime
  pub last_local_backup_path : Option Text
  pub backup_lookup_id : Option Text
  pub last_hosted_backup_at : Option DateTime
  pub last_hosted_generation_id : Option Text
  pub last_restore_at : Option DateTime
  pub last_restore_source : Option Text
  pub last_restored_peer_id : Option PeerId

-- `BackupMetadata::default`
abbrev pub default_metadata : BackupMetadata
default_metadata = record {
  version = 1;
  last_local_backup_at = none;
  last_local_backup_path = none;
  backup_lookup_id = none;
  last_hosted_backup_at = none;
  last_hosted_generation_id = none;
  last_restore_at = none;
  last_restore_source = none;
  last_restored_peer_id = none;
}

-- `BackupMetadata::validate`
unfoldable pub validate_metadata : BackupMetadata → Result (Unit {0})
validate_metadata metadata =
    ensure (metadata.version == 1)
      (protocol_error (text "unsupported backup metadata version " ++ decimal metadata.version))

-- serde's `to_vec` and `from_slice` for `BackupPayload`
pub record PayloadCodec : Type 0 where
  pub print : BackupPayload → Result (List ℕ)
  pub parse : List ℕ → Result BackupPayload

-- `BackupFile::validate`
unfoldable pub validate_file : BackupFile → Result (Unit {0})
validate_file backup = do
  ensure (backup.version == 1)
      (protocol_error (text "unsupported backup version " ++ decimal backup.version))
  ensure (text_eq backup.encryption.suite backup_encryption_suite)
      (protocol_error (text "unsupported backup encryption suite " ++ backup.encryption.suite))
  ensure (text_eq backup.encryption.kdf backup_kdf)
      (protocol_error (text "unsupported backup kdf " ++ backup.encryption.kdf))

unfoldable pub validate_recovery_phrase : Text → Result (Unit {0})
validate_recovery_phrase recovery_phrase =
    ensure (starts_with recovery_phrase_prefix recovery_phrase)
      (protocol_error (text "recovery phrase has invalid format"))

module _ (crypto : Crypto) (ciphers : Ciphers) where
  -- `BackupPayload::validate`
  unfoldable pub validate_payload : BackupPayload → Result (Unit {0})
  validate_payload payload = do
    ensure (payload.version == 1)
        (protocol_error (text "unsupported backup payload version " ++ decimal payload.version))
    ensure (text_eq payload.identity.peer_id payload.peer_id)
        (protocol_error (text "backup peer_id does not match identity peer_id"))
    key ← signing_key crypto payload.identity
    pair ← message_key_pair crypto ciphers payload.identity
    validate_memory payload.memory

  -- with the 24 random bytes
  unfoldable pub generate_recovery_phrase : List ℕ → Text
  generate_recovery_phrase bytes = recovery_phrase_prefix ++ crypto.encode_base64url bytes

  unfoldable pub derive_hosted_backup_locator : Text → Result HostedBackupLocator
  derive_hosted_backup_locator recovery_phrase = do
    validate_recovery_phrase recovery_phrase
    lookup_bytes ←
        map_err (λ e. protocol_error (text "backup lookup derivation failed"))
          (ciphers.hkdf_sha256 (as_bytes (text "aichan.backup.v1")) (as_bytes recovery_phrase)
            (as_bytes (text "aichan.backup.v1.lookup_id")) 24)
    auth_bytes ←
        map_err (λ e. protocol_error (text "backup auth derivation failed"))
          (ciphers.hkdf_sha256 (as_bytes (text "aichan.backup.v1")) (as_bytes recovery_phrase)
            (as_bytes (text "aichan.backup.v1.auth_token")) 32)
    ok (record {
      backup_lookup_id = text "bak_" ++ crypto.encode_base64url lookup_bytes;
      backup_auth_token = text "auth_" ++ crypto.encode_base64url auth_bytes;
    })

  unfoldable pub derive_backup_key : Text → List ℕ → Result (List ℕ)
  derive_backup_key recovery_phrase salt = do
    validate_recovery_phrase recovery_phrase
    map_err (λ e. protocol_error (text "backup key derivation failed"))
        (ciphers.hkdf_sha256 salt (as_bytes recovery_phrase)
          (as_bytes (text "aichan backup encryption v1")) 32)

  -- the file that `encrypt_backup` makes
  abbrev pub backup_file : List ℕ → List ℕ → DateTime → List ℕ → BackupFile
  backup_file salt nonce now ciphertext = record {
    version = 1;
    created_at = now;
    encryption = record {
      suite = backup_encryption_suite;
      kdf = backup_kdf;
      salt = crypto.encode_base64url salt;
      nonce = crypto.encode_base64url nonce;
    };
    ciphertext = crypto.encode_base64url ciphertext;
  }

module _ (crypto : Crypto) (ciphers : Ciphers) (codec : PayloadCodec) where
  -- with the random salt and nonce, and the time
  unfoldable pub encrypt_backup :
      BackupPayload → Text → List ℕ → List ℕ → DateTime → Result BackupFile
  encrypt_backup payload recovery_phrase salt nonce now = do
    validate_payload crypto ciphers payload
    key ← derive_backup_key crypto ciphers recovery_phrase salt
    plaintext ←
        map_err (λ source. protocol_error (text "invalid backup payload: " ++ source))
          (codec.print payload)
    ciphertext ←
        map_err (λ e. protocol_error (text "backup encryption failed"))
          (ciphers.encrypt key nonce [] plaintext)
    ok (backup_file crypto ciphers salt nonce now ciphertext)

  unfoldable pub decrypt_backup : BackupFile → Text → Result BackupPayload
  decrypt_backup backup recovery_phrase = do
    validate_file backup
    salt ← decode_base64url_array crypto 16 backup.encryption.salt (text "backup salt")
    nonce ← decode_base64url_array crypto 12 backup.encryption.nonce (text "backup nonce")
    ciphertext ←
        map_err (λ source. protocol_error (text "invalid backup ciphertext encoding: " ++ source))
          (crypto.decode_base64url backup.ciphertext)
    key ← derive_backup_key crypto ciphers recovery_phrase salt
    plaintext ←
        map_err (λ e. protocol_error (text "backup decryption failed"))
          (ciphers.decrypt key nonce [] ciphertext)
    payload ←
        map_err (λ source. protocol_error (text "invalid backup payload: " ++ source))
          (codec.parse plaintext)
    validate_payload crypto ciphers payload
    ok payload
