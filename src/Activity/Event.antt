-- ===== src/Activity/Event.antt =====
-- `ActivityEvent::validate` of crates/aichan-core/src/activity.rs; `parse_activity_event` and
-- `validate_activity_bucket_id` of crates/aichan-server/src/lib.rs.
use ai_channel.Prelude.{ℕ, ◌-◌, ◌*◌, not, List, ◌++◌, ltb, leb, ◌==◌, all}
use ai_channel.Prelude.Text.{
  Text, text, text_eq, starts_with, is_empty, byte_len, as_bytes, decimal,
}
use ai_channel.Prelude.Result.{Result, ok, ◌>>=◌, ◌>>◌, ensure, map_err}
use ai_channel.Time.{second, activity_ttl_seconds}
use ai_channel.Protocol.Types.{ActivityEvent}
use ai_channel.Protocol.External.{Codec}
use ai_channel.Protocol.Canonical.{protocol_error}
use ai_channel.Backup.Package.{max_id_bytes, is_id_byte}

abbrev pub max_activity_ciphertext_chars : ℕ
max_activity_ciphertext_chars = 65_536

abbrev pub activity_content_encoding : Text
activity_content_encoding = text "application/aichan+json; version=1"

abbrev pub activity_encryption_suite : Text
activity_encryption_suite = text "aichan.activity.chacha20poly1305.hkdf-sha256.v1"

abbrev pub activity_kdf : Text
activity_kdf = text "hkdf-sha256"

-- `ActivityEvent::validate`
unfoldable pub validate_event : ActivityEvent → Result (Unit {0})
validate_event event = do
  ensure (event.version == 1)
      (protocol_error (text "unsupported activity event version " ++ decimal event.version))
  ensure (starts_with (text "act_") event.event_id)
      (protocol_error (text "activity event_id must start with act_"))
  ensure (ltb event.created_at event.expires_at)
      (protocol_error (text "activity expires_at must be after created_at"))
  ensure (leb (event.expires_at - event.created_at) (activity_ttl_seconds * second))
      (protocol_error (text "activity ttl exceeds seven-day sync window"))
  ensure (text_eq event.content_encoding activity_content_encoding)
      (protocol_error (text "unsupported activity content encoding " ++ event.content_encoding))
  ensure (text_eq event.encryption.suite activity_encryption_suite)
      (protocol_error (text "unsupported activity encryption suite " ++ event.encryption.suite))
  ensure (text_eq event.encryption.kdf activity_kdf)
      (protocol_error (text "unsupported activity kdf " ++ event.encryption.kdf))

unfoldable pub parse_activity_event : Codec → List ℕ → Result ActivityEvent
parse_activity_event codec body = do
  event ← map_err (λ _. text "invalid JSON activity event") (codec.parse_activity_event body)
  validate_event event
  ensure (leb (byte_len event.ciphertext) max_activity_ciphertext_chars)
      (text "activity ciphertext is too large")
  ok event

unfoldable pub validate_activity_bucket_id : Text → Result (Unit {0})
validate_activity_bucket_id bucket_id = do
  ensure (not (is_empty bucket_id)) (text "activity bucket id is required")
  ensure (leb (byte_len bucket_id) max_id_bytes) (text "activity bucket id is too long")
  ensure (all is_id_byte (as_bytes bucket_id))
      (text "activity bucket id contains unsupported characters")
