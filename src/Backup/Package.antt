-- ===== src/Backup/Package.antt =====
-- The checks of an uploaded backup in crates/aichan-server/src/lib.rs:
-- `validate_hosted_backup_package`, `reject_private_backup_material`, `validate_backup_lookup_id`.
pub mod Private
use ai_channel.Prelude.{
  ℕ, Bool, not, ◌&&◌, ◌||◌, Option, none, some, List, [], ◌∷◌, leb, ◌==◌, if◌then◌else◌, any, all,
}
use ai_channel.Prelude.Text.{
  Text, text, text_eq, trim, is_empty, byte_len, to_ascii_lowercase, as_bytes,
}
use ai_channel.Prelude.Result.{Result, ok, ◌>>=◌, ◌>>◌, ensure, context, map_err}
use ai_channel.Json.{
  Value, null, bool, number, string, array, object, Items, nil, cons, Fields, end, field, map_get,
  as_object,
}
use ai_channel.Protocol.External.{Codec}

abbrev pub max_backup_ciphertext_chars : ℕ
max_backup_ciphertext_chars = 65_536

abbrev pub max_id_bytes : ℕ
max_id_bytes = 96

-- the `matches!` of `reject_private_backup_material`
unfoldable pub is_private_key : Text → Bool
is_private_key key = any (text_eq (to_ascii_lowercase key)) (
    text "identity"
    ∷ text "memory"
    ∷ text "private_key"
    ∷ text "signing_private_key"
    ∷ text "message_private_key"
    ∷ text "recovery_phrase"
    ∷ text "passphrase"
    ∷ [])

unfoldable mutual
  pub reject_private_backup_material : Value → Result (Unit {0})
  reject_private_backup_material null = ok tt
  reject_private_backup_material (bool b) = ok tt
  reject_private_backup_material (number n) = ok tt
  reject_private_backup_material (string s) = ok tt
  reject_private_backup_material (array values) = reject_in_items values
  reject_private_backup_material (object entries) = reject_in_fields entries

  pub reject_in_items : Items → Result (Unit {0})
  reject_in_items nil = ok tt
  reject_in_items (cons v vs) = do reject_private_backup_material v; reject_in_items vs

  pub reject_in_fields : Fields → Result (Unit {0})
  reject_in_fields end = ok tt
  reject_in_fields (field key v entries) = do
    ensure (not (is_private_key key))
        (text "hosted backup package contains plaintext private material")
    reject_private_backup_material v
    reject_in_fields entries

abbrev trimmed_text : Option Value → Option Text
trimmed_text none = none
trimmed_text (some (string s)) = if is_empty (trim s) then none else some (trim s)
trimmed_text (some _) = none

unfoldable pub validate_hosted_backup_package : Value → Result (Unit {0})
validate_hosted_backup_package value = do
  entries ← context (as_object value) (text "hosted backup package must be a JSON object")
  ciphertext ←
      context (trimmed_text (map_get (text "ciphertext") entries))
        (text "hosted backup package must contain ciphertext")
  ensure (leb (byte_len ciphertext) max_backup_ciphertext_chars)
      (text "hosted backup ciphertext is too large")
  reject_private_backup_material value

unfoldable pub parse_hosted_backup_package : Codec → List ℕ → Result Value
parse_hosted_backup_package codec body = do
  value ← map_err (λ _. text "invalid JSON hosted backup package") (codec.parse_value body)
  validate_hosted_backup_package value
  ok value

-- the bytes that an id may have
unfoldable pub is_id_byte : ℕ → Bool
is_id_byte byte =
    leb b'a' byte && leb byte b'z'
    || leb b'A' byte && leb byte b'Z'
    || leb b'0' byte && leb byte b'9'
    || byte == b'-'
    || byte == b'_'
    || byte == b'.'

unfoldable pub validate_backup_lookup_id : Text → Result (Unit {0})
validate_backup_lookup_id lookup_id = do
  ensure (leb (byte_len lookup_id) max_id_bytes) (text "backup lookup id is too long")
  ensure (all is_id_byte (as_bytes lookup_id))
      (text "backup lookup id contains unsupported characters")
