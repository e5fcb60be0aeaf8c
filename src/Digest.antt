-- ===== src/Digest.antt =====
-- The hashes of crates/aichan-server/src/lib.rs: `sha256_hex` and what is built on it.
use ai_channel.Prelude.{ℕ, ◌+◌, ◌-◌, ◌/◌, ◌%◌, List, [], ◌∷◌, ◌++◌, ltb, if◌then◌else◌}
use ai_channel.Prelude.Text.{Text, text, as_bytes}
use ai_channel.Protocol.External.{Crypto}

abbrev hex_digit : ℕ → ℕ
hex_digit n = if ltb n 10 then b'0' + n else b'a' + (n - 10)

-- `{byte:02x}` of each byte
hex_bytes : List ℕ → Text
hex_bytes [] = []
hex_bytes (b ∷ bytes) = hex_digit (b / 16) ∷ hex_digit (b % 16) ∷ hex_bytes bytes

module _ (crypto : Crypto) where
  unfoldable pub sha256_hex : List ℕ → Text
  unfolding hex_bytes
  sha256_hex bytes = hex_bytes (crypto.sha256 bytes)

  unfoldable pub backup_auth_hash : Text → Text
  backup_auth_hash auth_token = text "sha256:" ++ sha256_hex (as_bytes auth_token)

  unfoldable pub activity_auth_hash : Text → Text
  activity_auth_hash auth_token = text "sha256:" ++ sha256_hex (as_bytes auth_token)

  unfoldable pub principal_hash : Text → Text
  principal_hash principal = text "sha256:" ++ sha256_hex (as_bytes principal)

  -- the digest that is stored with a backup or an event
  unfoldable pub content_sha256 : List ℕ → Text
  content_sha256 bytes = text "sha256:" ++ sha256_hex bytes
