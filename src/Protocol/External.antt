-- ===== src/Protocol/External.antt =====
-- The third-party functions that the program calls: base64, hashing and signatures (`Crypto`), and
-- serde's and chrono's conversions (`Codec`). Nothing is assumed of them but their types; a theorem
-- that needs a law names it as a hypothesis.
use ai_channel.Prelude.{ℕ, List}
use ai_channel.Prelude.Text.{Text}
use ai_channel.Prelude.Result.{Result}
use ai_channel.Time.{DateTime}
use ai_channel.Json.{Value}
use ai_channel.Protocol.Types.{
  PublishRecordPayload, MessageEnvelopePayload, UnsignedProtocolObject, SignedProtocolObject,
  ActivityEvent,
}

pub record Crypto : Type 0 where
  -- base64url without padding
  pub encode_base64url : List ℕ → Text
  pub decode_base64url : Text → Result (List ℕ)
  -- the digest bytes
  pub sha256 : List ℕ → List ℕ
  pub blake3 : List ℕ → List ℕ
  -- `VerifyingKey::from_bytes`: the same key, or an error
  pub verifying_key : List ℕ → Result (List ℕ)
  -- key, message, signature
  pub verify : List ℕ → List ℕ → List ℕ → Result (Unit {0})
  -- `SigningKey::verifying_key().to_bytes()` and `SigningKey::sign`
  pub public_key_of : List ℕ → List ℕ
  pub sign : List ℕ → List ℕ → List ℕ

pub record Codec : Type 0 where
  -- `serde_json::to_vec` of a `Value`, which cannot fail
  pub to_vec : Value → List ℕ
  pub parse_value : List ℕ → Result Value
  pub parse_publish_record : List ℕ → Result (SignedProtocolObject PublishRecordPayload)
  pub parse_message_envelope : List ℕ → Result (SignedProtocolObject MessageEnvelopePayload)
  pub parse_activity_event : List ℕ → Result ActivityEvent
  -- `serde_json::to_value`
  pub unsigned_publish_value : UnsignedProtocolObject PublishRecordPayload → Result Value
  pub unsigned_message_value : UnsignedProtocolObject MessageEnvelopePayload → Result Value
  pub signed_publish_value : SignedProtocolObject PublishRecordPayload → Value
  pub signed_message_value : SignedProtocolObject MessageEnvelopePayload → Value
  pub activity_event_value : ActivityEvent → Value
  -- RFC 3339 with seconds and `Z`, and its parser; the serde form of a time
  pub format_timestamp_secs : DateTime → Text
  pub parse_from_rfc3339 : Text → Result DateTime
  pub timestamp_value : DateTime → Value
  pub parse_timestamp_value : Value → Result DateTime
