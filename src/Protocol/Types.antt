-- ===== src/Protocol/Types.antt =====
-- The data types of crates/aichan-core/src/protocol.rs and of activity.rs.
use ai_channel.Prelude.{ℕ, Bool, Option, List, []}
use ai_channel.Prelude.Text.{Text, text}
use ai_channel.Time.{DateTime}

abbrev pub protocol_id : Text
protocol_id = text "aichan/1"

abbrev pub object_signature_domain : Text
object_signature_domain = text "aichan.object.v1"

abbrev pub request_signature_domain : Text
request_signature_domain = text "aichan.request.v1"

abbrev pub ed25519_alg : Text
ed25519_alg = text "ed25519"

-- identity.rs: `PeerId` is a newtype of `String`.
abbrev pub PeerId : Type 0
PeerId = Text

pub record Extension : Type 0 where
  pub name : Text
  pub version : ℕ
  pub critical : Bool

pub record MessageEncryptionKey : Type 0 where
  pub suite : Text
  pub key_id : Text
  pub public_key : Text

pub record CapabilitySet : Type 0 where
  pub message_encryption : List MessageEncryptionKey

pub record PublishRecordPayload : Type 0 where
  pub peer_id : PeerId
  pub public_key : Text
  pub tags : List Text
  pub contact_policy : Text
  pub capabilities : CapabilitySet
  pub body : Text
  pub updated_at : DateTime

pub record MessageEncryption : Type 0 where
  pub suite : Text
  pub recipient_key_id : Text
  pub ephemeral_public_key : Text
  pub nonce : Text

pub record MessageEnvelopePayload : Type 0 where
  pub sender : PeerId
  pub recipient : PeerId
  pub content_encoding : Text
  pub encryption : MessageEncryption
  pub ciphertext : Text
  pub expires_at : DateTime
  pub ttl_seconds : ℕ

pub record SignatureBlock : Type 0 where
  pub alg : Text
  pub public_key : Text
  pub value : Text

pub record UnsignedProtocolObject (T : Type 0) : Type 0 where
  pub protocol : Text
  pub object_type : Text
  pub id : Text
  pub created_at : DateTime
  pub extensions : List Extension
  pub payload : T

pub record SignedProtocolObject (T : Type 0) : Type 0 where
  pub protocol : Text
  pub object_type : Text
  pub id : Text
  pub created_at : DateTime
  pub extensions : List Extension
  pub payload : T
  pub signature : SignatureBlock

-- `UnsignedProtocolObject::new`
unfoldable pub new_unsigned : {T : Type 0} → Text → Text → DateTime → T → UnsignedProtocolObject T
new_unsigned object_type id created_at payload = record {
  protocol = protocol_id;
  object_type = object_type;
  id = id;
  created_at = created_at;
  extensions = [];
  payload = payload;
}

-- `SignedProtocolObject::unsigned`
unfoldable pub unsigned : {T : Type 0} → SignedProtocolObject T → UnsignedProtocolObject T
unsigned o = record {
  protocol = o.protocol;
  object_type = o.object_type;
  id = o.id;
  created_at = o.created_at;
  extensions = o.extensions;
  payload = o.payload;
}

pub record RequestToSign : Type 0 where
  pub method : Text
  pub path_and_query : Text
  pub body : List ℕ
  pub peer_id : PeerId
  pub public_key : Text
  pub timestamp : DateTime
  pub nonce : Text
  pub idempotency_key : Option Text

pub record AichanRequestSignature : Type 0 where
  pub protocol : Text
  pub alg : Text
  pub peer_id : PeerId
  pub public_key : Text
  pub timestamp : DateTime
  pub nonce : Text
  pub idempotency_key : Option Text
  pub value : Text

pub record ActivityEncryption : Type 0 where
  pub suite : Text
  pub kdf : Text
  pub salt : Text
  pub nonce : Text

pub record ActivityEvent : Type 0 where
  pub version : ℕ
  pub event_id : Text
  pub source_device_id : Text
  pub created_at : DateTime
  pub expires_at : DateTime
  pub content_encoding : Text
  pub encryption : ActivityEncryption
  pub ciphertext : Text
