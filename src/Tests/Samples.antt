-- ===== src/Tests/Samples.antt =====
-- The concrete data of the tests: a toy `Crypto` and `Codec`, and objects of each kind.
use ai_channel.Prelude.{none, ℕ, zero, suc, ◌+◌, ◌*◌, false, List, [], ◌∷◌, refl}
use ai_channel.Prelude.Text.{Text, text}
use ai_channel.Prelude.Result.{ok, err, Result}
use ai_channel.Time.{DateTime, second, unix_epoch}
use ai_channel.Json.{Value, object, field, end, string, null}
use ai_channel.Protocol.Types.{
  PeerId, protocol_id, ed25519_alg, MessageEnvelopePayload, UnsignedProtocolObject, SignatureBlock,
  ActivityEvent, RequestToSign, AichanRequestSignature,
}
use ai_channel.Protocol.External.{Crypto, Codec}
use ai_channel.Storage.{no_faults}
use ai_channel.Http.{HttpResponse}
use ai_channel.Limits.Rate.{default_config}
use ai_channel.Auth.Admin.{disabled}
use ai_channel.Server.State.{External, Readings, ServerState}
use ai_channel.Protocol.Laws.{IsSound}
use ai_channel.Publish.Record.{PublishObject}
use ai_channel.Message.{MessageObject}
use ai_channel.Backup.{StoredHostedBackupGeneration, StoredHostedBackupBucket}
use ai_channel.Activity.{StoredActivityBucket, ActivityCursor, CursorCodec}

abbrev pub zeros : ℕ → List ℕ
zeros zero = []
zeros (suc n) = 0 ∷ zeros n

-- Encodes bytes as themselves, hashes everything to nothing and accepts every signature.
abbrev pub toy_crypto : Crypto
toy_crypto = record {
  encode_base64url = λ b. b;
  decode_base64url = λ t. ok t;
  sha256 = λ b. [];
  blake3 = λ b. [];
  verifying_key = λ k. ok k;
  verify = λ k m s. ok tt;
  public_key_of = λ k. zeros 32;
  sign = λ k m. zeros 64;
}

pub toy_crypto-IsSound : IsSound toy_crypto
toy_crypto-IsSound = record {
  decode_encode = λ b. refl;
  key_valid = λ k. refl;
  key_length = λ k. refl;
  sign_length = λ k m. refl;
  verify_sign = λ k m. refl;
}

abbrev pub toy_codec : Codec
toy_codec = record {
  to_vec = λ v. [];
  parse_value = λ b. ok null;
  parse_publish_record = λ b. err [];
  parse_message_envelope = λ b. err [];
  parse_activity_event = λ b. err [];
  unsigned_publish_value = λ o. ok null;
  unsigned_message_value = λ o. ok null;
  signed_publish_value = λ o. null;
  signed_message_value = λ o. null;
  activity_event_value = λ e. null;
  format_timestamp_secs = λ t. [];
  parse_from_rfc3339 = λ t. ok 0;
  timestamp_value = λ t. null;
  parse_timestamp_value = λ v. ok 0;
}

-- the peer id that `toy_crypto` derives from any key
abbrev pub alice : PeerId
alice = text "peer_"

abbrev pub bob : PeerId
bob = text "peer_bob"

abbrev pub toy_signature : SignatureBlock
toy_signature = record { alg = ed25519_alg; public_key = zeros 32; value = zeros 64 }

-- what Alice publishes under an id
abbrev pub publish_object : Text → PublishObject
publish_object id = record {
  protocol = protocol_id;
  object_type = text "publish.record";
  id = id;
  created_at = 10;
  extensions = [];
  payload = record {
    peer_id = alice;
    public_key = zeros 32;
    tags = text "cooking" ∷ [];
    contact_policy = text "open";
    capabilities = record { message_encryption = [] };
    body = text "hello";
    updated_at = 10;
  };
  signature = toy_signature;
}

abbrev message_payload : DateTime → MessageEnvelopePayload
message_payload created_at = record {
  sender = alice;
  recipient = bob;
  content_encoding = text "text";
  encryption = record {
    suite = text "suite";
    recipient_key_id = text "key";
    ephemeral_public_key = text "ephemeral";
    nonce = text "nonce";
  };
  ciphertext = text "cipher";
  expires_at = created_at + 60 * second;
  ttl_seconds = 60;
}

abbrev pub unsigned_message : UnsignedProtocolObject MessageEnvelopePayload
unsigned_message = record {
  protocol = protocol_id;
  object_type = text "message.envelope";
  id = text "msg_1";
  created_at = 10;
  extensions = [];
  payload = message_payload 10;
}

-- what Alice sends to Bob, to be read within a minute
abbrev pub message_object : DateTime → MessageObject
message_object created_at = record {
  protocol = protocol_id;
  object_type = text "message.envelope";
  id = text "msg_1";
  created_at = created_at;
  extensions = [];
  payload = message_payload created_at;
  signature = toy_signature;
}

abbrev pub generation : Text → DateTime → StoredHostedBackupGeneration
generation id created_at = record {
  generation_id = id;
  created_at = created_at;
  size_bytes = 4;
  content_sha256 = text "sha256:";
  backup = null;
  deleted = false;
}

-- a bucket whose token hashes like every other with `toy_crypto`
abbrev pub backup_bucket : List StoredHostedBackupGeneration → StoredHostedBackupBucket
backup_bucket generations = record {
  lookup_id = text "id";
  auth_hash = text "sha256:";
  generations = generations;
  created_at = 1;
  updated_at = 2;
}

abbrev pub activity_event : Text → ActivityEvent
activity_event id = record {
  version = 1;
  event_id = id;
  source_device_id = text "device";
  created_at = 10;
  expires_at = 60 * second;
  content_encoding = text "application/aichan+json; version=1";
  encryption = record {
    suite = text "suite";
    kdf = text "hkdf-sha256";
    salt = text "salt";
    nonce = text "nonce";
  };
  ciphertext = text "cipher";
}

abbrev pub activity_bucket : StoredActivityBucket
activity_bucket = record {
  bucket_id = text "bucket";
  auth_hash = text "sha256:";
  events =
      record {
        event = activity_event (text "act_1");
        stored_at = 10;
        size_bytes = 0;
        content_sha256 = [];
      }
      ∷ [];
  created_at = 1;
  updated_at = 10;
}

abbrev decode_cursor : Text → Result ActivityCursor
decode_cursor [] = err []
decode_cursor (created_at ∷ event_id) = ok (record { created_at = created_at; event_id = event_id })

abbrev pub toy_cursors : CursorCodec
toy_cursors = record {
  encode = λ cursor. ok (cursor.created_at ∷ cursor.event_id);
  decode = decode_cursor;
}

abbrev toy_response : HttpResponse
toy_response = record { status = 200; headers = []; body = [] }

-- the functions that a server calls, where every body parses to Alice's message
abbrev pub toy_external : External
toy_external = record {
  crypto = toy_crypto;
  codec = record toy_codec { parse_message_envelope = λ b. ok (message_object 10) };
  publish_cursors = record { encode = λ c. ok []; decode = λ t. err [] };
  activity_cursors = toy_cursors;
  parse_moderation = λ b. err [];
  discovery_response = toy_response;
  agent_response = toy_response;
  agent_json_response = toy_response;
  install_script_response = toy_response;
  directory_response = toy_response;
}

abbrev pub toy_readings : Readings
toy_readings = record {
  instant = 5 * second;
  now_auth = unix_epoch + 7 * second;
  now = unix_epoch + 7 * second;
  publish_faults = no_faults;
  message_faults = no_faults;
  backup_faults = no_faults;
  activity_faults = no_faults;
  tokeninfo = λ t. err [];
}

-- a server with Alice's message in its store
abbrev pub toy_state : ServerState
toy_state = record {
  rate_limits = default_config;
  buckets = [];
  seen_nonces = [];
  admin_auth = disabled;
  publish_store = [];
  message_store = record { object = message_object 10; stored_at = 20 } ∷ [];
  backup_store = [];
  activity_store = [];
}

abbrev pub request_to_be_signed : RequestToSign
request_to_be_signed = record {
  method = text "GET";
  path_and_query = text "/v1/inbox";
  body = [];
  peer_id = alice;
  public_key = zeros 32;
  timestamp = 10;
  nonce = text "n";
  idempotency_key = none;
}

abbrev pub request_signature : AichanRequestSignature
request_signature = record {
  protocol = protocol_id;
  alg = ed25519_alg;
  peer_id = alice;
  public_key = zeros 32;
  timestamp = 10;
  nonce = text "n";
  idempotency_key = none;
  value = zeros 64;
}

abbrev pub zero_key : List ℕ
zero_key = zeros 32

abbrev pub backup_package : Value
backup_package = object (field (text "ciphertext") (string (text "cipher")) end)

-- every body parses to the package
abbrev pub backup_codec : Codec
backup_codec = record toy_codec { parse_value = λ b. ok backup_package }
