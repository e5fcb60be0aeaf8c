-- ===== src/Tests/Sealed.antt =====
-- The properties of what is encrypted and of what the client signs.
use ai_channel.Protocol.Canonical.{object_signature_input, canonical_json_bytes}
use ai_channel.Json.{null}
use ai_channel.Publish.Record.{PublishObject}
use ai_channel.Client.Keys.{supported_key}
use ai_channel.Client.Receive.{accept_record, open_message}
use ai_channel.Client.Compose.Records.{
  IsCanonical, offered_key, verify_publish_record-build_publish_record,
}
use ai_channel.Client.Compose.Laws.{validate_message_envelope-build_message_envelope}
use ai_channel.Client.Compose.Delivery.{plaintext_value, open_message-build_message_envelope}
use ai_channel.Client.Compose.{
  MessageSeed, message_payload, build_message_envelope, publish_payload, build_publish_record,
  plaintext_of,
}
use ai_channel.Protocol.External.{Codec}
use ai_channel.Message.{
  returned, MessageObject, validate_message_envelope, max_message_ciphertext_bytes,
}
use ai_channel.Time.{activity_ttl_seconds, second, add_seconds}
use ai_channel.Protocol.Types.{ActivityEvent, new_unsigned}
use ai_channel.Core.Snapshot.Laws.{decrypt_activity_snapshot-encrypt_activity_snapshot}
use ai_channel.Core.Snapshot.{
  SnapshotCodec, new_payload, new_event, encrypt_activity_snapshot, decrypt_activity_snapshot,
  derive_activity_key,
}
use ai_channel.Core.Memory.{validate_memory}
use ai_channel.Protocol.Verify.{decode_base64url_array, verify_publish_record, sign}
use ai_channel.Core.MessageCrypto.{
  from_parts, MessageKeyPair, message_encryption_suite, encrypt_private_message, derive_message_key,
}
use ai_channel.Core.Identity.{signing_key, message_key_pair}
use ai_channel.Prelude.{◌≡◌, refl, [], ◌+◌, ◌*◌, ◌≤◌, arith, some}
use ai_channel.Prelude.Text.{text, text_eq, trim, byte_len}
use ai_channel.Prelude.Result.{ok}
use ai_channel.Tests.Samples.{zeros, toy_crypto, toy_crypto-IsSound, alice, toy_codec, bob}
use ai_channel.Tests.Toys.{
  toy_ciphers, toy_ciphers-IsSecure, alice_identity, empty_memory, toy_keys, toy_client,
  alice_identity-IsValid, toy_keys-IsValid,
}

abbrev snapshot_codec : SnapshotCodec
snapshot_codec = record {
  print = λ p. ok [];
  parse = λ bytes. ok (new_payload empty_memory 10);
  to_rfc3339 = λ t. [];
}

abbrev snapshot : ActivityEvent
snapshot =
    new_event toy_crypto (text "1") (text "device_1") 10 (10 + activity_ttl_seconds * second)
      (zeros 16) (zeros 12) []

snapshot_made :
    encrypt_activity_snapshot toy_crypto toy_ciphers snapshot_codec alice_identity
      (text "device_1")
      empty_memory
      (text "1")
      (zeros 16)
      (zeros 12)
      10
    ≡ returned (ok snapshot)
unfolding encrypt_activity_snapshot validate_memory derive_activity_key signing_key text_eq
    add_seconds
snapshot_made = refl

decrypt_activity_snapshot-encrypt_activity_snapshot_example :
    decrypt_activity_snapshot toy_crypto toy_ciphers snapshot_codec alice_identity snapshot
    ≡ ok (new_payload empty_memory 10)
decrypt_activity_snapshot-encrypt_activity_snapshot_example =
    decrypt_activity_snapshot-encrypt_activity_snapshot toy_crypto toy_ciphers snapshot_codec
      alice_identity (text "device_1") empty_memory (text "1") (zeros 16) (zeros 12) 10
      toy_crypto-IsSound toy_ciphers-IsSecure (λ bytes h. refl) snapshot refl refl snapshot_made

-- reads back what Alice sends
abbrev message_codec : Codec
message_codec = record toy_codec {
  parse_value = λ bytes. ok (plaintext_value toy_codec (text "hi") 10);
}

abbrev seed : MessageSeed
seed = record { uuid = text "1"; ephemeral = zeros 32; nonce = zeros 12 }

abbrev sent_object : MessageObject
sent_object = record {
  protocol = text "aichan/1";
  object_type = text "message.envelope";
  id = text "msg_1";
  created_at = 10;
  extensions = [];
  payload =
      message_payload alice bob
        (record {
          suite = message_encryption_suite;
          recipient_key_id = text "key_1";
          ephemeral_public_key = zeros 32;
          nonce = zeros 12;
          ciphertext = [];
        })
        (10 + 604_800 * second);
  signature = record { alg = text "ed25519"; public_key = zeros 32; value = zeros 64 };
}

sent :
    build_message_envelope toy_crypto toy_ciphers message_codec
      (toy_client sent_object)
      alice_identity
      bob
      (text "hi")
      toy_keys.key_id
      toy_keys.public_key
      seed
      10
    ≡ returned (ok sent_object)
unfolding build_message_envelope signing_key text_eq encrypt_private_message decode_base64url_array
    derive_message_key add_seconds sign object_signature_input canonical_json_bytes text
    new_unsigned plaintext_of
sent = refl

open_message-build_message_envelope_example :
    (accept_record toy_crypto toy_ciphers message_codec (toy_client sent_object) bob null
      ≡ ok sent_object)
    × (open_message toy_crypto toy_ciphers message_codec
          (toy_client sent_object)
          toy_keys
          sent_object
        ≡ ok (text "hi"))
open_message-build_message_envelope_example =
    open_message-build_message_envelope toy_crypto toy_crypto-IsSound toy_ciphers
      toy_ciphers-IsSecure message_codec (toy_client sent_object) alice_identity bob toy_keys
      (text "hi") seed 10 sent_object null alice_identity-IsValid refl toy_keys-IsValid refl refl
      refl sent

validate_message_envelope-build_message_envelope_example :
    validate_message_envelope toy_crypto message_codec sent_object ≡ returned (ok alice)
validate_message_envelope-build_message_envelope_example =
    validate_message_envelope-build_message_envelope toy_crypto toy_ciphers message_codec
      (toy_client sent_object) alice_identity bob (text "hi") toy_keys.key_id toy_keys.public_key
      seed 10 sent_object toy_crypto-IsSound alice_identity-IsValid refl short sent
  where
    short : byte_len sent_object.payload.ciphertext ≤ max_message_ciphertext_bytes
    short = unfold byte_len in omega arith

abbrev built_object : PublishObject
built_object = record {
  protocol = text "aichan/1";
  object_type = text "publish.record";
  id = text "pub_1";
  created_at = 10;
  extensions = [];
  payload = publish_payload alice_identity toy_keys (text "hello") [] 10;
  signature = record { alg = text "ed25519"; public_key = zeros 32; value = zeros 64 };
}

built :
    build_publish_record toy_crypto toy_ciphers toy_codec
      (toy_client sent_object)
      alice_identity
      (text "hello")
      []
      (text "1")
      10
    ≡ ok built_object
unfolding build_publish_record message_key_pair from_parts decode_base64url_array text_eq trim text
    signing_key sign object_signature_input canonical_json_bytes new_unsigned
built = refl

canonical : IsCanonical toy_crypto
canonical encoded bytes h = ground (arith, h)

verify_publish_record-build_publish_record_example :
    (verify_publish_record toy_crypto toy_codec built_object ≡ ok alice)
    × (pair : MessageKeyPair) × (message_key_pair toy_crypto toy_ciphers alice_identity ≡ ok pair)
    × (supported_key built_object ≡ some (offered_key pair))
verify_publish_record-build_publish_record_example =
    verify_publish_record-build_publish_record toy_crypto toy_ciphers toy_codec
      (toy_client sent_object) alice_identity (text "hello") [] (text "1") 10 built_object
      toy_crypto-IsSound canonical alice_identity-IsValid refl built
