-- ===== src/Tests/Objects.antt =====
-- Publish records and messages at concrete inputs.

use ai_channel.Publish.Store.{Records}
use ai_channel.Protocol.Types.{PeerId}
use ai_channel.Prelude.{◌≤◌, ◌≡◌, refl, List, [], ◌∷◌, arith, length, All, ◌↔◌}
use ai_channel.Prelude.Text.{text, text_eq}
use ai_channel.Prelude.Result.{ok}
use ai_channel.Time.{DateTime, max_utc}
use ai_channel.Storage.{no_faults, load, save, with_loaded}
use ai_channel.Protocol.Canonical.{
  object_signature_input, canonical_json_bytes, canonicalize_json_value,
}
use ai_channel.Protocol.Verify.{
  sign, derive_peer_id, decode_base64url_array, verify_signature, verify_publish_record,
  verify_message_envelope,
}
use ai_channel.Protocol.Laws.{
  verify_publish_record_sound, verify_message_envelope_sound, verify_signature-sign,
}
use ai_channel.Publish.History.{Operation, publish, delete, Grows, perform_all, perform_all-Grows}
use ai_channel.Publish.Discover.{normalize_discover_tags}
use ai_channel.Publish.Discover.Tags.{IsNormal, normalize_discover_tags-IsNormal}
use ai_channel.Message.{
  StoredMessageEnvelope, insert_message, inbox, inbox_entries, validate_message_envelope, returned,
  panicked,
}
use ai_channel.Message.Inbox.{
  IsDelivered, insert_message_idempotent, inbox_sound, validate_message_envelope_iff, IsAcceptable,
  IsTooLate,
}
use ai_channel.Prelude.Sort.{sort_by}
use ai_channel.Tests.Samples.{
  toy_crypto, toy_crypto-IsSound, toy_codec, alice, bob, publish_object, unsigned_message,
  message_object,
}

abbrev operations : List Operation
operations =
    publish no_faults (publish_object (text "pub_1")) alice
    ∷ delete no_faults (text "pub_1") alice 20
    ∷ publish no_faults (publish_object (text "pub_1")) alice
    ∷ []

-- a file with one record
abbrev published : Records
published = perform_all (publish no_faults (publish_object (text "pub_1")) alice ∷ []) []

perform_all-Grows_example : Grows published (perform_all operations published)
perform_all-Grows_example = perform_all-Grows operations published (refl, (tt, (refl, tt)))

normalize_discover_tags-IsNormal_example :
    IsNormal (normalize_discover_tags (text " Cooking " ∷ text "cooking" ∷ []))
normalize_discover_tags-IsNormal_example =
    normalize_discover_tags-IsNormal (text " Cooking " ∷ text "cooking" ∷ [])

publish_object_verifies :
    verify_publish_record toy_crypto toy_codec (publish_object (text "pub_1")) ≡ ok alice
unfolding verify_publish_record verify_signature derive_peer_id decode_base64url_array
    object_signature_input canonical_json_bytes canonicalize_json_value text text_eq
publish_object_verifies = refl

verify_publish_record_sound_example :
    ((publish_object (text "pub_1")).payload.peer_id ≡ alice)
    × ((publish_object (text "pub_1")).signature.public_key
        ≡ (publish_object (text "pub_1")).payload.public_key)
    × ((publish_object (text "pub_1")).object_type ≡ text "publish.record")
    × (verify_signature toy_crypto toy_codec toy_codec.unsigned_publish_value
          (publish_object (text "pub_1"))
        ≡ ok alice)
verify_publish_record_sound_example =
    verify_publish_record_sound toy_crypto toy_codec (publish_object (text "pub_1")) alice
      publish_object_verifies

message_verifies :
    (t : DateTime) → verify_message_envelope toy_crypto toy_codec (message_object t) ≡ ok alice
unfolding verify_message_envelope verify_signature derive_peer_id decode_base64url_array
    object_signature_input canonical_json_bytes canonicalize_json_value text text_eq
message_verifies t = refl

verify_message_envelope_sound_example :
    ((message_object 10).payload.sender ≡ alice)
    × (verify_signature toy_crypto toy_codec toy_codec.unsigned_message_value (message_object 10)
        ≡ ok alice)
verify_message_envelope_sound_example =
    verify_message_envelope_sound toy_crypto toy_codec (message_object 10) alice
      (message_verifies 10)

message_signed :
    sign toy_crypto toy_codec toy_codec.unsigned_message_value unsigned_message (1 ∷ [])
    ≡ ok (message_object 10)
unfolding sign object_signature_input canonical_json_bytes canonicalize_json_value
message_signed = refl

verify_signature-sign_example :
    verify_signature toy_crypto toy_codec toy_codec.unsigned_message_value (message_object 10)
    ≡ ok (derive_peer_id toy_crypto (toy_crypto.public_key_of (1 ∷ [])))
verify_signature-sign_example =
    verify_signature-sign toy_crypto toy_crypto-IsSound toy_codec toy_codec.unsigned_message_value
      unsigned_message (1 ∷ []) (message_object 10) refl message_signed

stored_once : (insert_message no_faults (message_object 10) 20 []).0 ≡ ok tt
unfolding insert_message with_loaded save
stored_once = refl

insert_message_idempotent_example :
    (insert_message no_faults
      (message_object 11)
      30
      (insert_message no_faults (message_object 10) 20 []).1).1
    ≡ (insert_message no_faults (message_object 10) 20 []).1
insert_message_idempotent_example =
    insert_message_idempotent no_faults no_faults (message_object 10) (message_object 11) 20 30 []
      stored_once refl

abbrev mailbox : List StoredMessageEnvelope
mailbox = record { object = message_object 10; stored_at = 20 } ∷ []

read_by_bob : inbox no_faults bob 50 30 mailbox ≡ ok (message_object 10 ∷ [])
unfolding inbox load inbox_entries sort_by text text_eq
read_by_bob = refl

inbox_sound_example :
    (length (message_object 10 ∷ []) ≤ 50) × All (IsDelivered bob 30) (message_object 10 ∷ [])
inbox_sound_example = inbox_sound no_faults bob 50 30 mailbox (message_object 10 ∷ []) read_by_bob

message_panics : validate_message_envelope toy_crypto toy_codec (message_object max_utc) ≡ panicked
message_panics =
    (validate_message_envelope_iff toy_crypto toy_codec (message_object max_utc)).1.1
      (alice, message_verifies max_utc, (omega arith, omega arith), omega arith)

validate_message_envelope_iff_example :
    ((sender : PeerId)
      → (validate_message_envelope toy_crypto toy_codec (message_object max_utc)
          ≡ returned (ok sender))
        ↔ IsAcceptable toy_crypto toy_codec (message_object max_utc) sender)
    × ((validate_message_envelope toy_crypto toy_codec (message_object max_utc) ≡ panicked)
        ↔ IsTooLate toy_crypto toy_codec (message_object max_utc))
validate_message_envelope_iff_example =
    validate_message_envelope_iff toy_crypto toy_codec (message_object max_utc)
