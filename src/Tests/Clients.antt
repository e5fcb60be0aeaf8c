-- ===== src/Tests/Clients.antt =====
-- The properties of the inbox, of escaped queries, of recipient keys and of upgrades.
use ai_channel.Core.Device.{is_ascii_hexdigit}
use ai_channel.Client.Lines.{trim_start_matches, lines, line_parts, split_whitespace, words_from}
use ai_channel.Core.LocalState.{join, peer_messages_path, inbox_cache_dir, peer_messages_dir, root}
use ai_channel.Protocol.Canonical.{object_signature_input, canonical_json_bytes}
use ai_channel.Protocol.Verify.{
  verify_message_envelope, verify_signature, decode_base64url_array, derive_peer_id,
  verify_publish_record,
}
use ai_channel.Prelude.{
  ◌≡◌, refl, true, Option, none, some, List, [], ◌∷◌, ◌++◌, arith, inl, ◌+◌, ◌*◌, if◌then◌else◌,
  All,
}
use ai_channel.Prelude.Text.{
  Text, text, split, text_eq, starts_with, strip_suffix, trim, parse_usize, byte_len, is_whitespace,
  strip_prefix, to_ascii_lowercase,
}
use ai_channel.Prelude.Result.{Result, ok, err}
use ai_channel.Time.{second}
use ai_channel.Json.{Value, Items, null, object, field, end, array, cons, nil, string, value_get}
use ai_channel.Publish.Record.{PublishObject}
use ai_channel.Message.{MessageObject}
use ai_channel.Query.{percent_decode}
use ai_channel.Core.MessageCrypto.{
  message_encryption_suite, decrypt_private_message, derive_message_key,
}
use ai_channel.Client.External.{ClientCodec}
use ai_channel.Client.Compose.{message_payload}
use ai_channel.Client.Keys.{
  extract_recipient_message_key, extract_from, records_of, items_list, key_in_record, supported_key,
}
use ai_channel.Client.Keys.Laws.{IsFirst, extract_recipient_message_key-IsPublished}
use ai_channel.Client.Receive.{
  InboxState, InboxMessage, WriteErrors, receive_record, receive_all, body_of,
}
use ai_channel.Client.Receive.Laws.{receive_all_again}
use ai_channel.Client.Receive.Losses.{Later, receive_all_loses}
use ai_channel.Client.Url.{query_escape}
use ai_channel.Client.Url.Escape.{percent_decode-query_escape}
use ai_channel.Client.Upgrade.{
  ReleaseHost, ReleaseUpgradeOutcome, GitHubRelease, upgrade_from_release,
  release_archive_entry_is_safe, release_version_order, parse_release_version,
  release_asset_name_for, checksum_from_sha256sums, checksum_in, extract_release_archive,
  install_release, sha256_hex, validate_release_archive_entries,
}
use ai_channel.Client.Upgrade.Laws.{IsVerified, upgrade_from_release-IsVerified}
use ai_channel.Client.Upgrade.Archive.{resolve_entry, release_archive_entry_is_safe_below}
use ai_channel.Tests.Samples.{zeros, toy_crypto, toy_codec, alice, bob, publish_object}
use ai_channel.Tests.Toys.{toy_ciphers, toy_keys, toy_client, project}

percent_decode-query_escape_example :
    percent_decode (query_escape (text "a b%")) ≡ some (text "a b%")
percent_decode-query_escape_example = percent_decode-query_escape (text "a b%") (
    unfold text in
    (inl (omega arith), (inl (omega arith), (inl (omega arith), (inl (omega arith), tt)))))

-- what Bob receives from Alice
abbrev received : MessageObject
received = record {
  protocol = text "aichan/1";
  object_type = text "message.envelope";
  id = text "msg_1";
  created_at = 10;
  extensions = [];
  payload =
      message_payload alice bob
        (record {
          suite = message_encryption_suite;
          recipient_key_id = text "key_1";
          ephemeral_public_key = zeros 32;
          nonce = zeros 12;
          ciphertext = [];
        })
        (10 + 604_800 * second);
  signature = record { alg = text "ed25519"; public_key = zeros 32; value = zeros 64 };
}

-- reads strings as the message, and nothing else
abbrev from_string : Value → Result MessageObject
from_string (string s) = ok received
from_string _ = err []

abbrev inbox_client : ClientCodec
inbox_client = record (toy_client received) { from_message_value = from_string }

abbrev no_errors : WriteErrors
no_errors = record { dirs = none; cache = none; log = none }

abbrev empty_inbox : InboxState
empty_inbox = record { cached = []; log = [] }

abbrev full_inbox : InboxState
full_inbox = record {
  cached = text "/p/.aichan/inbox-cache/msg_1.json" ∷ [];
  log = (text "/p/.aichan/peer-messages/peer_.jsonl", received) ∷ [];
}

abbrev message : InboxMessage
message = record { id = text "msg_1"; sender = alice; recipient = bob; created_at = 10; body = [] }

first_received :
    receive_record toy_crypto toy_ciphers toy_codec inbox_client project no_errors bob toy_keys
      (string [])
      empty_inbox
    ≡ (ok (some message), full_inbox)
unfolding receive_record verify_message_envelope text_eq text verify_signature
    decode_base64url_array object_signature_input canonical_json_bytes derive_peer_id
    decrypt_private_message derive_message_key body_of join peer_messages_path value_get starts_with
    strip_suffix inbox_cache_dir peer_messages_dir root
first_received = refl

all_received :
    receive_all toy_crypto toy_ciphers toy_codec inbox_client project no_errors bob toy_keys
      (string [] ∷ [])
      empty_inbox
    ≡ (ok (message ∷ []), full_inbox)
unfolding receive_all
all_received = ground (arith, first_received)

receive_all_again_example :
    receive_all toy_crypto toy_ciphers toy_codec inbox_client project no_errors bob toy_keys
      (string [] ∷ [])
      full_inbox
    ≡ (ok [], full_inbox)
receive_all_again_example =
    receive_all_again toy_crypto toy_ciphers toy_codec inbox_client project no_errors bob toy_keys
      (string [] ∷ []) empty_inbox full_inbox (message ∷ []) all_received

abbrev receive : Value → InboxState → Result (Option InboxMessage) × InboxState
receive =
    receive_record toy_crypto toy_ciphers toy_codec inbox_client project no_errors bob toy_keys

second_fails : (receive null full_inbox).0 ≡ err []
unfolding receive_record
second_fails = refl

receive_all_loses_example :
    (receive_all toy_crypto toy_ciphers toy_codec inbox_client project no_errors bob toy_keys
        (string [] ∷ null ∷ [])
        empty_inbox
      ≡ (err [], (receive null full_inbox).1))
    × ((later : InboxState) (others : WriteErrors)
        → Later toy_crypto toy_ciphers toy_codec inbox_client project bob toy_keys
            (receive null full_inbox).1
            later
        → All
            (λ value.
              receive_record toy_crypto toy_ciphers toy_codec inbox_client project others bob
                toy_keys value later
              ≡ (ok none, later))
            (string [] ∷ []))
receive_all_loses_example =
    receive_all_loses toy_crypto toy_ciphers toy_codec inbox_client project bob toy_keys no_errors
      (string [] ∷ []) [] null empty_inbox full_inbox (message ∷ []) [] all_received second_fails

-- a record of Alice's with a message key
abbrev offering : PublishObject
offering = record (publish_object (text "pub_1")) {
  payload = record (publish_object (text "pub_1")).payload {
    capabilities = record {
      message_encryption =
          record { suite = message_encryption_suite; key_id = text "key_1"; public_key = zeros 32 }
          ∷ [];
    };
  };
}

abbrev search_client : ClientCodec
search_client = record (toy_client received) { from_publish_value = λ v. ok offering }

abbrev answer : Value
answer = object (field (text "records") (array (cons null nil)) end)

key_found :
    extract_recipient_message_key toy_crypto toy_codec search_client answer alice
    ≡ ok (text "key_1", zeros 32)
unfolding extract_recipient_message_key extract_from records_of value_get text_eq text key_in_record
    verify_publish_record verify_signature decode_base64url_array object_signature_input
    canonical_json_bytes derive_peer_id supported_key
key_found = refl

extract_recipient_message_key-IsPublished_example :
    (items : Items) × (value_get (text "records") answer ≡ some (array items))
    × IsFirst toy_crypto toy_codec search_client alice (items_list items) (text "key_1") (zeros 32)
extract_recipient_message_key-IsPublished_example =
    extract_recipient_message_key-IsPublished toy_crypto toy_codec search_client answer alice
      (text "key_1") (zeros 32) key_found

abbrev asset_name : Text
asset_name = text "aichan-0.4.0-x86_64-unknown-linux-gnu.tar.gz"

abbrev digits : Text
digits = text "0000000000000000000000000000000000000000000000000000000000000000"

abbrev found_release : GitHubRelease
found_release = record {
  tag_name = text "v0.4.0";
  assets =
      record { name = asset_name; browser_download_url = text "a" }
      ∷ record { name = text "SHA256SUMS"; browser_download_url = text "s" }
      ∷ [];
}

abbrev host : ReleaseHost
host = record {
  fetch_latest_release = ok found_release;
  github_get_bytes = λ url.
      if text_eq url (text "s") then ok (digits ++ (text "  " ++ asset_name)) else ok (1 ∷ []);
  from_utf8 = λ bytes. ok bytes;
  sha256 = λ bytes. zeros 32;
  list_archive = λ archive. ok (text "aichan" ∷ []);
  extract_archive = λ archive. ok true;
  extracted_binary = text "/tmp/aichan-upgrade/aichan";
  install_release_binary = λ archive. ok (text "/bin/aichan");
  os = text "linux";
  arch = text "x86_64";
}

abbrev outcome : ReleaseUpgradeOutcome
outcome = record {
  upgraded = true;
  source = text "release";
  current_version = text "0.3.10";
  latest_version = text "0.4.0";
  asset_name = some asset_name;
  checksum = some digits;
  installed_path = some (text "/bin/aichan");
  message = text "aichan upgrade completed";
}

upgraded : upgrade_from_release host (text "0.3.10") ≡ ok outcome
unfolding upgrade_from_release release_version_order parse_release_version split trim_start_matches
    trim text parse_usize release_asset_name_for text_eq checksum_from_sha256sums checksum_in lines
    line_parts split_whitespace words_from byte_len is_ascii_hexdigit extract_release_archive
    install_release release_archive_entry_is_safe sha256_hex validate_release_archive_entries
    is_whitespace starts_with strip_prefix strip_suffix to_ascii_lowercase
upgraded = refl

upgrade_from_release-IsVerified_example : IsVerified host (text "0.3.10") outcome
upgrade_from_release-IsVerified_example =
    upgrade_from_release-IsVerified host (text "0.3.10") outcome upgraded refl

entry_is_safe : release_archive_entry_is_safe (text "./bin/aichan") ≡ true
unfolding release_archive_entry_is_safe trim text starts_with split text_eq
entry_is_safe = refl

release_archive_entry_is_safe_below_example :
    (first : Text) × (rest : List Text) × (resolve_entry (text "tmp" ∷ []) (text "./bin/aichan")
      ≡ first ∷ (rest ++ text "tmp" ∷ []))
release_archive_entry_is_safe_below_example =
    release_archive_entry_is_safe_below (text "./bin/aichan") (text "tmp" ∷ []) entry_is_safe
