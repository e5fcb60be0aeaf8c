-- ===== src/Tests/Files.antt =====
-- The properties of the local files, of merges and of restores.
use ai_channel.Client.Create.{Created, BackupSeed}
use ai_channel.Prelude.Sort.{sort_by}
use ai_channel.Activity.Event.{validate_event}
use ai_channel.Core.MessageCrypto.{generate, from_parts}
use ai_channel.Protocol.Verify.{derive_peer_id, decode_base64url_array}
use ai_channel.Prelude.{◌≡◌, refl, true, false, not, ◌&&◌, none, some, List, [], ◌∷◌, All, ◌<◌, ◌≤◌}
use ai_channel.Prelude.Text.{Text, text, text_eq, trim, is_whitespace, starts_with, strip_prefix}
use ai_channel.Prelude.Result.{ok}
use ai_channel.Protocol.Types.{ActivityEvent}
use ai_channel.Core.Memory.{MemoryFile, PeerSummary, InteractionSummary, validate_memory}
use ai_channel.Core.Device.{new_device}
use ai_channel.Core.BackupFile.{
  BackupPayload, BackupFile, backup_file, decrypt_backup, default_metadata, validate_file,
  derive_backup_key, validate_recovery_phrase, validate_payload,
}
use ai_channel.Core.Identity.{
  new_identity, signing_key, message_key_pair, validate_identity, check_signing_keys,
  check_message_keys, decode_key,
}
use ai_channel.Core.LocalState.{
  ensure_dirs, write_bytes, write_to, written, create_value, load_or_default, write_to_state,
}
use ai_channel.Core.LocalState.Identities.{
  Fresh, create_or_load_identity, read_identity, create_identity, write_replace_to,
}
use ai_channel.Core.LocalState.Identities.Laws.{IsFresh, create_or_load_identity_stable}
use ai_channel.Core.Snapshot.{
  SnapshotCodec, decrypt_activity_snapshot, new_payload, new_event, derive_activity_key,
}
use ai_channel.Client.Backups.{
  Files, Codecs, from_file, restore_target_has_local_state, backup_restore, restored_metadata,
}
use ai_channel.Client.Backups.Laws.{backup_restore-read_identity}
use ai_channel.Client.Merge.{
  merge_memory_snapshot, newer_profile, merge_tags, merge_peers, merge_interactions, profile_eq,
  dedup, merge_entries, add_tags,
}
use ai_channel.Client.Merge.Tags.{has_tag}
use ai_channel.Client.Merge.Laws.{
  Includes, knows_peer, knows_interaction, merge_memory_snapshot-Includes,
}
use ai_channel.Client.Sync.{Pulled, start, apply_events}
use ai_channel.Client.Sync.Laws.{IsApplied, apply_events-IsApplied}
use ai_channel.Tests.Samples.{zeros, toy_crypto, toy_crypto-IsSound, alice}
use ai_channel.Tests.Toys.{
  toy_ciphers, toy_ciphers-IsSecure, alice_identity, empty_memory, constant_codec, project,
  no_refusals,
}

abbrev fresh : Fresh
fresh = record { signing = zeros 32; key_id = text "key_1"; private = zeros 32; now = 10 }

fresh-IsFresh : IsFresh fresh
unfolding trim is_whitespace text
fresh-IsFresh = record { signing_length = refl; private_length = refl; key_named = refl }

created :
    create_or_load_identity toy_crypto toy_ciphers
      (constant_codec alice_identity)
      project
      no_refusals
      fresh
      none
      none
    ≡ (ok alice_identity, some [])
unfolding create_or_load_identity create_identity ensure_dirs write_bytes new_identity text
    derive_peer_id generate
created = refl

create_or_load_identity_stable_example :
    create_or_load_identity toy_crypto toy_ciphers
      (constant_codec alice_identity)
      project
      no_refusals
      fresh
      (some [])
      none
    ≡ (ok alice_identity, some [])
create_or_load_identity_stable_example =
    create_or_load_identity_stable toy_crypto toy_crypto-IsSound toy_ciphers toy_ciphers-IsSecure
      (constant_codec alice_identity) project no_refusals no_refusals fresh fresh alice_identity
      none (some []) none (λ bytes h. refl) refl fresh-IsFresh created

abbrev remote_memory : MemoryFile
remote_memory = record empty_memory {
  common_tags = text "cooking" ∷ [];
  discovered_peers =
      record { peer_id = alice; tags = []; body_preview = none; last_seen_at = 20 } ∷ [];
  updated_at = 20;
}

merge_memory_snapshot-Includes_example :
    Includes (merge_memory_snapshot empty_memory remote_memory).1 remote_memory
    × ((tag : Text)
        → has_tag empty_memory.common_tags tag ≡ true
        → has_tag (merge_memory_snapshot empty_memory remote_memory).1.common_tags tag ≡ true)
    × ((peer : PeerSummary)
        → knows_peer empty_memory peer ≡ true
        → knows_peer (merge_memory_snapshot empty_memory remote_memory).1 peer ≡ true)
    × ((interaction : InteractionSummary)
        → knows_interaction empty_memory interaction ≡ true
        → knows_interaction (merge_memory_snapshot empty_memory remote_memory).1 interaction ≡ true)
    × (empty_memory.updated_at < remote_memory.updated_at
        → (merge_memory_snapshot empty_memory remote_memory).1.profile ≡ remote_memory.profile)
    × (remote_memory.updated_at ≤ empty_memory.updated_at
        → (merge_memory_snapshot empty_memory remote_memory).1.profile ≡ empty_memory.profile)
merge_memory_snapshot-Includes_example = merge_memory_snapshot-Includes empty_memory remote_memory

abbrev snapshots : SnapshotCodec
snapshots = record {
  print = λ p. ok [];
  parse = λ bytes. ok (new_payload remote_memory 10);
  to_rfc3339 = λ t. [];
}

abbrev page : List ActivityEvent
page = new_event toy_crypto (text "1") (text "device_2") 10 20 (zeros 16) (zeros 12) [] ∷ []

abbrev pulled : Pulled
pulled = record { pulled = 1; applied = 1; skipped_self = 0; memory = remote_memory }

applied :
    apply_events toy_crypto toy_ciphers snapshots alice_identity
      (text "device_1")
      page
      (start empty_memory)
    ≡ ok pulled
unfolding apply_events text_eq text decrypt_activity_snapshot validate_event starts_with
    decode_base64url_array derive_activity_key signing_key validate_memory merge_memory_snapshot
    newer_profile merge_tags merge_peers merge_interactions profile_eq dedup merge_entries add_tags
    sort_by
applied = refl

apply_events-IsApplied_example :
    All
      (IsApplied toy_crypto toy_ciphers snapshots alice_identity (text "device_1") remote_memory)
      page
apply_events-IsApplied_example =
    apply_events-IsApplied toy_crypto toy_ciphers snapshots alice_identity (text "device_1") page
      (start empty_memory) pulled applied

abbrev saved : BackupPayload
saved = record {
  version = 1;
  peer_id = alice;
  source_device_id = text "device_1";
  identity = alice_identity;
  memory = empty_memory;
  config = none;
  created_at = 10;
}

abbrev codecs : Codecs
codecs = record {
  identity = constant_codec alice_identity;
  device = constant_codec (new_device (text "1") 30);
  memory = constant_codec empty_memory;
  config = constant_codec (record { base_url = none });
  metadata = constant_codec default_metadata;
  payload = record { print = λ p. ok []; parse = λ bytes. ok saved };
}

abbrev no_files : Files
no_files = record { identity = none; device = none; memory = none; config = none; metadata = none }

abbrev restored_files : Files
restored_files = record {
  identity = some [];
  device = some [];
  memory = some [];
  config = none;
  metadata = some [];
}

abbrev backup : BackupFile
backup = backup_file toy_crypto toy_ciphers (zeros 16) (zeros 12) 10 []

restored :
    backup_restore toy_crypto toy_ciphers codecs project no_refusals false
      (ok (text "aichan-rp-x"))
      (λ phrase. ok (backup, from_file (text "b")))
      (text "1")
      30
      no_files
    ≡ (ok (alice, new_device (text "1") 30), restored_files)
unfolding backup_restore restore_target_has_local_state decrypt_backup validate_file text_eq text
    decode_base64url_array derive_backup_key validate_recovery_phrase starts_with validate_payload
    signing_key message_key_pair from_parts trim validate_memory ensure_dirs write_replace_to
    validate_identity check_signing_keys check_message_keys decode_key derive_peer_id is_whitespace
    strip_prefix write_bytes write_to written create_value load_or_default write_to_state
    restored_metadata
restored = refl

decrypts :
    decrypt_backup toy_crypto toy_ciphers codecs.payload backup (text "aichan-rp-x") ≡ ok saved
unfolding decrypt_backup validate_file text_eq text decode_base64url_array derive_backup_key
    validate_recovery_phrase starts_with validate_payload signing_key message_key_pair from_parts
    trim validate_memory
decrypts = refl

backup_restore-read_identity_example :
    ((restore_target_has_local_state no_files && not false) ≡ false)
    × (alice ≡ saved.peer_id)
    × (read_identity toy_crypto toy_ciphers codecs.identity project no_refusals
          restored_files.identity
        ≡ ok saved.identity)
backup_restore-read_identity_example =
    backup_restore-read_identity toy_crypto toy_ciphers codecs project no_refusals false
      (ok (text "aichan-rp-x")) (λ phrase. ok (backup, from_file (text "b"))) (text "1") 30 saved
      (λ bytes h. refl) (text "aichan-rp-x") backup (from_file (text "b")) refl refl decrypts
      no_refusals no_files restored_files alice (new_device (text "1") 30) refl restored

abbrev before_backup : Created
before_backup = record { files = no_files; output = none }

abbrev after_backup : Created
after_backup = record { files = record no_files { metadata = some [] }; output = some [] }

abbrev backup_seed : BackupSeed
backup_seed = record { phrase = []; salt = zeros 16; nonce = zeros 12 }
