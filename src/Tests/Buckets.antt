-- ===== src/Tests/Buckets.antt =====
-- Hosted backups and activity sync at concrete inputs.
use ai_channel.Prelude.{◌≡◌, refl, true, false, some, List, [], ◌∷◌, arith, All, find}
use ai_channel.Prelude.Text.{text, text_eq}
use ai_channel.Prelude.Order.{Ordering}
use ai_channel.Json.{null}
use ai_channel.Digest.{backup_auth_hash, activity_auth_hash, sha256_hex}
use ai_channel.Backup.{
  compare_backup_generations_newest_first, compare_backup_generations_oldest_first, BackupPutStatus,
  BackupReadStatus, BackupListStatus, StoredHostedBackupGeneration,
}
use ai_channel.Backup as Backup
use ai_channel.Backup.Generations as Generations
use ai_channel.Activity as Activity
use ai_channel.Activity.{
  ActivityPutStatus, StoredActivityEvent, prune_expired, has_event_id,
  compare_activity_events_oldest_first,
}
use ai_channel.Activity.Bounds as ActivityBounds
use ai_channel.Prelude.Result.{ok}
use ai_channel.Prelude.Text.{byte_len, as_bytes, trim, to_ascii_lowercase}
use ai_channel.Json.{map_get}
use ai_channel.Backup.Package.{
  is_private_key, reject_private_backup_material, validate_hosted_backup_package,
  parse_hosted_backup_package,
}
use ai_channel.Backup.Package.Private.{IsFree, parse_hosted_backup_package-IsFree}
use ai_channel.Prelude.Text.{Text, compare_text}
use ai_channel.Activity.{compare_activity_events_oldest_first}
use ai_channel.Activity.Paging.{Ascending, IsPage, page_of-IsPage}
use ai_channel.Tests.Samples.{
  backup_package, backup_codec, toy_crypto, toy_codec, generation, backup_bucket, activity_event,
  activity_bucket, toy_cursors,
}

abbrev two_generations : List StoredHostedBackupGeneration
two_generations = generation (text "gen_b") 20 ∷ generation (text "gen_a") 10 ∷ []

two_generations-IsWellFormed : Generations.IsWellFormed (backup_bucket two_generations)
unfolding compare_backup_generations_newest_first compare_backup_generations_oldest_first
two_generations-IsWellFormed = record {
  bounded = omega arith;
  ordered = ((λ e. cc e, tt), (tt, tt));
  kept = (refl, (refl, tt));
}

put_in_bucket-IsWellFormed_example :
    Generations.IsWellFormed
      (Backup.put_in_bucket toy_crypto toy_codec
        (text "token")
        null
        30
        (backup_bucket two_generations)).1
    × (Backup.authorize toy_crypto toy_codec (text "token") (backup_bucket two_generations) ≡ false
        → Backup.put_in_bucket toy_crypto toy_codec
            (text "token")
            null
            30
            (backup_bucket two_generations)
          ≡ (BackupPutStatus.unauthorized, backup_bucket two_generations))
put_in_bucket-IsWellFormed_example =
    Generations.put_in_bucket-IsWellFormed toy_crypto toy_codec (text "token") null 30
      (backup_bucket two_generations) two_generations-IsWellFormed

owner_is_known :
    Backup.authorize toy_crypto toy_codec (text "token") (backup_bucket two_generations) ≡ true
unfolding Backup.authorize text text_eq backup_auth_hash sha256_hex
owner_is_known = refl

first_is_newer :
    All
      (λ g. compare_backup_generations_oldest_first (generation (text "gen_b") 20) g ≡ Ordering.gt)
      (generation (text "gen_a") 10 ∷ [])
unfolding compare_backup_generations_oldest_first
first_is_newer = (refl, tt)

latest-eq-head_example :
    (Backup.list_bucket toy_crypto toy_codec (text "token") (backup_bucket two_generations)
      ≡ BackupListStatus.found two_generations)
    × (Backup.latest_in_bucket toy_crypto toy_codec (text "token") (backup_bucket two_generations)
        ≡ BackupReadStatus.found (generation (text "gen_b") 20))
latest-eq-head_example =
    Generations.latest-eq-head toy_crypto toy_codec (text "token") (backup_bucket two_generations)
      (generation (text "gen_b") 20) (generation (text "gen_a") 10 ∷ [])
      two_generations-IsWellFormed owner_is_known refl first_is_newer

activity_bucket-IsWellFormed : ActivityBounds.IsWellFormed activity_bucket
activity_bucket-IsWellFormed = record { bounded = omega arith; ordered = (tt, tt) }

put_in_bucket-safe_example :
    ActivityBounds.IsWellFormed
      (Activity.put_in_bucket toy_crypto toy_codec
        (text "token")
        (activity_event (text "act_1"))
        30
        activity_bucket).1
    × (text_eq activity_bucket.auth_hash (activity_auth_hash toy_crypto (text "token")) ≡ false
        → Activity.put_in_bucket toy_crypto toy_codec
            (text "token")
            (activity_event (text "act_1"))
            30
            activity_bucket
          ≡ (ActivityPutStatus.unauthorized, activity_bucket))
    × ((existing : StoredActivityEvent)
        → text_eq activity_bucket.auth_hash (activity_auth_hash toy_crypto (text "token")) ≡ true
        → find (has_event_id (text "act_1")) (prune_expired 30 activity_bucket).events
          ≡ some existing
        → Activity.put_in_bucket toy_crypto toy_codec
            (text "token")
            (activity_event (text "act_1"))
            30
            activity_bucket
          ≡ (ActivityPutStatus.stored existing, prune_expired 30 activity_bucket))
put_in_bucket-safe_example =
    ActivityBounds.put_in_bucket-safe toy_crypto toy_codec (text "token")
      (activity_event (text "act_1")) 30 activity_bucket activity_bucket-IsWellFormed

package_is_accepted : parse_hosted_backup_package backup_codec [] ≡ ok backup_package
unfolding parse_hosted_backup_package validate_hosted_backup_package reject_private_backup_material
    is_private_key map_get text text_eq byte_len as_bytes trim to_ascii_lowercase
package_is_accepted = refl

parse_hosted_backup_package-IsFree_example :
    (backup_codec.parse_value [] ≡ ok backup_package) × IsFree backup_package
parse_hosted_backup_package-IsFree_example =
    parse_hosted_backup_package-IsFree backup_codec [] backup_package package_is_accepted

abbrev stored_event : Text → StoredActivityEvent
stored_event id = record {
  event = activity_event id;
  stored_at = 10;
  size_bytes = 0;
  content_sha256 = [];
}

abbrev two_events : List StoredActivityEvent
two_events = stored_event (text "act_1") ∷ stored_event (text "act_2") ∷ []

two_events_ascend : Ascending two_events
unfolding compare_activity_events_oldest_first compare_text text
two_events_ascend = ((refl, tt), (tt, tt))

page_of-IsPage_example : IsPage toy_cursors 1 two_events (Activity.page_of toy_cursors 1 two_events)
page_of-IsPage_example =
    page_of-IsPage toy_cursors 1 two_events
      (λ cursor. (cursor.created_at ∷ cursor.event_id, refl, refl)) (omega arith) two_events_ascend
