-- ===== src/Backup.antt =====
-- Hosted backups in crates/aichan-server/src/lib.rs: `StoredHostedBackupBucket` and
-- `FileBackupStore`.
pub mod Package
pub mod Generations
use Prim.Native.Nat.{compare}
use ai_channel.Prelude.{
  ℕ, ◌-◌, ◌/◌, ◌+◌, Bool, true, false, not, Option, none, some, List, [], ◌∷◌, ◌++◌, ltb,
  if◌then◌else◌, find, update_first, retain, take, length,
}
use ai_channel.Prelude.Order.{Ordering, then_with, is_gt}
use ai_channel.Prelude.Sort.{sort_by}
use ai_channel.Prelude.Text.{Text, text, text_eq, compare_text, decimal}
use ai_channel.Prelude.Result.{Result, ok, err, ◌>>=◌}
use ai_channel.Time.{DateTime, unix_epoch}
use ai_channel.Json.{Value}
use ai_channel.Storage.{Faults, load, save, with_loaded}
use ai_channel.Protocol.External.{Crypto, Codec}
use ai_channel.Digest.{sha256_hex, backup_auth_hash, content_sha256}

abbrev pub max_backup_generations : ℕ
max_backup_generations = 10

pub record StoredHostedBackupGeneration : Type 0 where
  pub generation_id : Text
  pub created_at : DateTime
  pub size_bytes : ℕ
  pub content_sha256 : Text
  pub backup : Value
  pub deleted : Bool

pub record StoredHostedBackupBucket : Type 0 where
  pub lookup_id : Text
  pub auth_hash : Text
  pub generations : List StoredHostedBackupGeneration
  pub created_at : DateTime
  pub updated_at : DateTime

pub data BackupPutStatus : Type 0 where
  stored : StoredHostedBackupGeneration → BackupPutStatus
  unauthorized : BackupPutStatus

pub data BackupReadStatus : Type 0 where
  found : StoredHostedBackupGeneration → BackupReadStatus
  not_found unauthorized : BackupReadStatus

pub data BackupListStatus : Type 0 where
  found : List StoredHostedBackupGeneration → BackupListStatus
  not_found unauthorized : BackupListStatus

-- `StoredHostedBackupBucket::new`
unfoldable pub new_bucket : Text → Text → DateTime → StoredHostedBackupBucket
new_bucket lookup_id auth_hash now = record {
  lookup_id = lookup_id;
  auth_hash = auth_hash;
  generations = [];
  created_at = now;
  updated_at = now;
}

unfoldable pub compare_backup_generations_oldest_first :
    StoredHostedBackupGeneration → StoredHostedBackupGeneration → Ordering
compare_backup_generations_oldest_first left right =
    then_with (compare left.created_at right.created_at)
      (compare_text left.generation_id right.generation_id)

unfoldable pub compare_backup_generations_newest_first :
    StoredHostedBackupGeneration → StoredHostedBackupGeneration → Ordering
unfolding compare_backup_generations_oldest_first
compare_backup_generations_newest_first left right =
    compare_backup_generations_oldest_first right left

abbrev pub is_kept : StoredHostedBackupGeneration → Bool
is_kept generation = not generation.deleted

-- the fold of `max_by`, with the greatest element so far
unfoldable pub max_from {ℓ} : {A : Type ℓ} → (A → A → Ordering) → A → List A → A
max_from cmp best [] = best
max_from cmp best (x ∷ xs) = max_from cmp (if is_gt (cmp best x) then best else x) xs

-- `Iterator::max_by`: the last of the greatest elements
unfoldable pub max_by {ℓ} : {A : Type ℓ} → (A → A → Ordering) → List A → Option A
max_by cmp [] = none
max_by cmp (x ∷ xs) = some (max_from cmp x xs)

-- `timestamp_millis` of a time after the epoch
abbrev timestamp_millis : DateTime → ℕ
timestamp_millis t = (t - unix_epoch) / 1_000_000

module _ (crypto : Crypto) (codec : Codec) where
  -- `backup_generation_id`
  unfoldable pub backup_generation_id : DateTime → List ℕ → Text
  backup_generation_id created_at bytes =
      text "gen_"
      ++ decimal (timestamp_millis created_at)
      ++ text "_"
      ++ take 16 (sha256_hex crypto bytes)

  unfoldable pub authorize : Text → StoredHostedBackupBucket → Bool
  authorize auth_token bucket = text_eq bucket.auth_hash (backup_auth_hash crypto auth_token)

  -- the generation that `put` stores
  unfoldable pub new_generation : Value → DateTime → StoredHostedBackupGeneration
  new_generation backup now =
      let bytes = codec.to_vec backup in
      record {
        generation_id = backup_generation_id now bytes;
        created_at = now;
        size_bytes = length bytes;
        content_sha256 = content_sha256 crypto bytes;
        backup = backup;
        deleted = false;
      }

  -- push, sort, drop the deleted ones, truncate
  unfoldable pub keep_newest :
      StoredHostedBackupGeneration
      → List StoredHostedBackupGeneration
      → List StoredHostedBackupGeneration
  keep_newest generation generations = take max_backup_generations (
      retain is_kept
        (sort_by compare_backup_generations_newest_first (generations ++ generation ∷ [])))

  -- `StoredHostedBackupBucket::put`
  unfoldable pub put_in_bucket :
      Text
      → Value
      → DateTime
      → StoredHostedBackupBucket
      → BackupPutStatus × StoredHostedBackupBucket
  unfolding authorize new_generation keep_newest
  put_in_bucket auth_token backup now bucket =
      if not (authorize auth_token bucket)
      then (BackupPutStatus.unauthorized, bucket)
      else let generation = new_generation backup now in
        (
          BackupPutStatus.stored generation,
          record bucket {
            generations = keep_newest generation bucket.generations;
            updated_at = now;
          },
        )

  abbrev read_status : Option StoredHostedBackupGeneration → BackupReadStatus
  read_status none = BackupReadStatus.not_found
  read_status (some generation) = BackupReadStatus.found generation

  -- `StoredHostedBackupBucket::latest`
  unfoldable pub latest_in_bucket : Text → StoredHostedBackupBucket → BackupReadStatus
  unfolding authorize
  latest_in_bucket auth_token bucket =
      if not (authorize auth_token bucket)
      then BackupReadStatus.unauthorized
      else read_status
          (max_by compare_backup_generations_oldest_first (retain is_kept bucket.generations))

  -- `StoredHostedBackupBucket::list`
  unfoldable pub list_bucket : Text → StoredHostedBackupBucket → BackupListStatus
  unfolding authorize
  list_bucket auth_token bucket =
      if not (authorize auth_token bucket)
      then BackupListStatus.unauthorized
      else BackupListStatus.found
          (sort_by compare_backup_generations_newest_first (retain is_kept bucket.generations))

  abbrev pub has_lookup_id : Text → StoredHostedBackupBucket → Bool
  has_lookup_id lookup_id bucket = text_eq bucket.lookup_id lookup_id

  -- `if matches!(status, Stored(_)) { save }`
  unfoldable pub save_if_stored :
      Faults
      → List StoredHostedBackupBucket
      → List StoredHostedBackupBucket
      → BackupPutStatus
      → Result BackupPutStatus × List StoredHostedBackupBucket
  save_if_stored faults before after (BackupPutStatus.stored generation) =
      save faults before after (BackupPutStatus.stored generation)
  save_if_stored faults before after BackupPutStatus.unauthorized =
      (ok BackupPutStatus.unauthorized, before)

  -- `FileBackupStore::put`; `now` is `Utc::now()`
  unfoldable pub put_backup :
      Faults
      → Text
      → Text
      → Value
      → DateTime
      → List StoredHostedBackupBucket
      → Result BackupPutStatus × List StoredHostedBackupBucket
  put_backup faults lookup_id auth_token backup now contents =
      with_loaded faults contents λ buckets. elim (find (has_lookup_id lookup_id) buckets) [
        | some bucket ↦
            save_if_stored faults buckets
              (update_first (has_lookup_id lookup_id)
                (λ b. (put_in_bucket auth_token backup now b).1) buckets)
              (put_in_bucket auth_token backup now bucket).0
        | none ↦
            let (status, bucket) =
              put_in_bucket auth_token backup now
                (new_bucket lookup_id (backup_auth_hash crypto auth_token) now) in
            save_if_stored faults buckets (buckets ++ bucket ∷ []) status
      ]

  abbrev latest_of : Text → Option StoredHostedBackupBucket → BackupReadStatus
  latest_of auth_token none = BackupReadStatus.not_found
  latest_of auth_token (some bucket) = latest_in_bucket auth_token bucket

  -- `FileBackupStore::latest`
  unfoldable pub latest_backup :
      Faults → Text → Text → List StoredHostedBackupBucket → Result BackupReadStatus
  latest_backup faults lookup_id auth_token contents = do
    buckets ← load faults contents
    ok (latest_of auth_token (find (has_lookup_id lookup_id) buckets))

  abbrev list_of : Text → Option StoredHostedBackupBucket → BackupListStatus
  list_of auth_token none = BackupListStatus.not_found
  list_of auth_token (some bucket) = list_bucket auth_token bucket

  -- `FileBackupStore::list`
  unfoldable pub list_backups :
      Faults → Text → Text → List StoredHostedBackupBucket → Result BackupListStatus
  list_backups faults lookup_id auth_token contents = do
    buckets ← load faults contents
    ok (list_of auth_token (find (has_lookup_id lookup_id) buckets))
