-- ===== src/Backup/Generations.antt =====
-- The generations of a backup bucket: at most ten, newest first, none deleted; what an upload and a
-- read do to them.
use ai_channel.Prelude.{
  ◌≤◌, ◌≡◌, refl, true, false, List, [], ◌∷◌, ◌++◌, arith, length, retain, All, All-take,
  All-map_imp, retain_sound, length-take-le, Bool-cases, inl, inr,
}
use ai_channel.Prelude.Order.{
  Ordering, Chain-compare, Chain-then_with, compare-flip, flip-then_with, IsComparison,
  IsComparison-of_Chain,
}
use ai_channel.Prelude.Sort.{
  sort_by, Sorted, sort_by-Sorted, sort_by_of_Sorted, Sorted-retain, Sorted-take,
}
use ai_channel.Prelude.Text.{Text, text_eq, compare_text-flip, Chain-compare_text}
use ai_channel.Time.{DateTime}
use ai_channel.Json.{Value}
use ai_channel.Protocol.External.{Crypto, Codec}
use ai_channel.Digest.{backup_auth_hash}
use ai_channel.Backup.{
  max_backup_generations, StoredHostedBackupGeneration, StoredHostedBackupBucket, BackupPutStatus,
  BackupReadStatus, BackupListStatus, new_bucket, compare_backup_generations_oldest_first,
  compare_backup_generations_newest_first, is_kept, max_from, max_by, authorize, new_generation,
  keep_newest, put_in_bucket, latest_in_bucket, list_bucket,
}

module _ {A : Type 0} {cmp : A → A → Ordering} where
  -- a comparison turned round is one too
  pub IsComparison-swap : IsComparison cmp → IsComparison (λ a b. cmp b a)
  IsComparison-swap c = record {
    flipped = λ a b. c.flipped b a;
    trans_le = λ a b c' h k. c.trans_le c' b a k h;
  }

oldest_first-IsComparison : IsComparison compare_backup_generations_oldest_first
unfolding compare_backup_generations_oldest_first
oldest_first-IsComparison =
    IsComparison-of_Chain compare_backup_generations_oldest_first
      (λ a b. rw (
        compare-flip a.created_at b.created_at,
        compare_text-flip a.generation_id b.generation_id,
        flip-then_with,
      ))
      (λ a b c.
        Chain-then_with _ _ _ _ _ _ (Chain-compare a.created_at b.created_at c.created_at)
          (Chain-compare_text a.generation_id b.generation_id c.generation_id))

newest_first-IsComparison : IsComparison compare_backup_generations_newest_first
unfolding compare_backup_generations_newest_first
newest_first-IsComparison = IsComparison-swap oldest_first-IsComparison

pub record IsWellFormed (bucket : StoredHostedBackupBucket) : Type 0 where
  pub bounded : length bucket.generations ≤ max_backup_generations
  pub ordered : Sorted compare_backup_generations_newest_first bucket.generations
  pub kept : All (λ g. g.deleted ≡ false) bucket.generations

pub new_bucket-IsWellFormed :
    (lookup_id auth_hash : Text) (now : DateTime)
    → IsWellFormed (new_bucket lookup_id auth_hash now)
unfolding new_bucket
new_bucket-IsWellFormed lookup_id auth_hash now = record {
  bounded = omega arith;
  ordered = tt;
  kept = tt;
}

module _ (crypto : Crypto) (codec : Codec) where
  keep_newest-bounded :
      (g : StoredHostedBackupGeneration) (gs : List StoredHostedBackupGeneration)
      → length (keep_newest crypto codec g gs) ≤ max_backup_generations
  unfolding keep_newest
  keep_newest-bounded g gs = length-take-le max_backup_generations _

  keep_newest-Sorted :
      (g : StoredHostedBackupGeneration) (gs : List StoredHostedBackupGeneration)
      → Sorted compare_backup_generations_newest_first (keep_newest crypto codec g gs)
  unfolding keep_newest
  keep_newest-Sorted g gs =
      Sorted-take compare_backup_generations_newest_first max_backup_generations _ (
        Sorted-retain compare_backup_generations_newest_first is_kept _
          (sort_by-Sorted newest_first-IsComparison (gs ++ g ∷ [])))

  keep_newest-kept :
      (g : StoredHostedBackupGeneration) (gs : List StoredHostedBackupGeneration)
      → All (λ h. h.deleted ≡ false) (keep_newest crypto codec g gs)
  unfolding keep_newest
  keep_newest-kept g gs =
      let sorted = sort_by compare_backup_generations_newest_first (gs ++ g ∷ []) in
      All-take (λ h. h.deleted ≡ false) max_backup_generations (retain is_kept sorted)
        (All-map_imp (λ h. is_kept h ≡ true) (λ h. h.deleted ≡ false) (λ h e. ground arith)
          (retain is_kept sorted) (retain_sound is_kept sorted))

-- An upload leaves a bucket of at most ten generations, newest first and none of them deleted, if it
-- was one; and with a wrong token it changes nothing at all.
pub put_in_bucket-IsWellFormed :
    (crypto : Crypto) (codec : Codec) (auth_token : Text) (backup : Value) (now : DateTime)
    (bucket : StoredHostedBackupBucket)
    → IsWellFormed bucket
    → IsWellFormed (put_in_bucket crypto codec auth_token backup now bucket).1
      × (authorize crypto codec auth_token bucket ≡ false
          → put_in_bucket crypto codec auth_token backup now bucket
            ≡ (BackupPutStatus.unauthorized, bucket))
unfolding put_in_bucket
put_in_bucket-IsWellFormed crypto codec auth_token backup now bucket w =
    let g = new_generation crypto codec backup now in
    elim (Bool-cases (text_eq bucket.auth_hash (backup_auth_hash crypto auth_token))) [
      | inl e ↦ rw e (
        record {
          bounded = keep_newest-bounded crypto codec g bucket.generations;
          ordered = keep_newest-Sorted crypto codec g bucket.generations;
          kept = keep_newest-kept crypto codec g bucket.generations;
        },
        λ wrong. cc wrong,
      )
      | inr e ↦ rw e (w, λ wrong. refl)
    ]

-- `max_by` over a list in the opposite order returns its head or an equal element: where the rest
-- is not above the head, the head stays the greatest unless a later element compares equal.
max_from-of_Sorted :
    (x : StoredHostedBackupGeneration) (xs : List StoredHostedBackupGeneration)
    → All (λ y. compare_backup_generations_oldest_first x y ≡ Ordering.gt) xs
    → max_from compare_backup_generations_oldest_first x xs ≡ x
unfolding max_from
max_from-of_Sorted x [] h = refl
max_from-of_Sorted x (y ∷ xs) h = rw h.0 (max_from-of_Sorted x xs h.1)

retain_all :
    (xs : List StoredHostedBackupGeneration)
    → All (λ g. g.deleted ≡ false) xs
    → retain is_kept xs ≡ xs
retain_all [] h = refl
retain_all (x ∷ xs) h = ground (arith, h.0, retain_all xs h.1)

-- For the owner of a well-formed bucket, the list of generations is the bucket's own, and the backup
-- that a read returns is the first of that list, if it is strictly newer than the others.
pub latest-eq-head :
    (crypto : Crypto) (codec : Codec) (auth_token : Text) (bucket : StoredHostedBackupBucket)
    (newest : StoredHostedBackupGeneration) (older : List StoredHostedBackupGeneration)
    → IsWellFormed bucket
    → authorize crypto codec auth_token bucket ≡ true
    → bucket.generations ≡ newest ∷ older
    → All (λ g. compare_backup_generations_oldest_first newest g ≡ Ordering.gt) older
    → (list_bucket crypto codec auth_token bucket ≡ BackupListStatus.found (newest ∷ older))
      × (latest_in_bucket crypto codec auth_token bucket ≡ BackupReadStatus.found newest)
unfolding list_bucket latest_in_bucket max_by
latest-eq-head crypto codec auth_token bucket newest older w owner shape strict =
    rw
      (
        owner,
        retain_all bucket.generations w.kept,
        sort_by_of_Sorted compare_backup_generations_newest_first bucket.generations w.ordered,
        shape,
        max_from-of_Sorted newest older strict,
      )
      (refl, refl)
