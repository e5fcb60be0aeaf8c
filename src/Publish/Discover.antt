-- ===== src/Publish/Discover.antt =====
-- Discovery in crates/aichan-server/src/lib.rs: `FilePublishStore::discover`,
-- `normalize_discover_tags`, `rank_discover_records` and what they call.
pub mod Tags
use Prim.Native.Nat.{compare, max, min}
use ai_channel.Prelude.{
  ℕ, zero, suc, ◌+◌, ◌-◌, ◌*◌, ◌/◌, ◌%◌, ◌^◌, Bool, true, false, ◌&&◌, ◌||◌, Option, none, some,
  List, [], ◌∷◌, ◌++◌, map, ltb, leb, if◌then◌else◌, any, retain, take, length, count_if,
}
use ai_channel.Prelude.Order.{Ordering, then_with}
use ai_channel.Prelude.Sort.{sort_by}
use ai_channel.Prelude.Text.{
  Text, text, text_eq, compare_text, trim, is_empty, to_ascii_lowercase, as_bytes, decimal,
}
use ai_channel.Prelude.Result.{Result, ok, ◌>>=◌}
use ai_channel.Time.{DateTime, unix_epoch, second, discover_rotation_seconds}
use ai_channel.Storage.{Faults, load}
use ai_channel.Protocol.External.{Crypto}
use ai_channel.Publish.Record.{PublishObject, StoredPublishRecord, PublishDiscoverRequest}
use ai_channel.Publish.Store.{Records, is_visible}
use ai_channel.Publish.Pages.{compare_publish_records_newest_first}

abbrev pub discover_max_tags : ℕ
discover_max_tags = 5

abbrev pub discover_candidate_window : ℕ
discover_candidate_window = 200

-- the loop of `normalize_discover_tags`, with what it has collected
unfoldable pub normalize_from : List Text → List Text → List Text
normalize_from normalized [] = normalized
normalize_from normalized (raw ∷ tags) =
    let tag = to_ascii_lowercase (trim raw) in
    let skipped = normalize_from normalized tags in
    let pushed = normalize_from (normalized ++ tag ∷ []) tags in
    if is_empty tag || any (λ existing. text_eq existing tag) normalized
    then skipped
    else if leb discover_max_tags (length (normalized ++ tag ∷ []))
    then normalized ++ tag ∷ []
    else pushed

unfoldable pub normalize_discover_tags : List Text → List Text
unfolding normalize_from
normalize_discover_tags tags = normalize_from [] tags

unfoldable pub discover_tag_overlap : List Text → PublishObject → ℕ
discover_tag_overlap tags object =
    count_if (λ tag. any (λ candidate. text_eq candidate tag) object.payload.tags) tags

unfoldable pub discover_record_matches_tags : List Text → PublishObject → Bool
discover_record_matches_tags [] object = true
discover_record_matches_tags (tag ∷ tags) object = ltb 0 (discover_tag_overlap (tag ∷ tags) object)

-- `saturating_mul` on `usize`
unfoldable pub discover_candidate_limit : List Text → ℕ
discover_candidate_limit tags =
    min (discover_candidate_window * max (length tags) 1) 18446744073709551615

-- `u64::from_be_bytes`
unfoldable pub from_be_bytes : ℕ → List ℕ → ℕ
from_be_bytes acc [] = acc
from_be_bytes acc (b ∷ bytes) = from_be_bytes (acc * 256 + b) bytes

unfoldable pub current_discover_seed : DateTime → Text
current_discover_seed now =
    text "time:" ++ decimal ((now - unix_epoch) / second / discover_rotation_seconds)

-- What `rank_discover_records` sorts.
pub record Scored : Type 0 where
  pub overlap : ℕ
  pub score : ℕ
  pub created_at : DateTime
  pub id : Text
  pub object : PublishObject

unfoldable pub compare_scored : Scored → Scored → Ordering
compare_scored left right = then_with (compare right.overlap left.overlap) (
    then_with (compare right.score left.score)
      (then_with (compare right.created_at left.created_at) (compare_text left.id right.id)))

module _ (crypto : Crypto) where
  unfoldable pub discover_score : Text → Text → ℕ
  discover_score seed publish_id =
      from_be_bytes 0 (take 8 (crypto.sha256 (as_bytes seed ++ 0 ∷ as_bytes publish_id)))

  unfoldable pub scored : PublishDiscoverRequest → PublishObject → Scored
  scored query object = record {
    overlap = discover_tag_overlap query.tags object;
    score = discover_score query.seed object.id;
    created_at = object.created_at;
    id = object.id;
    object = object;
  }

  unfoldable pub rank_discover_records :
      PublishDiscoverRequest → List PublishObject → List PublishObject
  rank_discover_records query candidates =
      let matching = retain (discover_record_matches_tags query.tags) candidates in
      map (λ s. s.object) (take query.limit (sort_by compare_scored (map (scored query) matching)))

  -- the visible records with one of the tags, newest first, up to the candidate limit
  unfoldable pub discover_candidates : PublishDiscoverRequest → Records → List PublishObject
  discover_candidates query records =
      map (λ entry. entry.object)
        (take (discover_candidate_limit query.tags) (
          sort_by compare_publish_records_newest_first (
            retain (λ entry. discover_record_matches_tags query.tags entry.object)
              (retain is_visible records))))

  unfoldable pub discover : Faults → PublishDiscoverRequest → Records → Result (List PublishObject)
  unfolding discover_candidates rank_discover_records
  discover faults query contents = do
    records ← load faults contents
    ok (rank_discover_records query (discover_candidates query records))
