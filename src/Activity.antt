-- ===== src/Activity.antt =====
-- Activity sync: `ActivityEvent::validate` of crates/aichan-core/src/activity.rs, and
-- `StoredActivityBucket` and `FileActivityStore` of crates/aichan-server/src/lib.rs.
pub mod Event
pub mod Bounds
pub mod Paging
use Prim.Native.Nat.{compare}
use ai_channel.Prelude.{
  ℕ, ◌-◌, ◌+◌, Bool, true, false, not, ◌&&◌, ◌||◌, Option, none, some, List, [], ◌∷◌, ◌++◌, ltb,
  ◌==◌, if◌then◌else◌, find, update_first, retain, take, drop, drop_until, last, length,
}
use ai_channel.Prelude.Order.{Ordering, then_with, is_gt}
use ai_channel.Prelude.Sort.{sort_by}
use ai_channel.Prelude.Text.{Text, text, text_eq, compare_text}
use ai_channel.Prelude.Result.{Result, ok, err, ◌>>=◌}
use ai_channel.Time.{DateTime}
use ai_channel.Storage.{Faults, load, save, with_loaded}
use ai_channel.Protocol.Types.{ActivityEvent}
use ai_channel.Protocol.External.{Crypto, Codec}
use ai_channel.Digest.{activity_auth_hash, content_sha256}

abbrev pub max_activity_events : ℕ
max_activity_events = 2_000

pub record StoredActivityEvent : Type 0 where
  pub event : ActivityEvent
  pub stored_at : DateTime
  pub size_bytes : ℕ
  pub content_sha256 : Text

pub record StoredActivityBucket : Type 0 where
  pub bucket_id : Text
  pub auth_hash : Text
  pub events : List StoredActivityEvent
  pub created_at : DateTime
  pub updated_at : DateTime

pub record ActivityCursor : Type 0 where
  pub created_at : DateTime
  pub event_id : Text

pub record ActivityPage : Type 0 where
  pub events : List StoredActivityEvent
  pub next_cursor : Option Text
  pub has_more : Bool

pub data ActivityPutStatus : Type 0 where
  stored : StoredActivityEvent → ActivityPutStatus
  unauthorized : ActivityPutStatus

pub data ActivityListStatus : Type 0 where
  found : ActivityPage → ActivityListStatus
  not_found unauthorized : ActivityListStatus

-- `ActivityCursor::encode` and `decode`
pub record CursorCodec : Type 0 where
  pub encode : ActivityCursor → Result Text
  pub decode : Text → Result ActivityCursor

-- `StoredActivityBucket::new`
unfoldable pub new_bucket : Text → Text → DateTime → StoredActivityBucket
new_bucket bucket_id auth_hash now = record {
  bucket_id = bucket_id;
  auth_hash = auth_hash;
  events = [];
  created_at = now;
  updated_at = now;
}

unfoldable pub compare_activity_events_oldest_first :
    StoredActivityEvent → StoredActivityEvent → Ordering
compare_activity_events_oldest_first left right =
    then_with (compare left.event.created_at right.event.created_at)
      (compare_text left.event.event_id right.event.event_id)

unfoldable pub activity_event_is_after_cursor : ActivityCursor → StoredActivityEvent → Bool
activity_event_is_after_cursor cursor entry =
    ltb cursor.created_at entry.event.created_at
    || entry.event.created_at == cursor.created_at
      && is_gt (compare_text entry.event.event_id cursor.event_id)

abbrev pub is_current : DateTime → StoredActivityEvent → Bool
is_current now entry = ltb now entry.event.expires_at

-- `prune_expired`
unfoldable pub prune_expired : DateTime → StoredActivityBucket → StoredActivityBucket
prune_expired now bucket = record bucket { events = retain (is_current now) bucket.events }

abbrev pub has_event_id : Text → StoredActivityEvent → Bool
has_event_id event_id entry = text_eq entry.event.event_id event_id

-- sort, and drop the oldest events above the bound
unfoldable pub keep_newest : List StoredActivityEvent → List StoredActivityEvent
keep_newest events =
    let sorted = sort_by compare_activity_events_oldest_first events in
    if ltb max_activity_events (length sorted)
    then drop (length sorted - max_activity_events) sorted
    else sorted

module _ (crypto : Crypto) (codec : Codec) where
  unfoldable pub authorize : Text → StoredActivityBucket → Bool
  authorize auth_token bucket = text_eq bucket.auth_hash (activity_auth_hash crypto auth_token)

  -- the entry that `put` stores
  unfoldable pub new_event : ActivityEvent → DateTime → StoredActivityEvent
  new_event event now =
      let bytes = codec.to_vec (codec.activity_event_value event) in
      record {
        event = event;
        stored_at = now;
        size_bytes = length bytes;
        content_sha256 = content_sha256 crypto bytes;
      }

  -- `StoredActivityBucket::put`
  unfoldable pub put_in_bucket :
      Text
      → ActivityEvent
      → DateTime
      → StoredActivityBucket
      → ActivityPutStatus × StoredActivityBucket
  unfolding authorize prune_expired new_event keep_newest
  put_in_bucket auth_token event now bucket =
      if not (authorize auth_token bucket)
      then (ActivityPutStatus.unauthorized, bucket)
      else let pruned = prune_expired now bucket in
        elim (find (has_event_id event.event_id) pruned.events) [
          | some existing ↦ (ActivityPutStatus.stored existing, pruned)
          | none ↦
              let stored = new_event event now in
              (
                ActivityPutStatus.stored stored,
                record pruned {
                  events = keep_newest (pruned.events ++ stored ∷ []);
                  updated_at = now;
                },
              )
        ]

-- the events from the position of the cursor on
unfoldable pub tail_from :
    Option ActivityCursor → List StoredActivityEvent → List StoredActivityEvent
tail_from none events = events
tail_from (some cursor) events = drop_until (activity_event_is_after_cursor cursor) events

abbrev pub cursor_at : StoredActivityEvent → ActivityCursor
cursor_at entry = record { created_at = entry.event.created_at; event_id = entry.event.event_id }

abbrev ok_text : Result Text → Option Text
ok_text (ok t) = some t
ok_text (err e) = none

-- `.map(...).and_then(|cursor| cursor.encode().ok())`
abbrev encode_last : CursorCodec → Option StoredActivityEvent → Option Text
encode_last codec none = none
encode_last codec (some entry) = ok_text (codec.encode (cursor_at entry))

-- the page that starts at the first of these events
unfoldable pub page_of : CursorCodec → ℕ → List StoredActivityEvent → ActivityPage
page_of codec limit events =
    let fetched = take (limit + 1) events in
    let has_more = ltb limit (length fetched) in
    let candidates = if has_more then take limit fetched else fetched in
    record {
      events = candidates;
      next_cursor = if has_more then encode_last codec (last candidates) else none;
      has_more = has_more;
    }

module _ (crypto : Crypto) (cursors : CursorCodec) where
  -- `StoredActivityBucket::list`
  unfoldable pub list_bucket :
      Text
      → ℕ
      → Option ActivityCursor
      → DateTime
      → StoredActivityBucket
      → ActivityListStatus × StoredActivityBucket
  unfolding prune_expired
  list_bucket auth_token limit cursor now bucket =
      if not (text_eq bucket.auth_hash (activity_auth_hash crypto auth_token))
      then (ActivityListStatus.unauthorized, bucket)
      else let events =
          sort_by compare_activity_events_oldest_first (prune_expired now bucket).events in
        (
          ActivityListStatus.found (page_of cursors limit (tail_from cursor events)),
          record bucket { events = events },
        )

abbrev pub has_bucket_id : Text → StoredActivityBucket → Bool
has_bucket_id bucket_id bucket = text_eq bucket.bucket_id bucket_id

-- `if matches!(status, Stored(_)) { save }`
unfoldable pub save_if_stored :
    Faults
    → List StoredActivityBucket
    → List StoredActivityBucket
    → ActivityPutStatus
    → Result ActivityPutStatus × List StoredActivityBucket
save_if_stored faults before after (ActivityPutStatus.stored entry) =
    save faults before after (ActivityPutStatus.stored entry)
save_if_stored faults before after ActivityPutStatus.unauthorized =
    (ok ActivityPutStatus.unauthorized, before)

-- `FileActivityStore::put`; `now` is `Utc::now()`
unfoldable pub put_activity :
    Crypto
    → Codec
    → Faults
    → Text
    → Text
    → ActivityEvent
    → DateTime
    → List StoredActivityBucket
    → Result ActivityPutStatus × List StoredActivityBucket
put_activity crypto codec faults bucket_id auth_token event now contents =
    with_loaded faults contents λ buckets. elim (find (has_bucket_id bucket_id) buckets) [
      | some bucket ↦
          save_if_stored faults buckets
            (update_first (has_bucket_id bucket_id)
              (λ b. (put_in_bucket crypto codec auth_token event now b).1) buckets)
            (put_in_bucket crypto codec auth_token event now bucket).0
      | none ↦
          let (status, bucket) =
            put_in_bucket crypto codec auth_token event now
              (new_bucket bucket_id (activity_auth_hash crypto auth_token) now) in
          save_if_stored faults buckets (buckets ++ bucket ∷ []) status
    ]

-- `FileActivityStore::list`: the pruned bucket is saved if it has fewer events than before
unfoldable pub list_activity :
    Crypto
    → CursorCodec
    → Faults
    → Text
    → Text
    → ℕ
    → Option ActivityCursor
    → DateTime
    → List StoredActivityBucket
    → Result ActivityListStatus × List StoredActivityBucket
list_activity crypto cursors faults bucket_id auth_token limit cursor now contents =
    with_loaded faults contents λ buckets. elim (find (has_bucket_id bucket_id) buckets) [
      | none ↦ (ok ActivityListStatus.not_found, buckets)
      | some bucket ↦
          let (status, listed) = list_bucket crypto cursors auth_token limit cursor now bucket in
          if not (length bucket.events == length listed.events)
          then save faults buckets
              (update_first (has_bucket_id bucket_id)
                (λ b. (list_bucket crypto cursors auth_token limit cursor now b).1) buckets)
              status
          else (ok status, buckets)
    ]
