-- ===== src/Publish/Pages.antt =====
-- Ordering and cursors of publish search: `compare_publish_records_newest_first`,
-- `paginate_ordered_publish_records` and `page_from_ordered_tail` of
-- crates/aichan-server/src/lib.rs.
use Prim.Native.Nat.{compare, min}
use ai_channel.Prelude.{
  ℕ, ◌+◌, ◌-◌, Bool, ◌&&◌, ◌||◌, Option, none, some, List, map, ltb, ◌==◌, if◌then◌else◌, length,
  take, drop_until, last,
}
use ai_channel.Prelude.Order.{Ordering, then_with, is_lt}
use ai_channel.Prelude.Text.{Text, compare_text}
use ai_channel.Prelude.Result.{Result, ok, ◌>>=◌}
use ai_channel.Publish.Record.{StoredPublishRecord, PublishSearchCursor, PublishSearchPage}

abbrev pub publish_search_window_limit : ℕ
publish_search_window_limit = 10_000

unfoldable pub compare_publish_records_newest_first :
    StoredPublishRecord → StoredPublishRecord → Ordering
compare_publish_records_newest_first left right =
    then_with (compare right.object.created_at left.object.created_at)
      (compare_text right.object.id left.object.id)

unfoldable pub publish_record_is_older_than_cursor :
    PublishSearchCursor → StoredPublishRecord → Bool
publish_record_is_older_than_cursor cursor entry =
    ltb entry.object.created_at cursor.created_at
    || entry.object.created_at == cursor.created_at
      && is_lt (compare_text entry.object.id cursor.id)

-- `PublishSearchCursor::encode` and `decode`, on the text of a cursor
pub record CursorCodec : Type 0 where
  pub encode : PublishSearchCursor → Result Text
  pub decode : Text → Result PublishSearchCursor

-- the cursor that names the last record of a page
abbrev pub cursor_at : ℕ → StoredPublishRecord → PublishSearchCursor
cursor_at seen entry = record {
  created_at = entry.object.created_at;
  id = entry.object.id;
  seen = seen;
}

abbrev encode_last : CursorCodec → ℕ → Option StoredPublishRecord → Result (Option Text)
encode_last codec seen none = ok none
encode_last codec seen (some entry) = do
  encoded ← codec.encode (cursor_at seen entry)
  ok (some encoded)

-- the records of a page that starts after `seen_before` records
unfoldable pub page_limit : ℕ → ℕ → ℕ
page_limit limit seen_before =
    min limit (publish_search_window_limit - min seen_before publish_search_window_limit)

module _ (codec : CursorCodec) where
  unfoldable pub page_from_ordered_tail :
      List StoredPublishRecord → ℕ → ℕ → Result PublishSearchPage
  unfolding page_limit
  page_from_ordered_tail records limit seen_before = do
    let size = page_limit limit seen_before
    let fetched = take (size + 1) records
    let has_extra = ltb size (length fetched)
    let candidates = if has_extra then take size fetched else fetched
    let new_seen = min seen_before publish_search_window_limit + length candidates
    let has_more = has_extra && ltb new_seen publish_search_window_limit
    next_cursor ← if has_more then encode_last codec new_seen (last candidates) else ok none
    ok (record {
      records = map (λ entry. entry.object) candidates;
      next_cursor = next_cursor;
      has_more = has_more;
    })

  -- the records from the cursor's position on; none, if all are newer
  unfoldable pub tail_from :
      List StoredPublishRecord → Option PublishSearchCursor → List StoredPublishRecord
  tail_from ordered none = ordered
  tail_from ordered (some cursor) = drop_until (publish_record_is_older_than_cursor cursor) ordered

  abbrev seen_of : Option PublishSearchCursor → ℕ
  seen_of none = 0
  seen_of (some cursor) = cursor.seen

  unfoldable pub paginate_ordered_publish_records :
      List StoredPublishRecord → ℕ → Option PublishSearchCursor → Result PublishSearchPage
  unfolding tail_from page_from_ordered_tail
  paginate_ordered_publish_records ordered limit cursor =
      page_from_ordered_tail (tail_from ordered cursor) limit (seen_of cursor)
