-- ===== src/Publish/Search.antt =====
-- `FilePublishStore::search` and `publish_record_matches_tag` of crates/aichan-server/src/lib.rs.
use ai_channel.Prelude.{Bool, true, Option, none, some, any, retain}
use ai_channel.Prelude.Sort.{sort_by}
use ai_channel.Prelude.Text.{Text, text_eq}
use ai_channel.Prelude.Result.{Result, ◌>>=◌}
use ai_channel.Storage.{Faults, load}
use ai_channel.Publish.Record.{StoredPublishRecord, PublishSearchRequest, PublishSearchPage}
use ai_channel.Publish.Store.{Records, is_visible}
use ai_channel.Publish.Pages.{
  compare_publish_records_newest_first, CursorCodec, paginate_ordered_publish_records,
}

unfoldable pub publish_record_matches_tag : Option Text → StoredPublishRecord → Bool
publish_record_matches_tag none entry = true
publish_record_matches_tag (some tag) entry =
    any (λ candidate. text_eq candidate tag) entry.object.payload.tags

-- the visible records with the tag, newest first
unfoldable pub search_results : Option Text → Records → Records
search_results tag records =
    sort_by compare_publish_records_newest_first
      (retain (publish_record_matches_tag tag) (retain is_visible records))

unfoldable pub search :
    CursorCodec → Faults → PublishSearchRequest → Records → Result PublishSearchPage
unfolding search_results
search codec faults query contents = do
  records ← load faults contents
  paginate_ordered_publish_records codec (search_results query.tag records) query.limit query.cursor
