-- ===== src/Server/Publishing.antt =====
-- The handlers of published records: `publish_record`, `search_publish_records`,
-- `discover_publish_records`, `delete_publish_record` and `stats_response`.
use ai_channel.Prelude.{
  ℕ, true, false, Option, none, some, List, [], ◌∷◌, ◌++◌, map, length, if◌then◌else◌,
}
use ai_channel.Prelude.Text.{Text, text, trim, is_empty, split}
use ai_channel.Prelude.Result.{Result, ok, err}
use ai_channel.Json.{Value, null, bool, number, pos_int, string, json_object, json_array}
use ai_channel.Http.{
  HttpRequest, HttpResponse, query, get, unwrap_or, json_response, error_response,
}
use ai_channel.Query.{parse_query, limit_param}
use ai_channel.Protocol.Types.{PeerId}
use ai_channel.Protocol.Verify.{verify_publish_record}
use ai_channel.Publish.Record.{PublishObject, PublishUpsertStatus, PublishSearchCursor}
use ai_channel.Publish.Pages.{publish_search_window_limit}
use ai_channel.Publish.Store.{upsert, publish_stats}
use ai_channel.Publish.Search.{search}
use ai_channel.Publish.Discover.{
  normalize_discover_tags, current_discover_seed, discover_candidate_window, discover,
}
use ai_channel.Message.{count_messages}
use ai_channel.Time.{DateTime}
use ai_channel.Server.State.{ServerState, Readings, External, Reply}

abbrev pub nat_value : ℕ → Value
nat_value n = number (pos_int n)

abbrev pub optional_text_value : Option Text → Value
optional_text_value none = null
optional_text_value (some s) = string s

module _ (x : External) where
  -- the `500 storage_unavailable` answers
  unfoldable pub storage_unavailable : Text → Text → HttpResponse
  storage_unavailable prefix error =
      error_response x.codec 500 (text "storage_unavailable") (prefix ++ error) true

  unfoldable pub upsert_response :
      PublishObject → PeerId → Result PublishUpsertStatus → HttpResponse
  unfolding storage_unavailable
  upsert_response object peer_id (ok PublishUpsertStatus.stored) = json_response x.codec 201 (
      json_object (
        (text "stored", bool true)
        ∷ (text "id", string object.id)
        ∷ (text "peer_id", string peer_id)
        ∷ []))
  upsert_response object peer_id (ok PublishUpsertStatus.peer_conflict) =
      error_response x.codec 409 (text "conflict")
        (text "Publish id already belongs to another peer.") false
  upsert_response object peer_id (ok PublishUpsertStatus.author_deleted) =
      error_response x.codec 409 (text "publish_deleted")
        (text "Publish id was author-deleted and cannot be reused.") false
  upsert_response object peer_id (err error) =
      storage_unavailable (text "Could not write publish store: ") error

  unfoldable pub publish_record : Readings → HttpRequest → ServerState → Reply
  unfolding upsert_response
  publish_record r request state = elim (x.codec.parse_publish_record request.body) [
    | err error ↦ (
      error_response x.codec 400 (text "invalid_encoding")
          (text "Invalid JSON publish record: " ++ error) false,
      state,
    )
    | ok object ↦ elim (verify_publish_record x.crypto x.codec object) [
      | err error ↦ (
        error_response x.codec 400 (text "invalid_signature")
            (text "Publish record verification failed: " ++ error) false,
        state,
      )
      | ok peer_id ↦
          let (status, records) = upsert r.publish_faults object peer_id state.publish_store in
          (upsert_response object peer_id status, record state { publish_store = records })
    ]
  ]

  -- the answer of a search with the decoded cursor
  unfoldable pub search_response :
      Readings → ServerState → Option Text → ℕ → Option PublishSearchCursor → HttpResponse
  unfolding storage_unavailable
  search_response r state tag limit cursor =
      elim (search x.publish_cursors r.publish_faults
        (record { tag = tag; limit = limit; cursor = cursor }) state.publish_store) [
          | err error ↦ storage_unavailable (text "Could not read publish store: ") error
          | ok page ↦ json_response x.codec 200 (
              json_object (
                (text "count", nat_value (length page.records))
                ∷ (text "records", json_array (map x.codec.signed_publish_value page.records))
                ∷ (text "next_cursor", optional_text_value page.next_cursor)
                ∷ (text "has_more", bool page.has_more)
                ∷ (text "window_limit", nat_value publish_search_window_limit)
                ∷ []))
        ]

  unfoldable pub search_publish_records : Readings → HttpRequest → ServerState → Reply
  unfolding search_response
  search_publish_records r request state =
      let params = parse_query (unwrap_or [] (query request)) in
      let tag = get (text "tag") params in
      let limit = limit_param 50 100 (get (text "limit") params) in
      elim (get (text "cursor") params) [
        | none ↦ (search_response r state tag limit none, state)
        | some value ↦ elim (x.publish_cursors.decode value) [
          | ok cursor ↦ (search_response r state tag limit (some cursor), state)
          | err error ↦ (
            error_response x.codec 400 (text "invalid_cursor")
                (text "Invalid publish search cursor: " ++ error) false,
            state,
          )
        ]
      ]

  -- the comma-separated `tags`, then `tag`
  unfoldable pub raw_tags : Option Text → Option Text → List Text
  raw_tags none none = []
  raw_tags none (some tag) = tag ∷ []
  raw_tags (some tags) none = split b',' tags
  raw_tags (some tags) (some tag) = split b',' tags ++ tag ∷ []

  unfoldable pub seed_param : DateTime → Option Text → Text
  seed_param now none = current_discover_seed now
  seed_param now (some seed) = if is_empty (trim seed) then current_discover_seed now else trim seed

  unfoldable pub discover_publish_records : Readings → HttpRequest → ServerState → Reply
  unfolding raw_tags seed_param storage_unavailable
  discover_publish_records r request state =
      let params = parse_query (unwrap_or [] (query request)) in
      let tags =
        normalize_discover_tags (raw_tags (get (text "tags") params) (get (text "tag") params)) in
      let limit = limit_param 3 25 (get (text "limit") params) in
      let seed = seed_param r.now (get (text "seed") params) in
      elim (discover x.crypto r.publish_faults (record { tags = tags; limit = limit; seed = seed })
        state.publish_store) [
          | err error ↦ (storage_unavailable (text "Could not read publish store: ") error, state)
          | ok records ↦ (
            json_response x.codec 200 (
                json_object (
                  (text "count", nat_value (length records))
                  ∷ (text "records", json_array (map x.codec.signed_publish_value records))
                  ∷ (text "tags", json_array (map string tags))
                  ∷ (text "seed", string seed)
                  ∷ (text "candidate_window", nat_value discover_candidate_window)
                  ∷ (text "has_more", bool false)
                  ∷ [])),
            state,
          )
        ]

  unfoldable pub stats_response : Readings → ServerState → Reply
  unfolding storage_unavailable
  stats_response r state = elim (publish_stats r.publish_faults state.publish_store) [
    | err error ↦ (storage_unavailable (text "Could not read public stats: ") error, state)
    | ok public ↦ elim (count_messages r.message_faults state.message_store) [
      | err error ↦ (storage_unavailable (text "Could not read message stats: ") error, state)
      | ok private_messages_sent ↦ (
        json_response x.codec 200 (
            json_object (
              (text "agents_alive", nat_value public.agents_alive)
              ∷ (text "public_messages_sent", nat_value public.public_messages_sent)
              ∷ (text "private_messages_sent", nat_value private_messages_sent)
              ∷ [])),
        state,
      )
    ]
  ]
