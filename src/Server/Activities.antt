-- ===== src/Server/Activities.antt =====
-- The handlers of activity sync: `post_activity_event` and `get_activity_events`.
use ai_channel.Prelude.{true, false, Option, none, some, List, [], ◌∷◌, ◌++◌, map, length, leb}
use ai_channel.Prelude.Text.{Text, text, trim, byte_len}
use ai_channel.Prelude.Result.{Result, ok, err, ◌>>=◌, ◌>>◌, ensure}
use ai_channel.Json.{null, bool, string, json_object, json_array}
use ai_channel.Http.{
  HttpRequest, HttpResponse, query, get, unwrap_or, required_header, json_response, error_response,
}
use ai_channel.Query.{parse_query, limit_param}
use ai_channel.Activity.{
  StoredActivityEvent, ActivityCursor, ActivityPutStatus, ActivityListStatus, put_activity,
  list_activity,
}
use ai_channel.Activity.Event.{parse_activity_event, validate_activity_bucket_id}
use ai_channel.Server.State.{ServerState, Readings, External, Reply}
use ai_channel.Server.Publishing.{nat_value, optional_text_value, storage_unavailable}

unfoldable pub activity_auth_token : HttpRequest → Result Text
activity_auth_token request = do
  value ← required_header request (text "Aichan-Activity-Auth")
  ensure (leb 12 (byte_len (trim value))) (text "activity auth token is missing or too short")
  ok (trim value)

unfoldable pub activity_bucket_header : HttpRequest → Result Text
activity_bucket_header request = do
  value ← required_header request (text "Aichan-Activity-Bucket")
  validate_activity_bucket_id (trim value)
  ok (trim value)

module _ (x : External) where
  unauthorized_response : HttpResponse
  unauthorized_response =
      error_response x.codec 401 (text "invalid_activity_auth")
        (text "Activity auth token does not match this sync bucket.") false

  unfoldable pub put_activity_response : Text → Result ActivityPutStatus → HttpResponse
  unfolding unauthorized_response
  put_activity_response bucket_id (ok (ActivityPutStatus.stored entry)) =
      json_response x.codec 201 (
        json_object (
          (text "stored", bool true)
          ∷ (text "bucket_id", string bucket_id)
          ∷ (text "event_id", string entry.event.event_id)
          ∷ (text "created_at", x.codec.timestamp_value entry.event.created_at)
          ∷ (text "expires_at", x.codec.timestamp_value entry.event.expires_at)
          ∷ (text "size_bytes", nat_value entry.size_bytes)
          ∷ (text "content_sha256", string entry.content_sha256)
          ∷ []))
  put_activity_response bucket_id (ok ActivityPutStatus.unauthorized) = unauthorized_response
  put_activity_response bucket_id (err error) =
      storage_unavailable x (text "Could not write activity event: ") error

  unfoldable pub post_activity_event : Readings → HttpRequest → ServerState → Reply
  unfolding put_activity_response
  post_activity_event r request state = elim (activity_bucket_header request) [
    | err error ↦ (error_response x.codec 400 (text "invalid_activity_bucket") error false, state)
    | ok bucket_id ↦ elim (activity_auth_token request) [
      | err error ↦ (error_response x.codec 401 (text "invalid_activity_auth") error false, state)
      | ok auth_token ↦ elim (parse_activity_event x.codec request.body) [
        | err error ↦
            (error_response x.codec 400 (text "invalid_activity_event") error false, state)
        | ok event ↦
            let (status, buckets) =
              put_activity x.crypto x.codec r.activity_faults bucket_id auth_token event r.now
                state.activity_store in
            (put_activity_response bucket_id status, record state { activity_store = buckets })
      ]
    ]
  ]

  unfoldable pub list_activity_response : Text → Result ActivityListStatus → HttpResponse
  unfolding unauthorized_response
  list_activity_response bucket_id (ok (ActivityListStatus.found page)) =
      json_response x.codec 200 (
        json_object (
          (text "bucket_id", string bucket_id)
          ∷ (text "count", nat_value (length page.events))
          ∷ (
            text "events",
            json_array (
                map (λ (entry : StoredActivityEvent). x.codec.activity_event_value entry.event)
                  page.events),
          )
          ∷ (text "next_cursor", optional_text_value page.next_cursor)
          ∷ (text "has_more", bool page.has_more)
          ∷ []))
  list_activity_response bucket_id (ok ActivityListStatus.not_found) = json_response x.codec 200 (
      json_object (
        (text "bucket_id", string bucket_id)
        ∷ (text "count", nat_value 0)
        ∷ (text "events", json_array [])
        ∷ (text "next_cursor", null)
        ∷ (text "has_more", bool false)
        ∷ []))
  list_activity_response bucket_id (ok ActivityListStatus.unauthorized) = unauthorized_response
  list_activity_response bucket_id (err error) =
      storage_unavailable x (text "Could not read activity events: ") error

  -- the cursor of a query, decoded
  unfoldable pub activity_cursor : Option Text → Result (Option ActivityCursor)
  activity_cursor none = ok none
  activity_cursor (some value) = do cursor ← x.activity_cursors.decode value; ok (some cursor)

  -- `get_activity_events` with a valid bucket id
  unfoldable pub list_events :
      Readings → HttpRequest → List (Text × Text) → Text → ServerState → Reply
  unfolding list_activity_response activity_cursor
  list_events r request params bucket_id state = elim (activity_auth_token request) [
    | err error ↦ (error_response x.codec 401 (text "invalid_activity_auth") error false, state)
    | ok auth_token ↦ elim (activity_cursor (get (text "cursor") params)) [
      | err error ↦ (
        error_response x.codec 400 (text "invalid_cursor")
            (text "Invalid activity cursor: " ++ error) false,
        state,
      )
      | ok cursor ↦
          let limit = limit_param 100 500 (get (text "limit") params) in
          let (status, buckets) =
            list_activity x.crypto x.activity_cursors r.activity_faults bucket_id auth_token limit
              cursor r.now state.activity_store in
          (list_activity_response bucket_id status, record state { activity_store = buckets })
    ]
  ]

  unfoldable pub get_activity_events : Readings → HttpRequest → ServerState → Reply
  unfolding list_events
  get_activity_events r request state =
      let params = parse_query (unwrap_or [] (query request)) in
      elim (get (text "bucket") params) [
        | none ↦ (
          error_response x.codec 400 (text "invalid_activity_bucket")
              (text "activity bucket query parameter is required") false,
          state,
        )
        | some bucket_id ↦ elim (validate_activity_bucket_id bucket_id) [
          | err error ↦
              (error_response x.codec 400 (text "invalid_activity_bucket") error false, state)
          | ok _ ↦ list_events r request params bucket_id state
        ]
      ]
