-- ===== src/Server/Dispatch.antt =====
-- `handle_request` of crates/aichan-server/src/lib.rs: the size limit, the rate limit and the routes.
use ai_channel.Prelude.{Bool, true, false, ◌&&◌, Option, none, some, [], length, ltb, if◌then◌else◌}
use ai_channel.Prelude.Text.{Text, text, text_eq, starts_with}
use ai_channel.Json.{bool, string, json_object}
use ai_channel.Prelude.{◌∷◌}
use ai_channel.Http.{
  HttpRequest, HttpResponse, path, plain_response, json_response, error_response,
  rate_limited_response, admin_publish_path, backup_lookup_path, backup_generations_path,
  trim_start_matches,
}
use ai_channel.Limits.Rate.{RateLimitExceeded, check_rate_limit}
use ai_channel.Server.State.{ServerState, Readings, External, Reply}
use ai_channel.Server.Publishing.{
  publish_record, search_publish_records, discover_publish_records, stats_response,
}
use ai_channel.Server.Moderation.{AdminPublishAction, hide, restore, admin_publish_moderation}
use ai_channel.Server.Messaging.{get_inbox, delete_publish_record, post_message}
use ai_channel.Server.Backups.{put_hosted_backup, get_hosted_backup, list_hosted_backup_generations}
use ai_channel.Server.Activities.{post_activity_event, get_activity_events}

-- What the pair of method and path selects, in the order of the arms.
pub data Route : Type 0 where
  health discovery agent agent_json install favicon directory stats : Route
  publish search discover : Route
  moderate : Text → AdminPublishAction → Route
  delete : Text → Route
  message inbox post_activity list_activity : Route
  put_backup list_generations get_backup head_backup : Text → Route
  unknown : Route

abbrev is_at : Text → Text → Text → Text → Bool
is_at method at m p = text_eq method m && text_eq at p

-- an arm with a guard on the rest of the path
abbrev or_next : Option Text → (Text → Route) → Route → Route
or_next none found next = next
or_next (some id) found next = found id

abbrev when : Bool → Option Text → Option Text
when true o = o
when false o = none

unfoldable pub delete_path : Text → Option Text
delete_path at =
    if starts_with (text "/v1/publish/") at
    then some (trim_start_matches (text "/v1/publish/") at)
    else none

-- the arms from `PUT` of a backup on
unfoldable pub backup_route : Text → Text → Route
backup_route method at =
    or_next (when (text_eq method (text "PUT")) (backup_lookup_path at)) put_backup (
      or_next (when (text_eq method (text "GET")) (backup_generations_path at)) list_generations (
        or_next (when (text_eq method (text "GET")) (backup_lookup_path at)) get_backup (
          or_next (when (text_eq method (text "HEAD")) (backup_lookup_path at)) head_backup
            unknown)))

-- the arms from `POST /v1/messages` on
unfoldable pub relay_route : Text → Text → Route
unfolding backup_route
relay_route method at =
    if is_at method at (text "POST") (text "/v1/messages")
    then message
    else if is_at method at (text "GET") (text "/v1/inbox")
    then inbox
    else if is_at method at (text "POST") (text "/v1/activity")
    then post_activity
    else if is_at method at (text "GET") (text "/v1/activity")
    then list_activity
    else backup_route method at

-- the arms of the administrator and of `DELETE`
unfoldable pub owner_route : Text → Text → Route
unfolding delete_path relay_route
owner_route method at =
    or_next (when (text_eq method (text "POST")) (admin_publish_path at (text "/hide")))
      (λ id. moderate id hide)
      (or_next (when (text_eq method (text "POST")) (admin_publish_path at (text "/restore")))
        (λ id. moderate id restore)
        (or_next (when (text_eq method (text "DELETE")) (delete_path at)) delete
          (relay_route method at)))

unfoldable pub route : Text → Text → Route
unfolding owner_route
route method at =
    if is_at method at (text "GET") (text "/health")
    then health
    else if is_at method at (text "GET") (text "/.well-known/aichan")
    then discovery
    else if is_at method at (text "GET") (text "/agent")
    then agent
    else if is_at method at (text "GET") (text "/agent.json")
    then agent_json
    else if is_at method at (text "GET") (text "/install.sh")
    then install
    else if is_at method at (text "GET") (text "/favicon.ico")
    then favicon
    else if is_at method at (text "GET") (text "/")
    then directory
    else if is_at method at (text "GET") (text "/v1/stats")
    then stats
    else if is_at method at (text "POST") (text "/v1/publish")
    then publish
    else if is_at method at (text "GET") (text "/v1/publish/search")
    then search
    else if is_at method at (text "GET") (text "/v1/discover")
    then discover
    else owner_route method at

-- The answer, where `none` is a handler that panicked, and the state after the request.
abbrev pub Answer : Type 0
Answer = Option HttpResponse × ServerState

abbrev answered : Reply → Answer
answered (response, state) = (some response, state)

module _ (x : External) where
  -- the bodies of the arms
  unfoldable pub run_route : Route → Readings → HttpRequest → ServerState → Answer
  run_route health r request state = (
    some (
        json_response x.codec 200 (
          json_object
            ((text "ok", bool true) ∷ (text "service", string (text "aichan-server")) ∷ []))),
    state,
  )
  run_route discovery r request state = (some x.discovery_response, state)
  run_route agent r request state = (some x.agent_response, state)
  run_route agent_json r request state = (some x.agent_json_response, state)
  run_route install r request state = (some x.install_script_response, state)
  run_route favicon r request state = (some (plain_response 204 (text "image/x-icon") []), state)
  run_route directory r request state = (some x.directory_response, state)
  run_route stats r request state = answered (stats_response x r state)
  run_route publish r request state = answered (publish_record x r request state)
  run_route search r request state = answered (search_publish_records x r request state)
  run_route discover r request state = answered (discover_publish_records x r request state)
  run_route (moderate id action) r request state =
      answered (admin_publish_moderation x r request id action state)
  run_route (delete id) r request state = answered (delete_publish_record x r request id state)
  run_route message r request state = post_message x r request state
  run_route inbox r request state = answered (get_inbox x r request state)
  run_route post_activity r request state = answered (post_activity_event x r request state)
  run_route list_activity r request state = answered (get_activity_events x r request state)
  run_route (put_backup id) r request state = answered (put_hosted_backup x r request id state)
  run_route (list_generations id) r request state =
      answered (list_hosted_backup_generations x r request id state)
  run_route (get_backup id) r request state =
      answered (get_hosted_backup x r request id false state)
  run_route (head_backup id) r request state =
      answered (get_hosted_backup x r request id true state)
  run_route unknown r request state =
      (some (error_response x.codec 404 (text "not_found") (text "Route not found.") false), state)

  -- what follows the rate limiter
  unfoldable pub limited_or_routed :
      Option RateLimitExceeded → Readings → HttpRequest → ServerState → Answer
  unfolding run_route
  limited_or_routed (some limited) r request state =
      (some (rate_limited_response x.codec limited.retry_after_seconds), state)
  limited_or_routed none r request state =
      run_route (route request.method (path request)) r request state

  unfoldable pub handle_request : Readings → HttpRequest → ServerState → Answer
  unfolding limited_or_routed
  handle_request r request state =
      if ltb state.rate_limits.max_body_bytes (length request.body)
      then (
        some (
            error_response x.codec 413 (text "payload_too_large")
              (text "Request body exceeds the configured maximum size.") false),
        state,
      )
      else let (limited, buckets) =
          check_rate_limit state.rate_limits r.instant request state.buckets in
        limited_or_routed limited r request (record state { buckets = buckets })
