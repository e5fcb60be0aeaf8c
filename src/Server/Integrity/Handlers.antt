-- ===== src/Server/Integrity/Handlers.antt =====
-- Every request keeps the stores of messages and of publish records verified.
use ai_channel.Prelude.{
  ◌-◌, ◌/◌, ◌≡◌, Bool, refl, arith, some, none, true, false, Bool-cases, Option, inl, inr, ◌⊎◌,
  length, ltb,
}
use ai_channel.Prelude.Text.{Text, text}
use ai_channel.Prelude.Result.{ok, err, Result-cases}
use ai_channel.Protocol.Types.{PeerId, AichanRequestSignature}
use ai_channel.Protocol.Request.{verify_request}
use ai_channel.Protocol.Verify.{verify_publish_record}
use ai_channel.Time.{unix_epoch, second}
use ai_channel.Http.{HttpRequest, path}
use ai_channel.Limits.Rate.{RateLimitExceeded, check_rate_limit}
use ai_channel.Auth.Admin.{AdminPrincipal, authenticate}
use ai_channel.Auth.Headers.{request_signature_from_headers, request_to_sign}
use ai_channel.Auth.Nonces.{Verdict, accepted, stale, replayed, auth_controls, SeenNonces}
use ai_channel.Publish.Record.{PublishObject}
use ai_channel.Publish.Store.{admin_hide, admin_restore, set_hidden, set_restored}
use ai_channel.Message.{MessageObject, Outcome, returned, panicked, validate_message_envelope}
use ai_channel.Server.State.{ServerState, Readings, External, Reply}
use ai_channel.Server.Publishing.{
  publish_record, search_publish_records, discover_publish_records, stats_response,
}
use ai_channel.Server.Moderation.{
  AdminPublishAction, hide, restore, admin_publish_moderation, apply_action,
  parse_admin_moderation_request,
}
use ai_channel.Server.Messaging.{
  with_signature, get_inbox, delete_signed, delete_publish_record, post_message,
}
use ai_channel.Server.Backups.{
  put_hosted_backup, get_hosted_backup, list_hosted_backup_generations, backup_access,
}
use ai_channel.Server.Activities.{post_activity_event, get_activity_events, list_events}
use ai_channel.Server.Dispatch.{
  Route, health, discovery, agent, agent_json, install, favicon, directory, stats, publish, search,
  discover, moderate, delete, message, inbox, post_activity, list_activity, put_backup,
  list_generations, get_backup, head_backup, unknown, route, run_route, limited_or_routed,
  handle_request,
}
use ai_channel.Server.Integrity.{
  HasObjects, upsert-HasObjects, mark_author_deleted-HasObjects, moderate-HasObjects, HasMessages,
  insert_message-HasMessages,
}

-- The signature of a publish record verifies for some peer, and its payload names that peer.
abbrev pub IsSigned : External → PublishObject → Type 0
IsSigned x object = (peer : PeerId) × verify_publish_record x.crypto x.codec object ≡ ok peer

abbrev pub IsValid : External → MessageObject → Type 0
IsValid x object =
    (sender : PeerId) × validate_message_envelope x.crypto x.codec object ≡ returned (ok sender)

-- What is stored has passed its checks.
pub record IsVerified (x : External) (state : ServerState) : Type 0 where
  pub records : HasObjects (IsSigned x) state.publish_store
  pub messages : HasMessages (IsValid x) state.message_store

-- The two stores are as before.
abbrev Unchanged : ServerState → ServerState → Type 0
Unchanged s t = (t.publish_store ≡ s.publish_store) × (t.message_store ≡ s.message_store)

IsVerified-Unchanged :
    (x : External) (s t : ServerState) → Unchanged s t → IsVerified x s → IsVerified x t
IsVerified-Unchanged x s t same w = record {
  records = rw same.0 w.records;
  messages = rw same.1 w.messages;
}

Verdict-cases : (v : Verdict) → (v ≡ accepted) ⊎ ((v ≡ stale) ⊎ (v ≡ replayed))
Verdict-cases accepted = inl refl
Verdict-cases stale = inr (inl refl)
Verdict-cases replayed = inr (inr refl)

Outcome-cases :
    {A : Type 0} (o : Outcome A)
    → ((a : A) × o ≡ returned (ok a)) ⊎ (((e : Text) × o ≡ returned (err e)) ⊎ (o ≡ panicked))
Outcome-cases (returned (ok a)) = inl (a, refl)
Outcome-cases (returned (err e)) = inr (inl (e, refl))
Outcome-cases panicked = inr (inr refl)

module _ (x : External) (r : Readings) (request : HttpRequest) (state : ServerState) where
  put_hosted_backup-Unchanged :
      (id : Text) → Unchanged state (put_hosted_backup x r request id state).1
  unfolding put_hosted_backup backup_access
  put_hosted_backup-Unchanged id = (ground arith, ground arith)

  get_hosted_backup-Unchanged :
      (id : Text) (head_only : Bool)
      → Unchanged state (get_hosted_backup x r request id head_only state).1
  unfolding get_hosted_backup backup_access
  get_hosted_backup-Unchanged id head_only = (ground arith, ground arith)

  list_hosted_backup_generations-Unchanged :
      (id : Text) → Unchanged state (list_hosted_backup_generations x r request id state).1
  unfolding list_hosted_backup_generations backup_access
  list_hosted_backup_generations-Unchanged id = (ground arith, ground arith)

  post_activity_event-Unchanged : Unchanged state (post_activity_event x r request state).1
  unfolding post_activity_event
  post_activity_event-Unchanged = (ground arith, ground arith)

  get_activity_events-Unchanged : Unchanged state (get_activity_events x r request state).1
  unfolding get_activity_events list_events
  get_activity_events-Unchanged = (ground arith, ground arith)

  get_inbox-Unchanged : Unchanged state (get_inbox x r request state).1
  unfolding get_inbox with_signature
  get_inbox-Unchanged = (ground arith, ground arith)

  search_publish_records-Unchanged : Unchanged state (search_publish_records x r request state).1
  unfolding search_publish_records
  search_publish_records-Unchanged = (ground arith, ground arith)

  discover_publish_records-Unchanged :
      Unchanged state (discover_publish_records x r request state).1
  unfolding discover_publish_records
  discover_publish_records-Unchanged = (ground arith, ground arith)

  stats_response-Unchanged : Unchanged state (stats_response x r state).1
  unfolding stats_response
  stats_response-Unchanged = (ground arith, ground arith)

  delete_signed-IsVerified :
      (id : Text) (signature : AichanRequestSignature) (s : ServerState)
      → IsVerified x s
      → IsVerified x (delete_signed x r id signature s).1
  unfolding delete_signed
  delete_signed-IsVerified id signature s v = record {
    records =
        mark_author_deleted-HasObjects (IsSigned x) r.publish_faults id signature.peer_id r.now
          s.publish_store v.records;
    messages = v.messages;
  }

  module _ (w : IsVerified x state) where
    publish_record-IsVerified : IsVerified x (publish_record x r request state).1
    unfolding publish_record
    publish_record-IsVerified = elim (Result-cases (x.codec.parse_publish_record request.body)) [
      | inr (e, p) ↦ rw (publish_record, p) w
      | inl (object, p) ↦
          rw (publish_record, p)
            (elim (Result-cases (verify_publish_record x.crypto x.codec object)) [
              | inr (e, q) ↦ rw q w
              | inl (peer, q) ↦ rw q (record {
                records =
                    upsert-HasObjects (IsSigned x) r.publish_faults object peer state.publish_store
                      (peer, q) w.records;
                messages = w.messages;
              })
            ])
    ]

    post_message-IsVerified : IsVerified x (post_message x r request state).1
    unfolding post_message
    post_message-IsVerified = elim (Result-cases (x.codec.parse_message_envelope request.body)) [
      | inr (e, p) ↦ rw (post_message, p) w
      | inl (object, p) ↦
          rw (post_message, p)
            (elim (Outcome-cases (validate_message_envelope x.crypto x.codec object)) [
              | inr (inl (e, q)) ↦ rw q w
              | inr (inr q) ↦ rw q w
              | inl (sender, q) ↦ rw q (record {
                records = w.records;
                messages =
                    insert_message-HasMessages (IsValid x) r.message_faults object r.now
                      state.message_store (sender, q) w.messages;
              })
            ])
    ]

    apply_action-HasObjects :
        (action : AdminPublishAction) (id reason : Text) (admin : AdminPrincipal)
        → HasObjects (IsSigned x) (apply_action action r id reason admin state.publish_store).1
    unfolding apply_action admin_hide admin_restore set_hidden set_restored
    apply_action-HasObjects hide id reason admin =
        moderate-HasObjects (IsSigned x) (set_hidden reason admin r.now) (λ e q. q) r.publish_faults
          id state.publish_store w.records
    apply_action-HasObjects restore id reason admin =
        moderate-HasObjects (IsSigned x) (set_restored reason admin r.now) (λ e q. q)
          r.publish_faults id state.publish_store w.records

    admin_publish_moderation-IsVerified :
        (id : Text) (action : AdminPublishAction)
        → IsVerified x (admin_publish_moderation x r request id action state).1
    unfolding admin_publish_moderation
    admin_publish_moderation-IsVerified id action =
        elim (Result-cases (
          authenticate x.crypto state.admin_auth r.tokeninfo ((r.now_auth - unix_epoch) / second)
            request)) [
              | inr (e, p) ↦ rw (admin_publish_moderation, p) w
              | inl (admin, p) ↦
                  rw (admin_publish_moderation, p)
                    (elim (Result-cases (parse_admin_moderation_request x request.body)) [
                      | inr (e, q) ↦ rw q w
                      | inl (moderation, q) ↦ rw q (record {
                        records = apply_action-HasObjects action id moderation.reason admin;
                        messages = w.messages;
                      })
                    ])
            ]

    -- a handler that runs after the signature check keeps the state verified if its body does
    with_signature-IsVerified :
        (failure : Text) (body : AichanRequestSignature → ServerState → Reply)
        → ((signature : AichanRequestSignature) (s : ServerState)
            → IsVerified x s
            → IsVerified x (body signature s).1)
        → IsVerified x (with_signature x failure r request state body).1
    unfolding with_signature
    with_signature-IsVerified failure body keeps =
        elim (Result-cases (request_signature_from_headers x.codec request)) [
          | inr (e, p) ↦ rw (with_signature, p) w
          | inl (signature, p) ↦
              rw (with_signature, p)
                (elim (Result-cases
                  (verify_request x.crypto x.codec signature (request_to_sign request signature))) [
                    | inr (e, q) ↦ rw q w
                    | inl (u, q) ↦
                        elim (Verdict-cases
                          (auth_controls signature.peer_id signature.nonce signature.timestamp
                            r.now_auth state.seen_nonces).0) [
                              | inl v ↦ rw (q, v) (keeps signature _ kept)
                              | inr (inl v) ↦ rw (q, v) kept
                              | inr (inr v) ↦ rw (q, v) kept
                            ]
                  ])
        ]
      where
        kept : {seen : SeenNonces} → IsVerified x (record state { seen_nonces = seen })
        kept = record { records = w.records; messages = w.messages }

    delete_publish_record-IsVerified :
        (id : Text) → IsVerified x (delete_publish_record x r request id state).1
    unfolding delete_publish_record
    delete_publish_record-IsVerified id =
        with_signature-IsVerified (text "Delete request signature verification failed: ")
          (delete_signed x r id) (delete_signed-IsVerified id)

    run_route-IsVerified : (route : Route) → IsVerified x (run_route x route r request state).1
    unfolding run_route
    run_route-IsVerified health = w
    run_route-IsVerified discovery = w
    run_route-IsVerified agent = w
    run_route-IsVerified agent_json = w
    run_route-IsVerified install = w
    run_route-IsVerified favicon = w
    run_route-IsVerified directory = w
    run_route-IsVerified stats = IsVerified-Unchanged x state _ stats_response-Unchanged w
    run_route-IsVerified publish = publish_record-IsVerified
    run_route-IsVerified search = IsVerified-Unchanged x state _ search_publish_records-Unchanged w
    run_route-IsVerified discover =
        IsVerified-Unchanged x state _ discover_publish_records-Unchanged w
    run_route-IsVerified (moderate id action) = admin_publish_moderation-IsVerified id action
    run_route-IsVerified (delete id) = delete_publish_record-IsVerified id
    run_route-IsVerified message = post_message-IsVerified
    run_route-IsVerified inbox = IsVerified-Unchanged x state _ get_inbox-Unchanged w
    run_route-IsVerified post_activity =
        IsVerified-Unchanged x state _ post_activity_event-Unchanged w
    run_route-IsVerified list_activity =
        IsVerified-Unchanged x state _ get_activity_events-Unchanged w
    run_route-IsVerified (put_backup id) =
        IsVerified-Unchanged x state _ (put_hosted_backup-Unchanged id) w
    run_route-IsVerified (list_generations id) =
        IsVerified-Unchanged x state _ (list_hosted_backup_generations-Unchanged id) w
    run_route-IsVerified (get_backup id) =
        IsVerified-Unchanged x state _ (get_hosted_backup-Unchanged id false) w
    run_route-IsVerified (head_backup id) =
        IsVerified-Unchanged x state _ (get_hosted_backup-Unchanged id true) w
    run_route-IsVerified unknown = w

limited_or_routed-IsVerified :
    (x : External) (limited : Option RateLimitExceeded) (r : Readings) (request : HttpRequest)
    (state : ServerState)
    → IsVerified x state
    → IsVerified x (limited_or_routed x limited r request state).1
unfolding limited_or_routed
limited_or_routed-IsVerified x (some limited) r request state w = w
limited_or_routed-IsVerified x none r request state w =
    run_route-IsVerified x r request state w (route request.method (path request))

-- If every stored publish record has a verified signature and every stored message has passed the
-- envelope checks, the same holds after any request, whatever its route, its answer or the panic of
-- its handler, and whichever reads and writes of the files fail.
pub handle_request-IsVerified :
    (x : External) (r : Readings) (request : HttpRequest) (state : ServerState)
    → IsVerified x state
    → IsVerified x (handle_request x r request state).1
unfolding handle_request
handle_request-IsVerified x r request state w =
    let limited = check_rate_limit state.rate_limits r.instant request state.buckets in
    elim (Bool-cases (ltb state.rate_limits.max_body_bytes (length request.body))) [
      | inl e ↦ rw (handle_request, e) w
      | inr e ↦
          rw (handle_request, e)
            (limited_or_routed-IsVerified x limited.0 r request
              (record state { buckets = limited.1 })
              (record { records = w.records; messages = w.messages }))
    ]
