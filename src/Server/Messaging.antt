-- ===== src/Server/Messaging.antt =====
-- The handlers that check a request signature, and those of messages: `get_inbox`,
-- `delete_publish_record`, `validate_request_auth_controls` and `post_message`.
use ai_channel.Prelude.{true, false, Option, none, some, [], ◌∷◌, ◌++◌, map, length}
use ai_channel.Prelude.Text.{Text, text}
use ai_channel.Prelude.Result.{Result, ok, err}
use ai_channel.Json.{null, bool, string, json_object, json_array}
use ai_channel.Http.{
  HttpRequest, HttpResponse, query, get, unwrap_or, json_response, error_response,
}
use ai_channel.Query.{parse_query, limit_param}
use ai_channel.Protocol.Types.{AichanRequestSignature}
use ai_channel.Protocol.Request.{verify_request}
use ai_channel.Auth.Headers.{request_signature_from_headers, request_to_sign}
use ai_channel.Auth.Nonces.{accepted, stale, replayed, auth_controls}
use ai_channel.Publish.Record.{PublishDeleteStatus}
use ai_channel.Publish.Store.{mark_author_deleted}
use ai_channel.Message.{
  MessageObject, returned, panicked, insert_message, inbox, validate_message_envelope,
}
use ai_channel.Server.State.{ServerState, Readings, External, Reply}
use ai_channel.Server.Publishing.{nat_value, storage_unavailable}

module _ (x : External) where
  -- The common start of `get_inbox` and `delete_publish_record`: the signature is read and checked,
  -- then the replay controls run. `failure` is the text in front of the verification error.
  unfoldable pub with_signature :
      Text
      → Readings
      → HttpRequest
      → ServerState
      → (AichanRequestSignature → ServerState → Reply)
      → Reply
  with_signature failure r request state body =
      elim (request_signature_from_headers x.codec request) [
        | err error ↦
            (error_response x.codec 401 (text "invalid_request_signature") error false, state)
        | ok signature ↦
            elim (verify_request x.crypto x.codec signature (request_to_sign request signature)) [
              | err error ↦ (
                error_response x.codec 401 (text "invalid_request_signature") (failure ++ error)
                    false,
                state,
              )
              | ok _ ↦
                  let (verdict, seen) =
                    auth_controls signature.peer_id signature.nonce signature.timestamp r.now_auth
                      state.seen_nonces in
                  elim verdict [
                    | accepted ↦ body signature (record state { seen_nonces = seen })
                    | stale ↦ (
                      error_response x.codec 401 (text "stale_request_signature")
                          (text
                            "Request signature timestamp is outside the accepted replay window.")
                          false,
                      record state { seen_nonces = seen },
                    )
                    | replayed ↦ (
                      error_response x.codec 401 (text "replayed_request_nonce")
                          (text
                            "Request signature nonce has already been used in this replay window.")
                          false,
                      record state { seen_nonces = seen },
                    )
                  ]
            ]
      ]

  -- `get_inbox` after the signature
  unfoldable pub inbox_response :
      Readings → HttpRequest → AichanRequestSignature → ServerState → HttpResponse
  inbox_response r request signature state =
      let params = parse_query (unwrap_or [] (query request)) in
      let limit = limit_param 50 100 (get (text "limit") params) in
      elim (inbox r.message_faults signature.peer_id limit r.now state.message_store) [
        | err error ↦ storage_unavailable x (text "Could not read inbox: ") error
        | ok records ↦ json_response x.codec 200 (
            json_object (
              (text "count", nat_value (length records))
              ∷ (text "records", json_array (map x.codec.signed_message_value records))
              ∷ (text "next_cursor", null)
              ∷ (text "has_more", bool false)
              ∷ []))
      ]

  unfoldable pub get_inbox : Readings → HttpRequest → ServerState → Reply
  unfolding with_signature inbox_response
  get_inbox r request state =
      with_signature (text "Inbox request signature verification failed: ") r request state
        λ signature s. (inbox_response r request signature s, s)

  unfoldable pub delete_response : Text → Result PublishDeleteStatus → HttpResponse
  delete_response publish_id (ok PublishDeleteStatus.deleted) =
      json_response x.codec 200
        (json_object ((text "deleted", bool true) ∷ (text "id", string publish_id) ∷ []))
  delete_response publish_id (ok PublishDeleteStatus.not_found) =
      error_response x.codec 404 (text "not_found") (text "Publish record not found.") false
  delete_response publish_id (ok PublishDeleteStatus.wrong_peer) =
      error_response x.codec 403 (text "invalid_peer_id")
        (text "Delete request signer does not own publish record.") false
  delete_response publish_id (err error) =
      storage_unavailable x (text "Could not write publish store: ") error

  -- `delete_publish_record` after the signature
  unfoldable pub delete_signed : Readings → Text → AichanRequestSignature → ServerState → Reply
  unfolding delete_response
  delete_signed r publish_id signature state =
      let (status, records) =
        mark_author_deleted r.publish_faults publish_id signature.peer_id r.now
          state.publish_store in
      (delete_response publish_id status, record state { publish_store = records })

  unfoldable pub delete_publish_record : Readings → HttpRequest → Text → ServerState → Reply
  unfolding with_signature delete_signed
  delete_publish_record r request publish_id state =
      with_signature (text "Delete request signature verification failed: ") r request state
        (delete_signed r publish_id)

  unfoldable pub insert_response : MessageObject → Result (Unit {0}) → HttpResponse
  insert_response object (ok _) = json_response x.codec 201 (
      json_object (
        (text "stored", bool true)
        ∷ (text "id", string object.id)
        ∷ (text "sender", string object.payload.sender)
        ∷ (text "recipient", string object.payload.recipient)
        ∷ []))
  insert_response object (err error) =
      storage_unavailable x (text "Could not write message store: ") error

  -- `post_message`; `none` is the panic of the handler's thread, which answers nothing
  unfoldable pub post_message :
      Readings → HttpRequest → ServerState → Option HttpResponse × ServerState
  unfolding insert_response
  post_message r request state = elim (x.codec.parse_message_envelope request.body) [
    | err error ↦ (
      some (
          error_response x.codec 400 (text "invalid_encoding")
            (text "Invalid JSON message envelope: " ++ error) false),
      state,
    )
    | ok object ↦ elim (validate_message_envelope x.crypto x.codec object) [
      | panicked ↦ (none, state)
      | returned (err error) ↦ (
        some (
            error_response x.codec 400 (text "invalid_message_envelope")
              (text "Message envelope verification failed: " ++ error) false),
        state,
      )
      | returned (ok sender) ↦
          let (result, records) =
            insert_message r.message_faults object r.now state.message_store in
          (some (insert_response object result), record state { message_store = records })
    ]
  ]
