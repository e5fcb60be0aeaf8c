-- ===== src/Server/Moderation.antt =====
-- The administrator's handlers: `admin_publish_moderation` and `parse_admin_moderation_request`.
use ai_channel.Prelude.{ℕ, ◌-◌, ◌/◌, Bool, true, false, not, Option, none, some, List, [], ◌∷◌, leb}
use ai_channel.Prelude.Text.{Text, text, trim, is_empty, byte_len}
use ai_channel.Prelude.Result.{Result, ok, err, ◌>>=◌, ◌>>◌, ensure, map_err}
use ai_channel.Json.{bool, string, json_object}
use ai_channel.Time.{unix_epoch, second}
use ai_channel.Http.{HttpRequest, HttpResponse, json_response, error_response}
use ai_channel.Auth.Admin.{AdminPrincipal, authenticate}
use ai_channel.Publish.Record.{PublishModerationStatus}
use ai_channel.Publish.Store.{Records, admin_hide, admin_restore}
use ai_channel.Server.State.{ServerState, Readings, AdminModerationRequest, External, Reply}
use ai_channel.Server.Publishing.{storage_unavailable}

pub data AdminPublishAction : Type 0 where
  hide restore : AdminPublishAction

abbrev note_fits : Option Text → Bool
note_fits none = true
note_fits (some note) = leb (byte_len (trim note)) 500

-- what `parse_admin_moderation_request` does with the parsed body
unfoldable pub check_moderation : AdminModerationRequest → Result AdminModerationRequest
check_moderation request = do
  let reason = trim request.reason
  ensure (not (is_empty reason)) (text "reason is required")
  ensure (leb (byte_len reason) 120) (text "reason is too long")
  ensure (note_fits request.note) (text "note is too long")
  ok (record { reason = reason; note = request.note })

abbrev success_key : AdminPublishAction → Text
success_key hide = text "hidden"
success_key restore = text "restored"

abbrev deleted_message : AdminPublishAction → Text
deleted_message hide =
    text "Publish record was deleted by its author and cannot be hidden by admin."
deleted_message restore =
    text "Publish record was deleted by its author and cannot be restored by admin."

-- the store's operation for an action
unfoldable pub apply_action :
    AdminPublishAction
    → Readings
    → Text
    → Text
    → AdminPrincipal
    → Records
    → Result PublishModerationStatus × Records
apply_action hide r publish_id reason admin =
    admin_hide r.publish_faults publish_id reason admin r.now
apply_action restore r publish_id reason admin =
    admin_restore r.publish_faults publish_id reason admin r.now

module _ (x : External) where
  unfoldable pub parse_admin_moderation_request : List ℕ → Result AdminModerationRequest
  unfolding check_moderation
  parse_admin_moderation_request body = do
    request ← map_err (λ _. text "invalid JSON admin moderation request") (x.parse_moderation body)
    check_moderation request

  unfoldable pub moderation_response :
      AdminPublishAction → Text → Result PublishModerationStatus → HttpResponse
  moderation_response action publish_id (ok (PublishModerationStatus.updated object)) =
      json_response x.codec 200
        (json_object ((success_key action, bool true) ∷ (text "id", string publish_id) ∷ []))
  moderation_response action publish_id (ok PublishModerationStatus.not_found) =
      error_response x.codec 404 (text "not_found") (text "Publish record not found.") false
  moderation_response action publish_id (ok PublishModerationStatus.author_deleted) =
      error_response x.codec 409 (text "author_deleted") (deleted_message action) false
  moderation_response action publish_id (err error) =
      storage_unavailable x (text "Could not write publish store: ") error

  unfoldable pub admin_publish_moderation :
      Readings → HttpRequest → Text → AdminPublishAction → ServerState → Reply
  unfolding moderation_response
  admin_publish_moderation r request publish_id action state =
      elim (authenticate x.crypto state.admin_auth r.tokeninfo ((r.now_auth - unix_epoch) / second)
        request) [
          | err error ↦ (error_response x.codec 401 (text "invalid_admin_auth") error false, state)
          | ok admin ↦ elim (parse_admin_moderation_request request.body) [
            | err error ↦
                (error_response x.codec 400 (text "invalid_admin_request") error false, state)
            | ok moderation ↦
                let (status, records) =
                  apply_action action r publish_id moderation.reason admin state.publish_store in
                (
                  moderation_response action publish_id status,
                  record state { publish_store = records },
                )
          ]
        ]
