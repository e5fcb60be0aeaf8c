-- ===== src/Server/Backups.antt =====
-- The handlers of hosted backups: `put_hosted_backup`, `get_hosted_backup` and
-- `list_hosted_backup_generations`.
use ai_channel.Prelude.{Bool, true, false, [], ◌∷◌, map, length, leb}
use ai_channel.Prelude.Text.{Text, text, trim, byte_len, decimal}
use ai_channel.Prelude.Result.{Result, ok, err, ◌>>=◌, ◌>>◌, ensure}
use ai_channel.Json.{Value, bool, string, json_object, json_array}
use ai_channel.Http.{
  HttpRequest, HttpResponse, insert, required_header, plain_response, json_response, error_response,
}
use ai_channel.Backup.{
  max_backup_generations, StoredHostedBackupGeneration, BackupPutStatus, BackupReadStatus,
  BackupListStatus, put_backup, latest_backup, list_backups,
}
use ai_channel.Backup.Package.{validate_backup_lookup_id, parse_hosted_backup_package}
use ai_channel.Server.State.{ServerState, Readings, External, Reply}
use ai_channel.Server.Publishing.{nat_value, storage_unavailable}

unfoldable pub backup_auth_token : HttpRequest → Result Text
backup_auth_token request = do
  value ← required_header request (text "Aichan-Backup-Auth")
  ensure (leb 12 (byte_len (trim value))) (text "backup auth token is missing or too short")
  ok (trim value)

unfoldable pub hosted_backup_head_response : StoredHostedBackupGeneration → HttpResponse
hosted_backup_head_response generation =
    let plain = plain_response 200 (text "application/json; charset=utf-8") [] in
    record plain {
      headers = insert (text "Aichan-Backup-Size-Bytes") (decimal generation.size_bytes) (
          insert (text "Aichan-Backup-Content-Sha256") generation.content_sha256
            (insert (text "Aichan-Backup-Generation") generation.generation_id plain.headers));
    }

module _ (x : External) where
  unfoldable pub hosted_backup_generation_metadata : StoredHostedBackupGeneration → Value
  hosted_backup_generation_metadata generation = json_object (
      (text "generation_id", string generation.generation_id)
      ∷ (text "created_at", x.codec.timestamp_value generation.created_at)
      ∷ (text "size_bytes", nat_value generation.size_bytes)
      ∷ (text "content_sha256", string generation.content_sha256)
      ∷ [])

  unauthorized_response : HttpResponse
  unauthorized_response =
      error_response x.codec 401 (text "invalid_backup_auth")
        (text "Backup auth token does not match this lookup id.") false

  not_found_response : HttpResponse
  not_found_response =
      error_response x.codec 404 (text "not_found") (text "Hosted backup not found.") false

  -- The id and the token of a request, which every handler checks first, or the refusal.
  unfoldable pub backup_access : HttpRequest → Text → (Text → Reply) → ServerState → Reply
  backup_access request lookup_id body state = elim (validate_backup_lookup_id lookup_id) [
    | err error ↦ (error_response x.codec 400 (text "invalid_backup_lookup_id") error false, state)
    | ok _ ↦ elim (backup_auth_token request) [
      | err error ↦ (error_response x.codec 401 (text "invalid_backup_auth") error false, state)
      | ok auth_token ↦ body auth_token
    ]
  ]

  unfoldable pub put_backup_response : Text → Result BackupPutStatus → HttpResponse
  unfolding unauthorized_response
  put_backup_response lookup_id (ok (BackupPutStatus.stored generation)) =
      json_response x.codec 201 (
        json_object (
          (text "stored", bool true)
          ∷ (text "lookup_id", string lookup_id)
          ∷ (text "generation_id", string generation.generation_id)
          ∷ (text "created_at", x.codec.timestamp_value generation.created_at)
          ∷ (text "size_bytes", nat_value generation.size_bytes)
          ∷ (text "content_sha256", string generation.content_sha256)
          ∷ []))
  put_backup_response lookup_id (ok BackupPutStatus.unauthorized) = unauthorized_response
  put_backup_response lookup_id (err error) =
      storage_unavailable x (text "Could not write hosted backup: ") error

  unfoldable pub put_hosted_backup : Readings → HttpRequest → Text → ServerState → Reply
  unfolding backup_access put_backup_response
  put_hosted_backup r request lookup_id state =
      backup_access request lookup_id
        (λ auth_token. elim (parse_hosted_backup_package x.codec request.body) [
          | err error ↦
              (error_response x.codec 400 (text "invalid_backup_package") error false, state)
          | ok backup ↦
              let (status, buckets) =
                put_backup x.crypto x.codec r.backup_faults lookup_id auth_token backup r.now
                  state.backup_store in
              (put_backup_response lookup_id status, record state { backup_store = buckets })
        ])
        state

  unfoldable pub get_backup_response : Text → Bool → Result BackupReadStatus → HttpResponse
  unfolding hosted_backup_head_response unauthorized_response not_found_response
  get_backup_response lookup_id true (ok (BackupReadStatus.found generation)) =
      hosted_backup_head_response generation
  get_backup_response lookup_id false (ok (BackupReadStatus.found generation)) =
      json_response x.codec 200 (
        json_object (
          (text "lookup_id", string lookup_id)
          ∷ (text "generation_id", string generation.generation_id)
          ∷ (text "created_at", x.codec.timestamp_value generation.created_at)
          ∷ (text "size_bytes", nat_value generation.size_bytes)
          ∷ (text "content_sha256", string generation.content_sha256)
          ∷ (text "backup", generation.backup)
          ∷ []))
  get_backup_response lookup_id head_only (ok BackupReadStatus.not_found) = not_found_response
  get_backup_response lookup_id head_only (ok BackupReadStatus.unauthorized) = unauthorized_response
  get_backup_response lookup_id head_only (err error) =
      storage_unavailable x (text "Could not read hosted backup: ") error

  unfoldable pub get_hosted_backup : Readings → HttpRequest → Text → Bool → ServerState → Reply
  unfolding backup_access get_backup_response
  get_hosted_backup r request lookup_id head_only state =
      backup_access request lookup_id
        (λ auth_token. (
          get_backup_response lookup_id head_only (
              latest_backup x.crypto x.codec r.backup_faults lookup_id auth_token
                state.backup_store),
          state,
        ))
        state

  unfoldable pub list_backups_response : Text → Result BackupListStatus → HttpResponse
  unfolding unauthorized_response not_found_response hosted_backup_generation_metadata
  list_backups_response lookup_id (ok (BackupListStatus.found generations)) =
      json_response x.codec 200 (
        json_object (
          (text "lookup_id", string lookup_id)
          ∷ (text "count", nat_value (length generations))
          ∷ (text "generations", json_array (map hosted_backup_generation_metadata generations))
          ∷ (text "max_generations", nat_value max_backup_generations)
          ∷ []))
  list_backups_response lookup_id (ok BackupListStatus.not_found) = not_found_response
  list_backups_response lookup_id (ok BackupListStatus.unauthorized) = unauthorized_response
  list_backups_response lookup_id (err error) =
      storage_unavailable x (text "Could not read hosted backup generations: ") error

  unfoldable pub list_hosted_backup_generations :
      Readings → HttpRequest → Text → ServerState → Reply
  unfolding backup_access list_backups_response
  list_hosted_backup_generations r request lookup_id state =
      backup_access request lookup_id
        (λ auth_token. (
          list_backups_response lookup_id (
              list_backups x.crypto x.codec r.backup_faults lookup_id auth_token
                state.backup_store),
          state,
        ))
        state
