-- ===== src/Publish/Store.antt =====
-- The operations of `FilePublishStore` that write: `upsert`, `mark_author_deleted`, `admin_hide` and
-- `admin_restore`; and `stats`. `now` is what `Utc::now()` returns in the operation.
use ai_channel.Prelude.{
  Bool, true, false, not, ◌&&◌, none, some, List, [], ◌∷◌, ◌++◌, if◌then◌else◌, find, update_first,
  retain, length, any,
}
use ai_channel.Prelude.Text.{Text, text_eq}
use ai_channel.Prelude.Result.{Result, ok, ◌>>=◌}
use ai_channel.Time.{DateTime}
use ai_channel.Storage.{Faults, load, save, with_loaded}
use ai_channel.Protocol.Types.{PeerId}
use ai_channel.Auth.Admin.{AdminPrincipal}
use ai_channel.Publish.Record.{
  PublishObject, StoredPublishRecord, visible, preserve_admin_state, PublishUpsertStatus,
  PublishDeleteStatus, PublishModerationStatus, PublicStats,
}

abbrev pub Records : Type 0
Records = List StoredPublishRecord

abbrev pub has_id : Text → StoredPublishRecord → Bool
has_id id entry = text_eq entry.object.id id

unfoldable pub upsert :
    Faults → PublishObject → PeerId → Records → Result PublishUpsertStatus × Records
upsert faults object peer_id contents = with_loaded faults contents λ records.
    elim (find (has_id object.id) records) [
      | none ↦ save faults records (records ++ visible object ∷ []) PublishUpsertStatus.stored
      | some existing ↦
          if not (text_eq existing.object.payload.peer_id peer_id)
          then (ok PublishUpsertStatus.peer_conflict, records)
          else if existing.deleted
          then (ok PublishUpsertStatus.author_deleted, records)
          else save faults records
              (update_first (has_id object.id) (preserve_admin_state object) records)
              PublishUpsertStatus.stored
    ]

-- an entry with this id that its author has not deleted
abbrev pub is_live : Text → StoredPublishRecord → Bool
is_live id entry = has_id id entry && not entry.deleted

unfoldable pub set_deleted : DateTime → StoredPublishRecord → StoredPublishRecord
set_deleted now entry = record entry { deleted = true; deleted_at = some now }

unfoldable pub mark_author_deleted :
    Faults → Text → PeerId → DateTime → Records → Result PublishDeleteStatus × Records
mark_author_deleted faults publish_id peer_id now contents = with_loaded faults contents λ records.
    elim (find (is_live publish_id) records) [
      | none ↦ (ok PublishDeleteStatus.not_found, records)
      | some entry ↦
          if not (text_eq entry.object.payload.peer_id peer_id)
          then (ok PublishDeleteStatus.wrong_peer, records)
          else save faults records (update_first (is_live publish_id) (set_deleted now) records)
              PublishDeleteStatus.deleted
    ]

unfoldable pub set_hidden :
    Text → AdminPrincipal → DateTime → StoredPublishRecord → StoredPublishRecord
set_hidden reason admin now entry = record entry {
  hidden = true;
  hidden_at = some now;
  hide_reason = some reason;
  hidden_by_principal = some admin.principal;
  hidden_by_hash = some admin.principal_hash;
  restored_at = none;
  restore_reason = none;
  restored_by_principal = none;
  restored_by_hash = none;
}

unfoldable pub set_restored :
    Text → AdminPrincipal → DateTime → StoredPublishRecord → StoredPublishRecord
set_restored reason admin now entry = record entry {
  hidden = false;
  hidden_at = none;
  hide_reason = none;
  hidden_by_principal = none;
  hidden_by_hash = none;
  restored_at = some now;
  restore_reason = some reason;
  restored_by_principal = some admin.principal;
  restored_by_hash = some admin.principal_hash;
}

-- The common course of `admin_hide` and `admin_restore`; `change` is the block of assignments.
unfoldable pub moderate :
    (StoredPublishRecord → StoredPublishRecord)
    → Faults
    → Text
    → Records
    → Result PublishModerationStatus × Records
moderate change faults publish_id contents = with_loaded faults contents λ records.
    elim (find (has_id publish_id) records) [
      | none ↦ (ok PublishModerationStatus.not_found, records)
      | some entry ↦
          if entry.deleted
          then (ok PublishModerationStatus.author_deleted, records)
          else save faults records (update_first (has_id publish_id) change records)
              (PublishModerationStatus.updated (change entry).object)
    ]

unfoldable pub admin_hide :
    Faults
    → Text
    → Text
    → AdminPrincipal
    → DateTime
    → Records
    → Result PublishModerationStatus × Records
unfolding moderate
admin_hide faults publish_id reason admin now =
    moderate (set_hidden reason admin now) faults publish_id

unfoldable pub admin_restore :
    Faults
    → Text
    → Text
    → AdminPrincipal
    → DateTime
    → Records
    → Result PublishModerationStatus × Records
unfolding moderate
admin_restore faults publish_id reason admin now =
    moderate (set_restored reason admin now) faults publish_id

abbrev pub is_visible : StoredPublishRecord → Bool
is_visible entry = not entry.deleted && not entry.hidden

-- the keys of the `BTreeMap` of peer ids
unfoldable pub peer_ids : Records → List PeerId
peer_ids [] = []
peer_ids (entry ∷ entries) =
    let rest = peer_ids entries in
    let peer = entry.object.payload.peer_id in
    if any (λ p. text_eq p peer) rest then rest else peer ∷ rest

unfoldable pub publish_stats : Faults → Records → Result PublicStats
publish_stats faults contents = do
  records ← load faults contents
  let shown = retain is_visible records
  ok (record { agents_alive = length (peer_ids shown); public_messages_sent = length shown })
