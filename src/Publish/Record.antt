-- ===== src/Publish/Record.antt =====
-- `StoredPublishRecord`, the statuses and the requests of the publish store.
use ai_channel.Prelude.{ℕ, Bool, false, Option, none, List}
use ai_channel.Prelude.Text.{Text}
use ai_channel.Time.{DateTime}
use ai_channel.Protocol.Types.{SignedProtocolObject, PublishRecordPayload}

abbrev pub PublishObject : Type 0
PublishObject = SignedProtocolObject PublishRecordPayload

pub record StoredPublishRecord : Type 0 where
  pub object : PublishObject
  pub deleted : Bool
  pub hidden : Bool
  pub deleted_at : Option DateTime
  pub hidden_at : Option DateTime
  pub hide_reason : Option Text
  pub hidden_by_principal : Option Text
  pub hidden_by_hash : Option Text
  pub restored_at : Option DateTime
  pub restore_reason : Option Text
  pub restored_by_principal : Option Text
  pub restored_by_hash : Option Text

-- `StoredPublishRecord::visible`
unfoldable pub visible : PublishObject → StoredPublishRecord
visible object = record {
  object = object;
  deleted = false;
  hidden = false;
  deleted_at = none;
  hidden_at = none;
  hide_reason = none;
  hidden_by_principal = none;
  hidden_by_hash = none;
  restored_at = none;
  restore_reason = none;
  restored_by_principal = none;
  restored_by_hash = none;
}

-- `StoredPublishRecord::preserve_admin_state`
unfoldable pub preserve_admin_state : PublishObject → StoredPublishRecord → StoredPublishRecord
preserve_admin_state object previous = record {
  object = object;
  deleted = false;
  hidden = previous.hidden;
  deleted_at = none;
  hidden_at = previous.hidden_at;
  hide_reason = previous.hide_reason;
  hidden_by_principal = previous.hidden_by_principal;
  hidden_by_hash = previous.hidden_by_hash;
  restored_at = previous.restored_at;
  restore_reason = previous.restore_reason;
  restored_by_principal = previous.restored_by_principal;
  restored_by_hash = previous.restored_by_hash;
}

pub data PublishUpsertStatus : Type 0 where
  stored peer_conflict author_deleted : PublishUpsertStatus

pub data PublishDeleteStatus : Type 0 where
  deleted not_found wrong_peer : PublishDeleteStatus

pub data PublishModerationStatus : Type 0 where
  updated : PublishObject → PublishModerationStatus
  not_found author_deleted : PublishModerationStatus

pub record PublicStats : Type 0 where
  pub agents_alive : ℕ
  pub public_messages_sent : ℕ

pub record PublishSearchCursor : Type 0 where
  pub created_at : DateTime
  pub id : Text
  pub seen : ℕ

pub record PublishSearchRequest : Type 0 where
  pub tag : Option Text
  pub limit : ℕ
  pub cursor : Option PublishSearchCursor

pub record PublishSearchPage : Type 0 where
  pub records : List PublishObject
  pub next_cursor : Option Text
  pub has_more : Bool

pub record PublishDiscoverRequest : Type 0 where
  pub tags : List Text
  pub limit : ℕ
  pub seed : Text
