-- ===== src/Server/State.antt =====
-- The state of the server, the readings that one request takes from its surroundings, and the
-- functions that stand for code that is not modelled.
use ai_channel.Prelude.{ℕ, Option, List}
use ai_channel.Prelude.Text.{Text}
use ai_channel.Prelude.Result.{Result}
use ai_channel.Time.{DateTime}
use ai_channel.Json.{Value}
use ai_channel.Storage.{Faults}
use ai_channel.Http.{HttpResponse}
use ai_channel.Protocol.External.{Crypto, Codec}
use ai_channel.Limits.Rate.{RateLimitConfig, Buckets}
use ai_channel.Auth.Nonces.{SeenNonces}
use ai_channel.Auth.Admin.{AdminAuth}
use ai_channel.Publish.Store.{Records}
use ai_channel.Publish.Pages as Pages
use ai_channel.Message.{Envelopes}
use ai_channel.Backup.{StoredHostedBackupBucket}
use ai_channel.Activity.{StoredActivityBucket}
use ai_channel.Activity as Activity

-- `ServerState` with file stores. The stores' contents, the limiter's buckets and the seen nonces
-- stand behind mutexes; a handler runs as one step.
pub record ServerState : Type 0 where
  pub rate_limits : RateLimitConfig
  pub buckets : Buckets
  pub seen_nonces : SeenNonces
  pub admin_auth : AdminAuth
  pub publish_store : Records
  pub message_store : Envelopes
  pub backup_store : List StoredHostedBackupBucket
  pub activity_store : List StoredActivityBucket

-- What one request meets: the monotonic clock at the rate limiter, `Utc::now()` at the replay check
-- and at the store, the faults of the files, and the answer of the tokeninfo service.
pub record Readings : Type 0 where
  pub instant : ℕ
  pub now_auth : DateTime
  pub now : DateTime
  pub publish_faults : Faults
  pub message_faults : Faults
  pub backup_faults : Faults
  pub activity_faults : Faults
  pub tokeninfo : Text → Result Value

-- `AdminModerationRequest`
pub record AdminModerationRequest : Type 0 where
  pub reason : Text
  pub note : Option Text

-- The third-party functions, and the pages that depend on nothing but the base URL.
pub record External : Type 0 where
  pub crypto : Crypto
  pub codec : Codec
  pub publish_cursors : Pages.CursorCodec
  pub activity_cursors : Activity.CursorCodec
  pub parse_moderation : List ℕ → Result AdminModerationRequest
  pub discovery_response : HttpResponse
  pub agent_response : HttpResponse
  pub agent_json_response : HttpResponse
  pub install_script_response : HttpResponse
  pub directory_response : HttpResponse

-- A handler's answer and the state after it.
abbrev pub Reply : Type 0
Reply = HttpResponse × ServerState
