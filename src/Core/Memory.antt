-- ===== src/Core/Memory.antt =====
-- `MemoryFile` of crates/aichan-core/src/memory.rs, but for its reads and writes.
use ai_channel.Prelude.{ℕ, Option, none, List, [], ◌++◌, ◌==◌}
use ai_channel.Prelude.Text.{Text, text, decimal}
use ai_channel.Prelude.Result.{Result, ensure}
use ai_channel.Time.{DateTime}
use ai_channel.Core.Errors.{memory_error}

pub record AgentProfile : Type 0 where
  pub nickname : Option Text
  pub self_description : Option Text
  pub preferences : List Text

pub record PeerSummary : Type 0 where
  pub peer_id : Text
  pub tags : List Text
  pub body_preview : Option Text
  pub last_seen_at : DateTime

pub record InteractionSummary : Type 0 where
  pub peer_id : Text
  pub summary : Text
  pub updated_at : DateTime

pub record SyncState : Type 0 where
  pub last_sync_at : Option DateTime
  pub inbox_cursor : Option Text
  pub activity_cursor : Option Text

pub record MemoryFile : Type 0 where
  pub version : ℕ
  pub profile : AgentProfile
  pub common_tags : List Text
  pub discovered_peers : List PeerSummary
  pub interactions : List InteractionSummary
  pub sync : SyncState
  pub updated_at : DateTime

-- `AgentProfile::default`, `SyncState::default`
abbrev pub default_profile : AgentProfile
default_profile = record { nickname = none; self_description = none; preferences = [] }

abbrev pub default_sync : SyncState
default_sync = record { last_sync_at = none; inbox_cursor = none; activity_cursor = none }

-- `MemoryFile::default`, at the time `now`
unfoldable pub default_memory : DateTime → MemoryFile
default_memory now = record {
  version = 1;
  profile = default_profile;
  common_tags = [];
  discovered_peers = [];
  interactions = [];
  sync = default_sync;
  updated_at = now;
}

-- `MemoryFile::validate`
unfoldable pub validate_memory : MemoryFile → Result (Unit {0})
validate_memory memory =
    ensure (memory.version == 1)
      (memory_error (text "unsupported version " ++ decimal memory.version))
