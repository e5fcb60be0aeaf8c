-- ===== src/Client/Sync.antt =====
-- `sync_activity` and `sync_window_warning` of crates/aichan/src/main.rs. The relay's answers, the
-- clock and what is random are arguments.
pub mod Laws
use ai_channel.Prelude.{
  ℕ, ◌+◌, ◌-◌, ◌*◌, ◌/◌, Bool, Option, none, some, List, [], ◌∷◌, ltb, leb, if◌then◌else◌,
}
use ai_channel.Prelude.Text.{Text, text, text_eq}
use ai_channel.Prelude.Result.{Result, ok, err, ◌>>=◌, ◌>>◌}
use ai_channel.Time.{DateTime, second}
use ai_channel.Protocol.Types.{ActivityEvent}
use ai_channel.Protocol.External.{Crypto}
use ai_channel.Message.{Outcome, returned, panicked}
use ai_channel.Core.External.{Ciphers}
use ai_channel.Core.Memory.{MemoryFile}
use ai_channel.Core.Device.{DeviceId}
use ai_channel.Core.Identity.{IdentityFile}
use ai_channel.Core.Snapshot.{
  ActivityLocator, SnapshotCodec, derive_activity_locator, encrypt_activity_snapshot,
  decrypt_activity_snapshot,
}
use ai_channel.Core.LocalState.{LocalStateDir, Refusals, File, FileCodec, memory_path, write_to}
use ai_channel.Client.Merge.{merge_memory_snapshot}
use ai_channel.Client.Url.{clamp}

pub record ActivityUploadResponse : Type 0 where
  pub event_id : Text
  pub stored : Bool

pub record ActivityListResponse : Type 0 where
  pub events : List ActivityEvent
  pub next_cursor : Option Text

-- What the loop has counted, and the memory that it has merged.
pub record Pulled : Type 0 where
  pub pulled : ℕ
  pub applied : ℕ
  pub skipped_self : ℕ
  pub memory : MemoryFile

abbrev pub start : MemoryFile → Pulled
start memory = record { pulled = 0; applied = 0; skipped_self = 0; memory = memory }

abbrev skip : Pulled → Pulled
skip so_far = record so_far { pulled = so_far.pulled + 1; skipped_self = so_far.skipped_self + 1 }

abbrev pub apply_snapshot : MemoryFile → Pulled → Pulled
apply_snapshot remote so_far =
    let (changed, memory) = merge_memory_snapshot so_far.memory remote in
    record so_far {
      pulled = so_far.pulled + 1;
      applied = if changed then so_far.applied + 1 else so_far.applied;
      memory = memory;
    }

module _ (crypto : Crypto) (ciphers : Ciphers) (codec : SnapshotCodec) (identity : IdentityFile)
    (device : DeviceId) where
  -- one round of the loop over the page
  unfoldable pub apply_event : ActivityEvent → Pulled → Result Pulled
  apply_event event so_far =
      let opened = decrypt_activity_snapshot crypto ciphers codec identity event in
      if text_eq event.source_device_id device
      then ok (skip so_far)
      else opened >>= λ payload. ok (apply_snapshot payload.memory so_far)

  unfoldable pub apply_events : List ActivityEvent → Pulled → Result Pulled
  unfolding apply_event
  apply_events [] so_far = ok so_far
  apply_events (event ∷ events) so_far =
      apply_event event so_far >>= λ next. apply_events events next

-- The relay: what it answers to an upload and to a download.
pub record ActivityRelay : Type 0 where
  pub upload_activity_event : ActivityLocator → ActivityEvent → Result ActivityUploadResponse
  pub download_activity_events : ActivityLocator → Option Text → ℕ → Result ActivityListResponse

pub record SyncReport : Type 0 where
  pub upload : ActivityUploadResponse
  pub counts : Pulled
  pub next_cursor : Option Text
  pub last_sync_at : DateTime

-- the random UUID, salt and nonce of the snapshot
pub record SnapshotSeed : Type 0 where
  pub uuid : Text
  pub salt : List ℕ
  pub nonce : List ℕ

module _ (crypto : Crypto) (ciphers : Ciphers) (codec : SnapshotCodec) (relay : ActivityRelay) where
  -- what is merged before the memory is written
  unfoldable pub exchange :
      IdentityFile
      → DeviceId
      → MemoryFile
      → ActivityLocator
      → ActivityEvent
      → ℕ
      → DateTime
      → Result SyncReport
  exchange identity device memory locator event limit synced_at = do
    upload ← relay.upload_activity_event locator event
    page ← relay.download_activity_events locator memory.sync.activity_cursor (clamp 1 500 limit)
    counts ← apply_events crypto ciphers codec identity device page.events (start memory)
    ok (record {
      upload = upload;
      counts = counts;
      next_cursor = page.next_cursor;
      last_sync_at = synced_at;
    })

  -- the memory that is written
  abbrev pub synced_memory : SyncReport → MemoryFile
  synced_memory report = record report.counts.memory {
    sync = record report.counts.memory.sync {
      last_sync_at = some report.last_sync_at;
      activity_cursor = report.next_cursor;
    };
  }

  -- `sync_activity` with what `cached_identity`, `cached_device` and `mutable_memory` return, and the
  -- memory file; `now` and `synced_at` are its two readings of the clock
  unfoldable pub sync_activity :
      FileCodec MemoryFile
      → LocalStateDir
      → Refusals
      → IdentityFile
      → DeviceId
      → MemoryFile
      → SnapshotSeed
      → ℕ
      → DateTime
      → DateTime
      → File
      → Outcome SyncReport × File
  unfolding exchange
  sync_activity files state os identity device memory seed limit now synced_at file =
      elim (derive_activity_locator crypto ciphers identity) [
        | err e ↦ (returned (err e), file)
        | ok locator ↦
            elim (encrypt_activity_snapshot crypto ciphers codec identity device memory seed.uuid
              seed.salt seed.nonce now) [
                | panicked ↦ (panicked, file)
                | returned (err e) ↦ (returned (err e), file)
                | returned (ok event) ↦
                    elim (exchange identity device memory locator event limit synced_at) [
                      | err e ↦ (returned (err e), file)
                      | ok report ↦
                          let (done, after) =
                            write_to files os (memory_path state) (synced_memory report) file in
                          (returned (done >> ok report), after)
                    ]
              ]
      ]

pub data SyncLevel : Type 0 where
  stale : SyncLevel
  warning : SyncLevel

pub record SyncWarning : Type 0 where
  pub level : SyncLevel
  pub last_sync_at : DateTime
  pub age_seconds : ℕ

abbrev day : ℕ
day = 86_400 * second

-- a clock that was set back makes the age negative, which gives no warning
unfoldable pub sync_window_warning : Option DateTime → DateTime → Option SyncWarning
sync_window_warning none now = none
sync_window_warning (some last_sync_at) now =
    let age = now - last_sync_at in
    if leb (7 * day) age
    then some (record { level = stale; last_sync_at = last_sync_at; age_seconds = age / second })
    else if leb (5 * day) age
    then some (record { level = warning; last_sync_at = last_sync_at; age_seconds = age / second })
    else none
