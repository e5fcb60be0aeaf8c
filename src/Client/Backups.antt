-- ===== src/Client/Backups.antt =====
-- `backup_create` and `backup_restore` of crates/aichan/src/main.rs on the files of the state
-- directory. The relay, the clock and what is random are arguments.
pub mod Laws
use ai_channel.Prelude.{Bool, true, false, not, ◌&&◌, ◌||◌, Option, none, some, ◌++◌, if◌then◌else◌}
use ai_channel.Prelude.Text.{Text, text}
use ai_channel.Prelude.Result.{Result, ok, err}
use ai_channel.Time.{DateTime}
use ai_channel.Protocol.Types.{PeerId}
use ai_channel.Protocol.External.{Crypto}
use ai_channel.Core.External.{Ciphers}
use ai_channel.Core.Memory.{MemoryFile}
use ai_channel.Core.Device.{DeviceFile}
use ai_channel.Core.Config.{AichanConfig}
use ai_channel.Core.Identity.{IdentityFile}
use ai_channel.Core.BackupFile.{
  BackupFile, BackupPayload, BackupMetadata, PayloadCodec, decrypt_backup,
}
use ai_channel.Core.LocalState.{
  LocalStateDir, File, Refusals, FileCodec, ensure_dirs, identity_path, memory_path, config_path,
  write_to, write_to_state, load_metadata, create_fresh_device,
}
use ai_channel.Core.LocalState.Identities.{write_replace_to}
use ai_channel.Client.Steps.{Step, pure, ◌>>=◌, ◌>>◌}

-- the files of a state directory
pub record Files : Type 0 where
  pub identity : File
  pub device : File
  pub memory : File
  pub config : File
  pub metadata : File

pub record Codecs : Type 0 where
  pub identity : FileCodec IdentityFile
  pub device : FileCodec DeviceFile
  pub memory : FileCodec MemoryFile
  pub config : FileCodec AichanConfig
  pub metadata : FileCodec BackupMetadata
  pub payload : PayloadCodec

abbrev pub exists : File → Bool
exists none = false
exists (some bytes) = true

unfoldable pub restore_target_has_local_state : Files → Bool
restore_target_has_local_state files =
    exists files.identity || exists files.device || exists files.memory || exists files.config

abbrev recovery_or : Option Text → Result Text
recovery_or none =
    err (text "missing recovery phrase; set AICHAN_RECOVERY_PHRASE or pass --recovery-phrase")
recovery_or (some phrase) = ok phrase

-- the argument, or else the environment variable
unfoldable pub recovery_phrase_from_args : Option Text → Option Text → Result Text
recovery_phrase_from_args (some phrase) variable = ok phrase
recovery_phrase_from_args none variable = recovery_or variable

-- What the relay returned with a hosted backup.
pub record HostedBackup : Type 0 where
  pub generation_id : Text
  pub created_at : DateTime

-- Where a restored backup comes from: a file, or the relay under a lookup id.
pub data RestoreSource : Type 0 where
  from_file : Text → RestoreSource
  from_relay : Text → HostedBackup → RestoreSource

abbrev source_name : RestoreSource → Text
source_name (from_file path) = path
source_name (from_relay lookup_id hosted) = text "hosted:" ++ hosted.generation_id

abbrev with_source : RestoreSource → BackupMetadata → BackupMetadata
with_source (from_file path) metadata = metadata
with_source (from_relay lookup_id hosted) metadata = record metadata {
  backup_lookup_id = some lookup_id;
  last_hosted_backup_at = some hosted.created_at;
  last_hosted_generation_id = some hosted.generation_id;
}

-- the metadata after a restore
unfoldable pub restored_metadata :
    RestoreSource → DateTime → PeerId → BackupMetadata → BackupMetadata
restored_metadata source restored_at peer_id metadata = with_source source (record metadata {
  last_restore_at = some restored_at;
  last_restore_source = some (source_name source);
  last_restored_peer_id = some peer_id;
})

module _ (crypto : Crypto) (ciphers : Ciphers) (codecs : Codecs) (dir : LocalStateDir)
    (os : Refusals) where
  -- the writes of one file each
  abbrev pub put_identity : IdentityFile → Step Files (Unit {0})
  put_identity identity files =
      let (done, after) =
        write_replace_to crypto ciphers codecs.identity dir os (identity_path dir) identity
          files.identity in
      (done, record files { identity = after })

  abbrev pub put_memory : MemoryFile → Step Files (Unit {0})
  put_memory memory files =
      let (done, after) = write_to codecs.memory os (memory_path dir) memory files.memory in
      (done, record files { memory = after })

  abbrev put_some_config : AichanConfig → Step Files (Unit {0})
  put_some_config config files =
      let (done, after) = write_to codecs.config os (config_path dir) config files.config in
      (done, record files { config = after })

  abbrev pub put_config : Option AichanConfig → Step Files (Unit {0})
  put_config none = pure (ok tt)
  put_config (some config) = put_some_config config

  abbrev pub fresh_device : Text → DateTime → Step Files DeviceFile
  fresh_device uuid now files =
      let (device, after) = create_fresh_device dir os codecs.device uuid now files.device in
      (device, record files { device = after })

  abbrev pub put_metadata : BackupMetadata → Step Files (Unit {0})
  put_metadata metadata files =
      let (done, after) = write_to_state dir os codecs.metadata metadata files.metadata in
      (done, record files { metadata = after })

  abbrev pub get_metadata : Step Files BackupMetadata
  get_metadata files = (load_metadata dir os codecs.metadata files.metadata, files)

  -- the writes of `backup_restore`
  unfoldable pub restore_payload :
      BackupPayload → RestoreSource → Text → DateTime → Step Files DeviceFile
  restore_payload payload source uuid restored_at = do
    pure (ensure_dirs dir os)
    put_identity payload.identity
    put_memory payload.memory
    put_config payload.config
    device ← fresh_device uuid restored_at
    metadata ← get_metadata
    put_metadata (restored_metadata source restored_at payload.peer_id metadata)
    pure (ok device)

  -- the rest of `backup_restore`, with the recovery phrase of the arguments and how the backup is
  -- found with it, which loads the configuration and reads the file or asks the relay
  unfoldable pub restore_found :
      Result Text
      → (Text → Result (BackupFile × RestoreSource))
      → Text
      → DateTime
      → Step Files (PeerId × DeviceFile)
  unfolding restore_payload
  restore_found phrase find_backup uuid restored_at = do
    recovery_phrase ← pure phrase
    found ← pure (find_backup recovery_phrase)
    payload ← pure (decrypt_backup crypto ciphers codecs.payload found.0 recovery_phrase)
    device ← restore_payload payload found.1 uuid restored_at
    pure (ok (payload.peer_id, device))

  unfoldable pub backup_restore :
      Bool
      → Result Text
      → (Text → Result (BackupFile × RestoreSource))
      → Text
      → DateTime
      → Step Files (PeerId × DeviceFile)
  unfolding restore_found
  backup_restore force phrase find_backup uuid restored_at files =
      let restored = restore_found phrase find_backup uuid restored_at files in
      if restore_target_has_local_state files && not force
      then (
        err (
            text
              "refusing to overwrite existing .aichan state; rerun with --force to restore here"),
        files,
      )
      else restored

  -- the payload of `backup_create`
  unfoldable pub new_backup_payload :
      IdentityFile → DeviceFile → MemoryFile → AichanConfig → DateTime → BackupPayload
  new_backup_payload identity device memory config created_at = record {
    version = 1;
    peer_id = identity.peer_id;
    source_device_id = device.device_id;
    identity = identity;
    memory = memory;
    config = some config;
    created_at = created_at;
  }
