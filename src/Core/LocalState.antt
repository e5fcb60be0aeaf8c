-- ===== src/Core/LocalState.antt =====
-- The local state directory: crates/aichan-core/src/state.rs, and the reads and writes of the files
-- in device.rs, memory.rs, config.rs and backup.rs. A file is its bytes, or nothing where there is
-- none; what the operating system refuses is an argument of an operation, and serde is a parameter.
pub mod Identities
pub mod Laws
use ai_channel.Prelude.{ℕ, Option, none, some, List, ◌∷◌, ◌++◌, if◌then◌else◌}
use ai_channel.Prelude.Text.{Text, text, starts_with, is_empty, strip_suffix}
use ai_channel.Prelude.Result.{Result, ok, err, ◌>>=◌, ◌>>◌, map_err}
use ai_channel.Time.{DateTime}
use ai_channel.Core.Errors.{io_error, json_error}
use ai_channel.Core.Memory.{MemoryFile, default_memory, validate_memory}
use ai_channel.Core.Device.{DeviceFile, new_device, validate_device}
use ai_channel.Core.Config.{AichanConfig, default_config}
use ai_channel.Core.BackupFile.{
  BackupFile, BackupMetadata, default_metadata, validate_file, validate_metadata,
}

pub record LocalStateDir : Type 0 where
  pub project_root : Text

-- `Path::join` on Unix: an absolute path replaces what it is joined to
unfoldable pub join : Text → Text → Text
join path other =
    if starts_with (text "/") other then other else elim (strip_suffix (text "/") path) [
      | some before ↦ path ++ other
      | none ↦ if is_empty path then other else path ++ b'/' ∷ other
    ]

unfoldable pub root : LocalStateDir → Text
root state = join state.project_root (text ".aichan")

unfoldable pub identity_path : LocalStateDir → Text
identity_path state = join (root state) (text "identity.json")

unfoldable pub device_path : LocalStateDir → Text
device_path state = join (root state) (text "device.json")

unfoldable pub memory_path : LocalStateDir → Text
memory_path state = join (root state) (text "memory.json")

unfoldable pub config_path : LocalStateDir → Text
config_path state = join (root state) (text "config.json")

unfoldable pub backup_metadata_path : LocalStateDir → Text
backup_metadata_path state = join (root state) (text "backup.json")

unfoldable pub inbox_cache_dir : LocalStateDir → Text
inbox_cache_dir state = join (root state) (text "inbox-cache")

unfoldable pub peer_messages_dir : LocalStateDir → Text
peer_messages_dir state = join (root state) (text "peer-messages")

unfoldable pub peer_messages_path : LocalStateDir → Text → Text
peer_messages_path state peer_id = join (peer_messages_dir state) (peer_id ++ text ".jsonl")

abbrev pub File : Type 0
File = Option (List ℕ)

-- What the operating system refuses in one operation, with its message, and what a failed write left.
pub record Refusals : Type 0 where
  pub not_found : Text
  pub read : Option Text
  pub inbox_dir : Option Text
  pub messages_dir : Option Text
  pub write : Option (Text × File)

-- serde's `from_slice` and `to_vec_pretty`
pub record FileCodec (A : Type 0) : Type 0 where
  pub parse : List ℕ → Result A
  pub print : A → Result (List ℕ)

abbrev refused : Option Text → Text → Result (Unit {0})
refused none path = ok tt
refused (some source) path = err (io_error path source)

-- `LocalStateDir::ensure_dirs`
unfoldable pub ensure_dirs : LocalStateDir → Refusals → Result (Unit {0})
ensure_dirs state os = do
  refused os.inbox_dir (inbox_cache_dir state)
  refused os.messages_dir (peer_messages_dir state)

-- `std::fs::read`
unfoldable pub read_bytes : Refusals → Text → File → Result (List ℕ)
read_bytes os path none = err (io_error path os.not_found)
read_bytes os path (some bytes) = refused os.read path >> ok bytes

-- `std::fs::write`, and the file that it leaves
unfoldable pub write_bytes : Refusals → Text → List ℕ → Result (Unit {0}) × File
write_bytes os path bytes = elim os.write [
  | none ↦ (ok tt, some bytes)
  | some failure ↦ (err (io_error path failure.0), failure.1)
]

module _ {A : Type 0} (codec : FileCodec A) (os : Refusals) (path : Text) where
  -- `read_from` of each file type, with its `validate`
  unfoldable pub read_from : (A → Result (Unit {0})) → File → Result A
  read_from validate file = do
    bytes ← read_bytes os path file
    value ← map_err (json_error path) (codec.parse bytes)
    validate value
    ok value

  -- `write_to` of each file type
  unfoldable pub write_to : A → File → Result (Unit {0}) × File
  write_to value file = elim (codec.print value) [
    | err source ↦ (err (json_error path source), file)
    | ok bytes ↦ write_bytes os path bytes
  ]

  -- a value, once it is written
  unfoldable pub written : A → File → Result A × File
  written value file = let (done, after) = write_to value file in (done >> ok value, after)

module _ {A : Type 0} (codec : FileCodec A) (validate : A → Result (Unit {0}))
    (state : LocalStateDir) (os : Refusals) (path : Text) where
  -- the body of `create_fresh`
  unfoldable pub create_value : A → File → Result A × File
  create_value fresh file = elim (ensure_dirs state os) [
    | err e ↦ (err e, file)
    | ok u ↦ written codec os path fresh file
  ]

  -- the body of `create_or_load` of device and memory files
  unfoldable pub create_or_load : A → File → Result A × File
  create_or_load fresh (some bytes) = (read_from codec os path validate (some bytes), some bytes)
  create_or_load fresh none = create_value fresh none

  -- the body of `load_or_default`
  unfoldable pub load_or_default : A → File → Result A
  load_or_default default none = ok default
  load_or_default default (some bytes) = read_from codec os path validate (some bytes)

module _ (state : LocalStateDir) (os : Refusals) where
  -- `DeviceFile::create_or_load`, `DeviceFile::create_fresh`
  abbrev pub create_or_load_device :
      FileCodec DeviceFile → Text → DateTime → File → Result DeviceFile × File
  create_or_load_device codec uuid now =
      create_or_load codec validate_device state os (device_path state) (new_device uuid now)

  abbrev pub create_fresh_device :
      FileCodec DeviceFile → Text → DateTime → File → Result DeviceFile × File
  create_fresh_device codec uuid now =
      create_value codec validate_device state os (device_path state) (new_device uuid now)

  -- `MemoryFile::create_or_load`
  abbrev pub create_or_load_memory :
      FileCodec MemoryFile → DateTime → File → Result MemoryFile × File
  create_or_load_memory codec now =
      create_or_load codec validate_memory state os (memory_path state) (default_memory now)

  -- `AichanConfig::load_or_default`, which validates nothing
  abbrev pub load_config : FileCodec AichanConfig → File → Result AichanConfig
  load_config codec =
      load_or_default codec (λ config. ok tt) state os (config_path state) default_config

  -- `BackupMetadata::load_or_default`, `BackupMetadata::write_to_state`
  abbrev pub load_metadata : FileCodec BackupMetadata → File → Result BackupMetadata
  load_metadata codec =
      load_or_default codec validate_metadata state os (backup_metadata_path state) default_metadata

  unfoldable pub write_to_state :
      FileCodec BackupMetadata → BackupMetadata → File → Result (Unit {0}) × File
  write_to_state codec metadata file = elim (ensure_dirs state os) [
    | err e ↦ (err e, file)
    | ok u ↦ write_to codec os (backup_metadata_path state) metadata file
  ]

-- `BackupFile::read_from`
abbrev pub read_backup : FileCodec BackupFile → Refusals → Text → File → Result BackupFile
read_backup codec os path = read_from codec os path validate_file
