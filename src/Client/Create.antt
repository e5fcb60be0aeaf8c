-- ===== src/Client/Create.antt =====
-- `backup_create` of crates/aichan/src/main.rs, on the files of the state directory and the output.
-- The identity, device, memory and configuration that are cached, the relay's answer to the upload,
-- the clock and what is random are arguments.
pub mod Laws
use ai_channel.Prelude.{ℕ, Option, none, some, List, ◌++◌}
use ai_channel.Prelude.Text.{Text, text}
use ai_channel.Prelude.Result.{Result, ok, err}
use ai_channel.Time.{DateTime}
use ai_channel.Protocol.External.{Crypto}
use ai_channel.Core.External.{Ciphers}
use ai_channel.Core.BackupFile.{
  BackupFile, BackupPayload, BackupMetadata, HostedBackupLocator, encrypt_backup,
  derive_hosted_backup_locator, generate_recovery_phrase,
}
use ai_channel.Core.LocalState.{LocalStateDir, File, Refusals, FileCodec, write_to}
use ai_channel.Client.Steps.{Step, pure, ◌>>=◌, ◌>>◌}
use ai_channel.Client.Backups.{Files, Codecs, HostedBackup, get_metadata, put_metadata}

-- the state directory and the file that the backup is written to
pub record Created : Type 0 where
  pub files : Files
  pub output : File

abbrev pub on_files : {A : Type 0} → Step Files A → Step Created A
on_files step created =
    let (done, after) = step created.files in (done, record created { files = after })

abbrev pub on_output : {A : Type 0} → (File → Result A × File) → Step Created A
on_output step created =
    let (done, after) = step created.output in (done, record created { output = after })

-- the random bytes of a backup
pub record BackupSeed : Type 0 where
  pub phrase : List ℕ
  pub salt : List ℕ
  pub nonce : List ℕ

-- the metadata after the local backup, and after the upload
abbrev pub local_metadata : DateTime → Text → BackupMetadata → BackupMetadata
local_metadata created_at output metadata = record metadata {
  last_local_backup_at = some created_at;
  last_local_backup_path = some output;
}

abbrev pub hosted_metadata : HostedBackupLocator → HostedBackup → BackupMetadata → BackupMetadata
hosted_metadata locator upload metadata = record metadata {
  backup_lookup_id = some locator.backup_lookup_id;
  last_hosted_backup_at = some upload.created_at;
  last_hosted_generation_id = some upload.generation_id;
}

-- `upload_hosted_backup`, where an upload is asked for
abbrev pub Upload : Type 0
Upload = Option (HostedBackupLocator → BackupFile → Result HostedBackup)

abbrev pub after_upload : Option Text → Text → Result Text
after_upload none recovery_phrase = ok recovery_phrase
after_upload (some e) recovery_phrase =
    err (text "hosted backup upload failed after writing local backup: " ++ e)

module _ (crypto : Crypto) (ciphers : Ciphers) (codecs : Codecs) (dir : LocalStateDir)
    (os : Refusals) where
  -- the metadata of an upload, or what has failed
  abbrev pub record_upload :
      HostedBackupLocator → BackupMetadata → Result HostedBackup → Step Files (Option Text)
  record_upload locator metadata (ok upload) = do
    put_metadata crypto ciphers codecs dir os (hosted_metadata locator upload metadata)
    pure (ok none)
  record_upload locator metadata (err e) = pure (ok (some e))

  abbrev pub upload_backup : Upload → Text → BackupFile → BackupMetadata → Step Files (Option Text)
  upload_backup none recovery_phrase backup metadata = pure (ok none)
  upload_backup (some upload) recovery_phrase backup metadata = do
    locator ← pure (derive_hosted_backup_locator crypto ciphers recovery_phrase)
    record_upload locator metadata (upload locator backup)

  -- The recovery phrase, which is printed also where the upload has failed.
  unfoldable pub backup_create :
      FileCodec BackupFile
      → BackupPayload
      → BackupSeed
      → DateTime
      → Text
      → Upload
      → Step Created Text
  backup_create codec payload seed now output upload = do
    let recovery_phrase = generate_recovery_phrase crypto ciphers seed.phrase
    backup ← pure (
        encrypt_backup crypto ciphers codecs.payload payload recovery_phrase seed.salt seed.nonce
          now)
    on_output (write_to codec os output backup)
    loaded ← on_files (get_metadata crypto ciphers codecs dir os)
    let metadata = local_metadata payload.created_at output loaded
    on_files (put_metadata crypto ciphers codecs dir os metadata)
    failed ← on_files (upload_backup upload recovery_phrase backup metadata)
    pure (after_upload failed recovery_phrase)
