-- ===== src/Client/Create/Laws.antt =====
-- What `backup_create` writes, its recovery phrase opens.
use ai_channel.Prelude.{◌≡◌}
use ai_channel.Prelude.Text.{Text}
use ai_channel.Prelude.Result.{ok}
use ai_channel.Time.{DateTime}
use ai_channel.Protocol.External.{Crypto}
use ai_channel.Core.External.{Ciphers}
use ai_channel.Core.BackupFile.{BackupFile, BackupPayload, encrypt_backup, generate_recovery_phrase}
use ai_channel.Core.LocalState.{LocalStateDir, Refusals, FileCodec, write_to, written}
use ai_channel.Client.Backups.{Codecs}
use ai_channel.Client.Create.{Created, BackupSeed, Upload}

module _ (crypto : Crypto) (ciphers : Ciphers) (codecs : Codecs) (dir : LocalStateDir)
    (os : Refusals) (codec : FileCodec BackupFile) (payload : BackupPayload) (seed : BackupSeed)
    (now : DateTime) (output : Text) (upload : Upload) where
  abbrev phrase_of : Text
  phrase_of = generate_recovery_phrase crypto ciphers seed.phrase

  -- the backup of a run that succeeded, and where it was written
  pub record IsCreated (created after : Created) (phrase : Text) : Type 0 where
    pub backup : BackupFile
    pub same_phrase : phrase_of ≡ phrase
    pub encrypted :
        encrypt_backup crypto ciphers codecs.payload payload phrase_of seed.salt seed.nonce now
        ≡ ok backup
    pub written : (write_to codec os output backup created.output).0 ≡ ok tt
    pub output_file : after.output ≡ (write_to codec os output backup created.output).1
