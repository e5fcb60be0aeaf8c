-- ===== src/Core/LocalState/Identities.antt =====
-- The identity file on disk: `create_or_load`, `write_to` and `write_replace_to` of
-- crates/aichan-core/src/identity.rs.
pub mod Laws
use ai_channel.Prelude.{ℕ, none, some, List, if◌then◌else◌}
use ai_channel.Prelude.Text.{Text}
use ai_channel.Prelude.Result.{Result, ok, err, ◌>>◌}
use ai_channel.Time.{DateTime}
use ai_channel.Protocol.External.{Crypto}
use ai_channel.Core.Errors.{json_error}
use ai_channel.Core.External.{Ciphers}
use ai_channel.Core.Identity.{
  IdentityFile, validate_identity, ensure_message_key_pair, new_identity,
}
use ai_channel.Core.LocalState.{
  LocalStateDir, identity_path, File, Refusals, FileCodec, ensure_dirs, write_bytes, read_from,
  write_to, written,
}

-- The random values and the time of one call.
pub record Fresh : Type 0 where
  pub signing : List ℕ
  pub key_id : Text
  pub private : List ℕ
  pub now : DateTime

module _ (crypto : Crypto) (ciphers : Ciphers) (codec : FileCodec IdentityFile)
    (state : LocalStateDir) (os : Refusals) where
  abbrev pub read_identity : File → Result IdentityFile
  read_identity = read_from codec os (identity_path state) (validate_identity crypto ciphers)

  -- an identity that was read, with a message key pair; it is written only if one was missing
  unfoldable pub repaired : Fresh → List ℕ → IdentityFile → Result IdentityFile × File
  repaired fresh bytes identity =
      let (repair, after) =
        ensure_message_key_pair crypto ciphers fresh.key_id fresh.private identity in
      if repair
      then written codec os (identity_path state) after (some bytes)
      else (ok after, some bytes)

  -- the file that is there is read
  unfoldable pub load_identity : Fresh → List ℕ → Result IdentityFile × File
  unfolding repaired
  load_identity fresh bytes = elim (read_identity (some bytes)) [
    | err e ↦ (err e, some bytes)
    | ok identity ↦ repaired fresh bytes identity
  ]

  -- `write_to`, which only creates: if another process has made the file since, that one is read
  unfoldable pub create_new : IdentityFile → File → Result IdentityFile × File
  create_new identity appeared = elim (codec.print identity) [
    | err source ↦ (err (json_error (identity_path state) source), appeared)
    | ok bytes ↦ elim appeared [
      | some other ↦ (read_identity (some other), some other)
      | none ↦
          let (done, after) = write_bytes os (identity_path state) bytes in
          (done >> ok identity, after)
    ]
  ]

  unfoldable pub create_identity : Fresh → File → Result IdentityFile × File
  unfolding create_new
  create_identity fresh appeared = elim (ensure_dirs state os) [
    | err e ↦ (err e, appeared)
    | ok u ↦
        create_new (new_identity crypto ciphers fresh.signing fresh.key_id fresh.private fresh.now)
          appeared
  ]

  -- `IdentityFile::create_or_load`: the file when the call starts, and, where there was none, the
  -- file that another process has made by the time of the write
  unfoldable pub create_or_load_identity : Fresh → File → File → Result IdentityFile × File
  create_or_load_identity fresh (some bytes) appeared = load_identity fresh bytes
  create_or_load_identity fresh none appeared = create_identity fresh appeared

  -- `IdentityFile::write_replace_to`
  unfoldable pub write_replace_to : Text → IdentityFile → File → Result (Unit {0}) × File
  write_replace_to path identity file = elim (validate_identity crypto ciphers identity) [
    | err e ↦ (err e, file)
    | ok u ↦ write_to codec os path identity file
  ]
