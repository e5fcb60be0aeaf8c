-- ===== src/Client/Backups/Laws.antt =====
-- What a restore leaves in the state directory.
use ai_channel.Protocol.Types.{PeerId}
use ai_channel.Prelude.{
  ◌≡◌, refl, ap, sym, ◌∙◌, Option, none, some, arith, inl, inr, Option-cases, not, ◌&&◌, Bool,
  Bool-cases, false,
}
use ai_channel.Prelude.Text.{Text}
use ai_channel.Prelude.Result.{Result, ok, Result-cases}
use ai_channel.Time.{DateTime}
use ai_channel.Protocol.External.{Crypto}
use ai_channel.Core.External.{Ciphers}
use ai_channel.Core.Config.{AichanConfig}
use ai_channel.Core.Device.{DeviceFile}
use ai_channel.Core.Identity.{IdentityFile, validate_identity}
use ai_channel.Core.BackupFile.{BackupPayload, BackupFile, decrypt_backup}
use ai_channel.Core.LocalState.{
  LocalStateDir, File, Refusals, ensure_dirs, identity_path, write_to, write_bytes,
}
use ai_channel.Core.LocalState.Laws.{ReadsBack, read_from-print}
use ai_channel.Core.LocalState.Identities.{read_identity, write_replace_to}
use ai_channel.Client.Steps.{Step, ◌>>=◌, pure}
use ai_channel.Client.Backups.{
  Files, Codecs, RestoreSource, put_identity, put_memory, put_config, fresh_device, put_metadata,
  get_metadata, restored_metadata, restore_payload, backup_restore, restore_target_has_local_state,
  restore_found,
}

-- the steps of a chain that succeeded
pub step-ok :
    {S A B : Type 0} (first : Step S A) (rest : A → Step S B) (state after : S) (b : B)
    → (first >>= rest) state ≡ (ok b, after)
    → (a : A) × ((first state).0 ≡ ok a) × (rest a (first state).1 ≡ (ok b, after))
step-ok first rest state after b h = elim (Result-cases (first state).0) [
  | inr (e, f) ↦ absurd (ground (arith, f, h))
  | inl (a, f) ↦ (a, f, ground (arith, f, h))
]

module _ (crypto : Crypto) (ciphers : Ciphers) (codecs : Codecs) (dir : LocalStateDir)
    (os : Refusals) where
  abbrev written_identity : IdentityFile → File → Result (Unit {0}) × File
  written_identity identity file =
      write_replace_to crypto ciphers codecs.identity dir os (identity_path dir) identity file

  put_config-identity :
      (config : Option AichanConfig) (files : Files)
      → (put_config crypto ciphers codecs dir os config files).1.identity ≡ files.identity
  put_config-identity none files = refl
  put_config-identity (some config) files = refl

  restore_payload-identity :
      (payload : BackupPayload) (source : RestoreSource) (uuid : Text) (now : DateTime)
      (files after : Files) (device : DeviceFile)
      → restore_payload crypto ciphers codecs dir os payload source uuid now files
        ≡ (ok device, after)
      → ((written_identity payload.identity files.identity).0 ≡ ok tt)
        × (after.identity ≡ (written_identity payload.identity files.identity).1)
  unfolding restore_payload
  restore_payload-identity payload source uuid now files after device h =
      let (u, e, h1) = step-ok (pure (ensure_dirs dir os)) _ files after device h in
      let (v, w, h2) =
        step-ok (put_identity crypto ciphers codecs dir os payload.identity) _ files after device
          h1 in
      let s1 = (put_identity crypto ciphers codecs dir os payload.identity files).1 in
      let (x, m, h3) =
        step-ok (put_memory crypto ciphers codecs dir os payload.memory) _ s1 after device h2 in
      let s2 = (put_memory crypto ciphers codecs dir os payload.memory s1).1 in
      let (y, c, h4) =
        step-ok (put_config crypto ciphers codecs dir os payload.config) _ s2 after device h3 in
      let s3 = (put_config crypto ciphers codecs dir os payload.config s2).1 in
      let (d, f, h5) =
        step-ok (fresh_device crypto ciphers codecs dir os uuid now) _ s3 after device h4 in
      let s4 = (fresh_device crypto ciphers codecs dir os uuid now s3).1 in
      let (g, n, h6) = step-ok (get_metadata crypto ciphers codecs dir os) _ s4 after device h5 in
      let metadata = restored_metadata source now payload.peer_id g in
      let (z, p, h7) =
        step-ok (put_metadata crypto ciphers codecs dir os metadata) _ s4 after device h6 in
      (w, sym (ap (λ r. r.1.identity) h7) ∙ put_config-identity payload.config s2)

  -- an identity that was written is valid, and is read back
  written_identity-reads :
      (later : Refusals) (identity : IdentityFile) (file : File)
      → ReadsBack codecs.identity identity
      → later.read ≡ none
      → (written_identity identity file).0 ≡ ok tt
      → read_identity crypto ciphers codecs.identity dir later (written_identity identity file).1
        ≡ ok identity
  unfolding write_replace_to write_to write_bytes
  written_identity-reads later identity file reads readable h =
      elim (Result-cases (validate_identity crypto ciphers identity)) [
        | inr (e, v) ↦ absurd (ground (arith, v, h))
        | inl (u, v) ↦ elim (Result-cases (codecs.identity.print identity)) [
          | inr (e, p) ↦ absurd (ground (arith, v, p, h))
          | inl (bytes, p) ↦ elim (Option-cases os.write) [
            | inr (failure, w) ↦ absurd (ground (arith, v, p, w, h))
            | inl w ↦
                let is_bytes : (written_identity identity file).1 ≡ some bytes =
                  ground (arith, v, p, w) in
                ap (read_identity crypto ciphers codecs.identity dir later) is_bytes
                ∙ read_from-print codecs.identity (identity_path dir)
                    (validate_identity crypto ciphers) later identity bytes reads readable p v
          ]
        ]
      ]

  module _ (force : Bool) (phrase : Result Text)
      (find_backup : Text → Result (BackupFile × RestoreSource)) (uuid : Text)
      (now : DateTime) where
    abbrev reported : PeerId → DeviceFile → Step Files (PeerId × DeviceFile)
    reported peer_id device = pure (ok (peer_id, device))

    -- the end of the chain, once the payload is decrypted
    finished :
        (payload : BackupPayload) (source : RestoreSource) (files after : Files) (peer_id : PeerId)
        (device : DeviceFile)
        → (restore_payload crypto ciphers codecs dir os payload source uuid now
              >>= reported payload.peer_id)
            files
          ≡ (ok (peer_id, device), after)
        → (peer_id ≡ payload.peer_id)
          × ((written_identity payload.identity files.identity).0 ≡ ok tt)
          × (after.identity ≡ (written_identity payload.identity files.identity).1)
    finished payload source files after peer_id device h =
        let step = restore_payload crypto ciphers codecs dir os payload source uuid now in
        let result : PeerId × DeviceFile = (peer_id, device) in
        let (dev, r, h4) = step-ok step (reported payload.peer_id) files after result h in
        let same : (step files).1 ≡ after = ap (λ x. x.1) h4 in
        let (w, i) =
          restore_payload-identity payload source uuid now files after dev
            (ap (λ x. (x, (step files).1)) r ∙ ap (λ f. (ok dev, f)) same) in
        (ground (arith, h4), w, i)

    -- the end of a restore that was not refused
    not_refused :
        (files after : Files) (peer_id : PeerId) (device : DeviceFile)
        → backup_restore crypto ciphers codecs dir os force phrase find_backup uuid now files
          ≡ (ok (peer_id, device), after)
        → ((restore_target_has_local_state files && not force) ≡ false)
          × (restore_found crypto ciphers codecs dir os phrase find_backup uuid now files
              ≡ (ok (peer_id, device), after))
    unfolding backup_restore
    not_refused files after peer_id device h =
        elim (Bool-cases (restore_target_has_local_state files && not force)) [
          | inl refused ↦ absurd (ground (arith, refused, h))
          | inr allowed ↦ (allowed, ground (arith, allowed, h))
        ]

    -- A restore that succeeds was forced or found no state in the directory, reports the peer of the
    -- payload that the backup decrypts to, and leaves an identity file that every later run loads as
    -- the payload's identity, where the system lets it read and serde reads back what it has written.
    pub backup_restore-read_identity :
        (payload : BackupPayload)
        → ReadsBack codecs.identity payload.identity
        → (recovery_phrase : Text) (backup : BackupFile) (source : RestoreSource)
        → phrase ≡ ok recovery_phrase
        → find_backup recovery_phrase ≡ ok (backup, source)
        → decrypt_backup crypto ciphers codecs.payload backup recovery_phrase ≡ ok payload
        → (later : Refusals) (files after : Files) (peer_id : PeerId) (device : DeviceFile)
        → later.read ≡ none
        → backup_restore crypto ciphers codecs dir os force phrase find_backup uuid now files
          ≡ (ok (peer_id, device), after)
        → ((restore_target_has_local_state files && not force) ≡ false)
          × (peer_id ≡ payload.peer_id)
          × (read_identity crypto ciphers codecs.identity dir later after.identity
              ≡ ok payload.identity)
    unfolding restore_found
    backup_restore-read_identity payload reads recovery_phrase backup source p f d later files after
          peer_id device readable h =
        let (allowed, chain) = not_refused files after peer_id device h in
        let (same, w, i) =
          finished payload source files after peer_id device (ground (arith, p, f, d, chain)) in
        (
          allowed,
          same,
          ap (read_identity crypto ciphers codecs.identity dir later) i
              ∙ written_identity-reads later payload.identity files.identity reads readable w,
        )
