-- ===== src/Core/BackupFile/Laws.antt =====
-- An encrypted backup opens with its phrase; the locator of a phrase is one that the server takes.
use ai_channel.Prelude.{ℕ, ◌≡◌, List, [], arith, length}
use ai_channel.Prelude.Text.{Text, text, text_eq_refl}
use ai_channel.Prelude.Result.{ok, bind-ok, check-ok, map_err-ok, map_err}
use ai_channel.Time.{DateTime}
use ai_channel.Protocol.External.{Crypto}
use ai_channel.Protocol.Laws.{IsSound, decode_encoded}
use ai_channel.Core.External.{Ciphers, IsSecure}
use ai_channel.Core.BackupFile.{
  BackupFile, BackupPayload, PayloadCodec, backup_file, validate_file, validate_payload,
  derive_backup_key, encrypt_backup, decrypt_backup, backup_encryption_suite, backup_kdf,
}

-- serde reads a payload back that it has written
abbrev pub ReadsBack : PayloadCodec → BackupPayload → Type 0
ReadsBack codec payload =
    (bytes : List ℕ) → codec.print payload ≡ ok bytes → codec.parse bytes ≡ ok payload

-- the steps of an encryption that returned
record IsSealed (crypto : Crypto) (ciphers : Ciphers) (codec : PayloadCodec)
    (payload : BackupPayload) (recovery_phrase : Text) (salt nonce : List ℕ) (now : DateTime)
    (backup : BackupFile) : Type 0 where
  key : List ℕ
  plaintext : List ℕ
  ciphertext : List ℕ
  valid : validate_payload crypto ciphers payload ≡ ok tt
  derived : derive_backup_key crypto ciphers recovery_phrase salt ≡ ok key
  printed : codec.print payload ≡ ok plaintext
  encrypted : ciphers.encrypt key nonce [] plaintext ≡ ok ciphertext
  made : backup_file crypto ciphers salt nonce now ciphertext ≡ backup

module _ (crypto : Crypto) (ciphers : Ciphers) (codec : PayloadCodec) (payload : BackupPayload)
    (recovery_phrase : Text) (salt nonce : List ℕ) (now : DateTime) (backup : BackupFile) where
  encrypt_backup-IsSealed :
      encrypt_backup crypto ciphers codec payload recovery_phrase salt nonce now ≡ ok backup
      → IsSealed crypto ciphers codec payload recovery_phrase salt nonce now backup
  unfolding encrypt_backup
  encrypt_backup-IsSealed h =
      let (valid, h1) = check-ok (validate_payload crypto ciphers payload) _ backup h in
      let (key, derived, h2) =
        bind-ok (derive_backup_key crypto ciphers recovery_phrase salt) _ backup h1 in
      let (plaintext, printed, h3) = bind-ok (map_err _ (codec.print payload)) _ backup h2 in
      let (ciphertext, encrypted, h4) =
        bind-ok (map_err _ (ciphers.encrypt key nonce [] plaintext)) _ backup h3 in
      record {
        key = key;
        plaintext = plaintext;
        ciphertext = ciphertext;
        valid = valid;
        derived = derived;
        printed = map_err-ok _ (codec.print payload) plaintext printed;
        encrypted = map_err-ok _ (ciphers.encrypt key nonce [] plaintext) ciphertext encrypted;
        made = ground arith;
      }

  opens :
      IsSound crypto
      → IsSecure ciphers
      → ReadsBack codec payload
      → length salt ≡ 16
      → length nonce ≡ 12
      → (s : IsSealed crypto ciphers codec payload recovery_phrase salt nonce now backup)
      → decrypt_backup crypto ciphers codec
          (backup_file crypto ciphers salt nonce now s.ciphertext)
          recovery_phrase
        ≡ ok payload
  unfolding decrypt_backup validate_file
  opens sound secure reads n16 n12 s = ground (
    arith,
    text_eq_refl backup_encryption_suite,
    text_eq_refl backup_kdf,
    decode_encoded crypto sound 16 salt (text "backup salt") n16,
    decode_encoded crypto sound 12 nonce (text "backup nonce") n12,
    sound.decode_encode s.ciphertext,
    s.derived,
    secure.decrypt_encrypt s.key nonce [] s.plaintext s.ciphertext s.encrypted,
    reads s.plaintext s.printed,
    s.valid,
  )

-- A backup that was encrypted without an error, with a salt of 16 bytes and a nonce of 12, decrypts
-- with the same recovery phrase to the same payload; where base64, the cipher and serde keep their
-- promises.
pub decrypt_backup-encrypt_backup :
    (crypto : Crypto)
    → IsSound crypto
    → (ciphers : Ciphers) → IsSecure ciphers
    → (codec : PayloadCodec) (payload : BackupPayload) → ReadsBack codec payload
    → (recovery_phrase : Text) (salt nonce : List ℕ) (now : DateTime) (backup : BackupFile)
    → length salt ≡ 16
    → length nonce ≡ 12
    → encrypt_backup crypto ciphers codec payload recovery_phrase salt nonce now ≡ ok backup
    → decrypt_backup crypto ciphers codec backup recovery_phrase ≡ ok payload
decrypt_backup-encrypt_backup crypto sound ciphers secure codec payload reads recovery_phrase salt
      nonce now backup n16 n12 h =
    let s =
      encrypt_backup-IsSealed crypto ciphers codec payload recovery_phrase salt nonce now backup
        h in
    rw (← s.made) (
      opens crypto ciphers codec payload recovery_phrase salt nonce now backup sound secure reads
        n16 n12 s)
