-- ===== src/Core/Snapshot/Laws.antt =====
-- An encrypted snapshot passes the checks of its event, and opens with the identity that sealed it.
use ai_channel.Prelude.{ℕ, ◌≡◌, ◌+◌, ◌*◌, List, arith, length, inl, inr, some, Option-cases}
use ai_channel.Prelude.Text.{Text, text, text_eq_refl, starts_with, strip_prefix}
use ai_channel.Prelude.Result.{ok, bind-ok, check-ok, map_err-ok, map_err, Result-cases}
use ai_channel.Time.{DateTime, add_seconds, activity_ttl_seconds, second}
use ai_channel.Protocol.Types.{ActivityEvent}
use ai_channel.Protocol.External.{Crypto}
use ai_channel.Protocol.Laws.{IsSound, decode_encoded}
use ai_channel.Activity.Event.{
  activity_content_encoding, activity_encryption_suite, activity_kdf, validate_event,
}
use ai_channel.Message.{returned}
use ai_channel.Core.External.{Ciphers, IsSecure}
use ai_channel.Core.Memory.{MemoryFile, validate_memory}
use ai_channel.Core.Device.{DeviceId}
use ai_channel.Core.Identity.{IdentityFile}
use ai_channel.Core.Snapshot.{
  ActivityPayload, SnapshotCodec, derive_activity_key, activity_aad, new_payload, new_event_id,
  new_event, seal_snapshot, encrypt_activity_snapshot, decrypt_activity_snapshot,
}

-- serde reads a payload back that it has written
abbrev pub ReadsBack : SnapshotCodec → ActivityPayload → Type 0
ReadsBack codec payload =
    (bytes : List ℕ) → codec.print payload ≡ ok bytes → codec.parse bytes ≡ ok payload

module _ (crypto : Crypto) (ciphers : Ciphers) (codec : SnapshotCodec) (identity : IdentityFile)
    (device : DeviceId) (memory : MemoryFile) (uuid : Text) (salt nonce : List ℕ)
    (now : DateTime) where
  -- the steps of an encryption that returned
  record IsSealed (event : ActivityEvent) : Type 0 where
    key : List ℕ
    plaintext : List ℕ
    ciphertext : List ℕ
    valid : validate_memory memory ≡ ok tt
    derived : derive_activity_key crypto ciphers identity salt ≡ ok key
    printed : codec.print (new_payload memory now) ≡ ok plaintext
    encrypted :
        ciphers.encrypt key nonce (activity_aad codec (new_event_id uuid) device now) plaintext
        ≡ ok ciphertext
    made :
        new_event crypto uuid device now (now + activity_ttl_seconds * second) salt nonce ciphertext
        ≡ event

  returned_event :
      (event : ActivityEvent)
      → encrypt_activity_snapshot crypto ciphers codec identity device memory uuid salt nonce now
        ≡ returned (ok event)
      → (ciphertext : List ℕ) × (seal_snapshot crypto ciphers codec identity device memory uuid salt
            nonce now
          ≡ ok ciphertext)
        × (new_event crypto uuid device now
              (now + activity_ttl_seconds * second)
              salt
              nonce
              ciphertext
            ≡ event)
  unfolding encrypt_activity_snapshot add_seconds
  returned_event event h =
      elim (Result-cases
        (seal_snapshot crypto ciphers codec identity device memory uuid salt nonce now)) [
          | inr (e, f) ↦ absurd (ground (arith, f, h))
          | inl (ciphertext, f) ↦ elim (Option-cases (add_seconds now activity_ttl_seconds)) [
            | inl g ↦ absurd (ground (arith, f, g, h))
            | inr (t, g) ↦ (ciphertext, f, made ciphertext t f g)
          ]
        ]
    where
      made :
          (ciphertext : List ℕ) (t : DateTime)
          → seal_snapshot crypto ciphers codec identity device memory uuid salt nonce now
            ≡ ok ciphertext
          → add_seconds now activity_ttl_seconds ≡ some t
          → new_event crypto uuid device now
              (now + activity_ttl_seconds * second)
              salt
              nonce
              ciphertext
            ≡ event
      made ciphertext t f g = ground (arith, f, g, h)

  encrypt-IsSealed :
      (event : ActivityEvent)
      → encrypt_activity_snapshot crypto ciphers codec identity device memory uuid salt nonce now
        ≡ returned (ok event)
      → IsSealed event
  unfolding seal_snapshot
  encrypt-IsSealed event h =
      let (ciphertext, f, made) = returned_event event h in
      let (valid, h1) = check-ok (validate_memory memory) _ ciphertext f in
      let (plaintext, printed, h2) =
        bind-ok (map_err _ (codec.print (new_payload memory now))) _ ciphertext h1 in
      let (key, derived, h3) =
        bind-ok (derive_activity_key crypto ciphers identity salt) _ ciphertext h2 in
      record {
        key = key;
        plaintext = plaintext;
        ciphertext = ciphertext;
        valid = valid;
        derived = derived;
        printed = map_err-ok _ (codec.print (new_payload memory now)) plaintext printed;
        encrypted =
            map_err-ok _
              (ciphers.encrypt key nonce (activity_aad codec (new_event_id uuid) device now)
                plaintext)
              ciphertext h3;
        made = made;
      }

  -- The event of an encryption that returns passes the checks that the server makes of an event.
  pub validate_event-encrypt_activity_snapshot :
      (event : ActivityEvent)
      → encrypt_activity_snapshot crypto ciphers codec identity device memory uuid salt nonce now
        ≡ returned (ok event)
      → validate_event event ≡ ok tt
  unfolding validate_event starts_with strip_prefix text
  validate_event-encrypt_activity_snapshot event h = rw (← (encrypt-IsSealed event h).made) (
      ground (
        arith,
        text_eq_refl activity_content_encoding,
        text_eq_refl activity_encryption_suite,
        text_eq_refl activity_kdf,
      ))

  -- An event that `encrypt_activity_snapshot` made, with a salt of 16 bytes and a nonce of 12,
  -- decrypts with the same identity to the memory and the time that were encrypted; where base64, the
  -- cipher and serde keep their promises.
  pub decrypt_activity_snapshot-encrypt_activity_snapshot :
      IsSound crypto
      → IsSecure ciphers
      → ReadsBack codec (new_payload memory now)
      → (event : ActivityEvent) → length salt ≡ 16
      → length nonce ≡ 12
      → encrypt_activity_snapshot crypto ciphers codec identity device memory uuid salt nonce now
        ≡ returned (ok event)
      → decrypt_activity_snapshot crypto ciphers codec identity event ≡ ok (new_payload memory now)
  unfolding decrypt_activity_snapshot
  decrypt_activity_snapshot-encrypt_activity_snapshot sound secure reads event n16 n12 h =
      let s = encrypt-IsSealed event h in
      let valid : validate_event (
            new_event crypto uuid device now (now + activity_ttl_seconds * second) salt nonce
              s.ciphertext)
          ≡ ok tt =
        rw s.made (validate_event-encrypt_activity_snapshot event h) in
      rw (← s.made) (
        ground (
          arith,
          valid,
          decode_encoded crypto sound 16 salt (text "activity salt") n16,
          decode_encoded crypto sound 12 nonce (text "activity nonce") n12,
          sound.decode_encode s.ciphertext,
          s.derived,
          secure.decrypt_encrypt s.key nonce (activity_aad codec (new_event_id uuid) device now)
              s.plaintext s.ciphertext s.encrypted,
          reads s.plaintext s.printed,
          s.valid,
        ))
