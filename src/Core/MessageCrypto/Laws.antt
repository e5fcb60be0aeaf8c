-- ===== src/Core/MessageCrypto/Laws.antt =====
-- What is sealed for a key pair opens with it.
use ai_channel.Prelude.{ℕ, ◌≡◌, List, [], arith, length, inl, inr, false}
use ai_channel.Prelude.Text.{Text, text, text_eq_iff, text_eq_refl, trim, is_empty}
use ai_channel.Prelude.Result.{ok, err, Result-cases}
use ai_channel.Protocol.External.{Crypto}
use ai_channel.Protocol.Verify.{decode_base64url_array}
use ai_channel.Protocol.Laws.{IsSound, decode_encoded}
use ai_channel.Core.External.{Ciphers, IsSecure}
use ai_channel.Core.MessageCrypto.{
  MessageKeyPair, SealedPrivateMessage, message_encryption_suite, generate, validate_key_pair,
  derive_message_key, encrypt_private_message, decrypt_private_message,
}

module _ (crypto : Crypto) (ciphers : Ciphers) where
  -- a valid pair has a secret whose public key is the public one
  pub record HasSecret (keys : MessageKeyPair) (secret : List ℕ) : Type 0 where
    pub private_decodes :
        decode_base64url_array crypto 32 keys.private_key (text "message_private_key") ≡ ok secret
    pub public_decodes :
        (field : Text)
        → decode_base64url_array crypto 32 keys.public_key field
          ≡ ok (ciphers.x25519_public_key secret)

  decode_any_field :
      (encoded : Text) (field other : Text) (b : List ℕ)
      → decode_base64url_array crypto 32 encoded field ≡ ok b
      → decode_base64url_array crypto 32 encoded other ≡ ok b
  unfolding decode_base64url_array
  decode_any_field encoded field other b h = elim (Result-cases (crypto.decode_base64url encoded)) [
    | inl (bytes, e) ↦ ground (arith, e, h)
    | inr (m, e) ↦ absurd (ground (arith, e, h))
  ]

  public_of_valid :
      (keys : MessageKeyPair) (secret : List ℕ)
      → decode_base64url_array crypto 32 keys.private_key (text "message_private_key") ≡ ok secret
      → validate_key_pair crypto ciphers keys ≡ ok tt
      → decode_base64url_array crypto 32 keys.public_key (text "message_public_key")
        ≡ ok (ciphers.x25519_public_key secret)
  unfolding validate_key_pair
  public_of_valid keys secret e h =
      elim (Result-cases
        (decode_base64url_array crypto 32 keys.public_key (text "message_public_key"))) [
          | inl (public, p) ↦
              ground (arith, e, p, h, text_eq_iff (ciphers.x25519_public_key secret) public)
          | inr (m, p) ↦ absurd (ground (arith, e, p, h))
        ]

  private_of_valid :
      (keys : MessageKeyPair)
      → validate_key_pair crypto ciphers keys ≡ ok tt
      → (secret : List ℕ) × (decode_base64url_array crypto 32 keys.private_key
            (text "message_private_key")
          ≡ ok secret)
  unfolding validate_key_pair
  private_of_valid keys h =
      elim (Result-cases
        (decode_base64url_array crypto 32 keys.private_key (text "message_private_key"))) [
          | inl (secret, e) ↦ (secret, e)
          | inr (m, e) ↦ absurd (ground (arith, e, h))
        ]

  pub secret_of_valid :
      (keys : MessageKeyPair)
      → validate_key_pair crypto ciphers keys ≡ ok tt
      → (secret : List ℕ) × HasSecret keys secret
  secret_of_valid keys h =
      let (secret, e) = private_of_valid keys h in
      (
        secret,
        record {
          private_decodes = e;
          public_decodes = λ field.
              decode_any_field keys.public_key (text "message_public_key") field
                (ciphers.x25519_public_key secret) (public_of_valid keys secret e h);
        },
      )

  -- A pair that was generated from a secret of 32 bytes is valid, if its key id is not blank.
  pub generate-IsValid :
      IsSound crypto
      → IsSecure ciphers
      → (key_id : Text) (private : List ℕ) → length private ≡ 32
      → is_empty (trim key_id) ≡ false
      → validate_key_pair crypto ciphers (generate crypto ciphers key_id private) ≡ ok tt
  unfolding validate_key_pair generate
  generate-IsValid sound secure key_id private n named = ground (
    arith,
    named,
    decode_encoded crypto sound 32 private (text "message_private_key") n,
    decode_encoded crypto sound 32 (ciphers.x25519_public_key private) (text "message_public_key")
        (secure.public_length private),
    text_eq_refl (ciphers.x25519_public_key private),
  )

module _ (crypto : Crypto) (sound : IsSound crypto) (ciphers : Ciphers) (secure : IsSecure ciphers)
    (keys : MessageKeyPair) (plaintext aad ephemeral nonce secret key : List ℕ) where
  abbrev shared : List ℕ
  shared = ciphers.diffie_hellman ephemeral (ciphers.x25519_public_key secret)

  sealed_with : List ℕ → SealedPrivateMessage
  sealed_with ciphertext = record {
    suite = message_encryption_suite;
    recipient_key_id = keys.key_id;
    ephemeral_public_key = crypto.encode_base64url (ciphers.x25519_public_key ephemeral);
    nonce = crypto.encode_base64url nonce;
    ciphertext = crypto.encode_base64url ciphertext;
  }

  opens :
      (ciphertext : List ℕ)
      → HasSecret crypto ciphers keys secret
      → length nonce ≡ 12
      → derive_message_key crypto ciphers shared aad ≡ ok key
      → ciphers.encrypt key nonce [] plaintext ≡ ok ciphertext
      → decrypt_private_message crypto ciphers keys (sealed_with ciphertext) aad ≡ ok plaintext
  unfolding decrypt_private_message sealed_with
  opens ciphertext s n derived encrypted = ground (
    arith,
    text_eq_refl message_encryption_suite,
    text_eq_refl keys.key_id,
    s.private_decodes,
    decode_encoded crypto sound 32 (ciphers.x25519_public_key ephemeral)
        (text "ephemeral_public_key") (secure.public_length ephemeral),
    decode_encoded crypto sound 12 nonce (text "message_nonce") n,
    sound.decode_encode ciphertext,
    secure.agree secret ephemeral,
    derived,
    secure.decrypt_encrypt key nonce [] plaintext ciphertext encrypted,
  )

  sealed_result :
      (ciphertext : List ℕ) (sealed : SealedPrivateMessage)
      → HasSecret crypto ciphers keys secret
      → derive_message_key crypto ciphers shared aad ≡ ok key
      → ciphers.encrypt key nonce [] plaintext ≡ ok ciphertext
      → encrypt_private_message crypto ciphers keys.public_key keys.key_id plaintext aad ephemeral
          nonce
        ≡ ok sealed
      → sealed_with ciphertext ≡ sealed
  unfolding encrypt_private_message sealed_with
  sealed_result ciphertext sealed s derived encrypted h =
      ground (arith, s.public_decodes (text "recipient_public_key"), derived, encrypted, h)

-- A message that was sealed for the public key and the key id of a valid key pair, without an error
-- and with a nonce of twelve bytes, opens with that pair and the same associated data to what was
-- sealed; where base64, X25519 and the cipher keep their promises.
pub decrypt_private_message-encrypt_private_message :
    (crypto : Crypto)
    → IsSound crypto
    → (ciphers : Ciphers) → IsSecure ciphers
    → (keys : MessageKeyPair) (plaintext aad ephemeral nonce : List ℕ)
      (sealed : SealedPrivateMessage)
    → validate_key_pair crypto ciphers keys ≡ ok tt
    → length nonce ≡ 12
    → encrypt_private_message crypto ciphers keys.public_key keys.key_id plaintext aad ephemeral
        nonce
      ≡ ok sealed
    → decrypt_private_message crypto ciphers keys sealed aad ≡ ok plaintext
decrypt_private_message-encrypt_private_message crypto sound ciphers secure keys plaintext aad
      ephemeral nonce sealed valid n h =
    let (secret, s) = secret_of_valid crypto ciphers keys valid in
    let sh = ciphers.diffie_hellman ephemeral (ciphers.x25519_public_key secret) in
    elim (Result-cases (derive_message_key crypto ciphers sh aad)) [
      | inr (e, d) ↦ absurd (not_derived secret s e d)
      | inl (key, d) ↦ elim (Result-cases (ciphers.encrypt key nonce [] plaintext)) [
        | inr (e, c) ↦ absurd (not_encrypted secret s key e d c)
        | inl (ciphertext, c) ↦
            rw
              (← sealed_result crypto sound ciphers secure keys plaintext aad ephemeral nonce secret
                key ciphertext sealed s d c h)
              (opens crypto sound ciphers secure keys plaintext aad ephemeral nonce secret key
                ciphertext s n d c)
      ]
    ]
  where
    not_derived :
        (secret : List ℕ)
        → HasSecret crypto ciphers keys secret
        → (e : Text)
        → derive_message_key crypto ciphers
            (ciphers.diffie_hellman ephemeral (ciphers.x25519_public_key secret))
            aad
          ≡ err e
        → ⊥
    not_derived secret s e d =
        unfold encrypt_private_message in
        ground (arith, s.public_decodes (text "recipient_public_key"), d, h)

    not_encrypted :
        (secret : List ℕ)
        → HasSecret crypto ciphers keys secret
        → (key : List ℕ) (e : Text)
        → derive_message_key crypto ciphers
            (ciphers.diffie_hellman ephemeral (ciphers.x25519_public_key secret))
            aad
          ≡ ok key
        → ciphers.encrypt key nonce [] plaintext ≡ err e
        → ⊥
    not_encrypted secret s key e d c =
        unfold encrypt_private_message in
        ground (arith, s.public_decodes (text "recipient_public_key"), d, c, h)
