-- ===== src/Client/Compose/Laws.antt =====
-- What the client signs, the relay accepts and the recipient opens.
use ai_channel.Prelude.{
  ℕ, ◌≡◌, ◌≤◌, refl, ap, sym, ◌∙◌, false, some, List, arith, inl, inr, Option-cases, ◌+◌, ◌*◌,
}
use ai_channel.Prelude.Text.{Text, text, text_eq_refl, byte_len}
use ai_channel.Prelude.Result.{ok, Result-cases}
use ai_channel.Time.{DateTime, add_seconds, second}
use ai_channel.Protocol.Types.{PeerId, new_unsigned, unsigned}
use ai_channel.Protocol.External.{Crypto, Codec}
use ai_channel.Protocol.Verify.{sign, verify_message_envelope}
use ai_channel.Protocol.Laws.{IsSound, sign-SignedAs}
use ai_channel.Message.{
  MessageObject, returned, validate_message_envelope, max_message_ciphertext_bytes,
}
use ai_channel.Core.External.{Ciphers}
use ai_channel.Core.MessageCrypto.{SealedPrivateMessage, encrypt_private_message}
use ai_channel.Core.Identity.{IdentityFile, signing_key, validate_identity}
use ai_channel.Core.Identity.Laws.{verify_signature-signing_key}
use ai_channel.Client.External.{ClientCodec}
use ai_channel.Client.Compose.{
  MessageSeed, lifetime_seconds, unsigned_message, seal_message, build_message_envelope,
  plaintext_of, aad_of,
}

module _ (crypto : Crypto) (ciphers : Ciphers) (codec : Codec) (client : ClientCodec)
    (identity : IdentityFile) (recipient : PeerId) (body key_id public_key : Text)
    (seed : MessageSeed) (now : DateTime) (object : MessageObject) where
  -- the steps of a composition that returned
  pub record IsComposed : Type 0 where
    pub key : List ℕ
    pub sealed : SealedPrivateMessage
    pub in_time : add_seconds now lifetime_seconds ≡ some (now + lifetime_seconds * second)
    pub made :
        seal_message crypto ciphers codec client identity recipient body key_id public_key seed now
        ≡ ok (key, sealed)
    pub signed :
        sign crypto codec codec.unsigned_message_value
          (unsigned_message identity recipient sealed seed now (now + lifetime_seconds * second))
          key
        ≡ ok object

  pub build_message_envelope-IsComposed :
      build_message_envelope crypto ciphers codec client identity recipient body key_id public_key
          seed now
        ≡ returned (ok object)
      → IsComposed
  unfolding build_message_envelope add_seconds
  build_message_envelope-IsComposed h =
      elim (Result-cases (
        seal_message crypto ciphers codec client identity recipient body key_id public_key seed
          now)) [
            | inr (e, s) ↦ absurd (ground (arith, s, h))
            | inl ((key, sealed), s) ↦ elim (Option-cases (add_seconds now lifetime_seconds)) [
              | inl t ↦ absurd (ground (arith, s, t, h))
              | inr (expires_at, t) ↦
                  let at : now + lifetime_seconds * second ≡ expires_at = ground (arith, t) in
                  record {
                    key = key;
                    sealed = sealed;
                    in_time = t ∙ ap (λ x. some x) (sym at);
                    made = s;
                    signed = rw at (ground (arith, s, t, h));
                  }
            ]
          ]

  -- the key that signs is the identity's, and the plaintext is sealed
  pub composed_parts :
      (c : IsComposed)
      → (signing_key crypto identity ≡ ok c.key)
        × (encrypt_private_message crypto ciphers public_key key_id
              (plaintext_of codec body now)
              (aad_of crypto ciphers codec client identity recipient seed now)
              seed.ephemeral
              seed.nonce
            ≡ ok c.sealed)
  unfolding seal_message
  composed_parts c = elim (Result-cases (signing_key crypto identity)) [
    | inr (e, k) ↦ absurd (ground (arith, k, c.made))
    | inl (key, k) ↦
        elim (Result-cases (
          encrypt_private_message crypto ciphers public_key key_id (plaintext_of codec body now)
            (aad_of crypto ciphers codec client identity recipient seed now) seed.ephemeral
            seed.nonce)) [
              | inr (e, s) ↦ absurd (ground (arith, k, s, c.made))
              | inl (sealed, s) ↦ (ground (arith, k, s, c.made), ground (arith, k, s, c.made))
            ]
  ]

  pub composed_object :
      (c : IsComposed)
      → unsigned object
        ≡ unsigned_message identity recipient c.sealed seed now (now + lifetime_seconds * second)
  composed_object c =
      (sign-SignedAs crypto codec codec.unsigned_message_value _ c.key object c.signed).same

  -- the envelope verifies for the identity
  pub verify_composed :
      IsSound crypto
      → validate_identity crypto ciphers identity ≡ ok tt
      → identity.private_key_encrypted ≡ false
      → IsComposed
      → verify_message_envelope crypto codec object ≡ ok identity.peer_id
  unfolding verify_message_envelope unsigned new_unsigned
  verify_composed sound valid plain c =
      let o = composed_object c in
      let verified =
        verify_signature-signing_key crypto sound ciphers identity valid plain codec
          codec.unsigned_message_value _ object c.key refl (composed_parts c).0 c.signed in
      let type_is : object.object_type ≡ text "message.envelope" = ap (λ u. u.object_type) o in
      let sender_is : object.payload.sender ≡ identity.peer_id = ap (λ u. u.payload.sender) o in
      rw (type_is, sender_is)
        (ground
          (arith, verified, text_eq_refl (text "message.envelope"), text_eq_refl identity.peer_id))

  -- A message that the client builds with a valid identity, whose private key is not encrypted, and
  -- whose sealed text is within the relay's bound passes the relay's check for that identity's peer;
  -- where base64 and ed25519 keep their promises.
  pub validate_message_envelope-build_message_envelope :
      IsSound crypto
      → validate_identity crypto ciphers identity ≡ ok tt
      → identity.private_key_encrypted ≡ false
      → byte_len object.payload.ciphertext ≤ max_message_ciphertext_bytes
      → build_message_envelope crypto ciphers codec client identity recipient body key_id public_key
          seed now
        ≡ returned (ok object)
      → validate_message_envelope crypto codec object ≡ returned (ok identity.peer_id)
  unfolding validate_message_envelope unsigned new_unsigned
  validate_message_envelope-build_message_envelope sound valid plain short h =
      let c = build_message_envelope-IsComposed h in
      let o = composed_object c in
      let ttl : object.payload.ttl_seconds ≡ lifetime_seconds = ap (λ u. u.payload.ttl_seconds) o in
      let created : object.created_at ≡ now = ap (λ u. u.created_at) o in
      let expires : object.payload.expires_at ≡ now + lifetime_seconds * second =
        ap (λ u. u.payload.expires_at) o in
      ground (arith, verify_composed sound valid plain c, ttl, created, expires, c.in_time, short)
