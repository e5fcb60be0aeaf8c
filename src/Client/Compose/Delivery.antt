-- ===== src/Client/Compose/Delivery.antt =====
-- From the sender's text to the recipient's: `build_message_envelope` and the loop of `inbox`.
use ai_channel.Prelude.{ℕ, ◌≡◌, refl, ap, ◌∙◌, false, List, arith, length, ◌∷◌, []}
use ai_channel.Prelude.Text.{Text, text, text_eq_refl, compare_text, text_eq}
use ai_channel.Prelude.Result.{Result, ok}
use ai_channel.Time.{DateTime}
use ai_channel.Json.{Value, json_object, value_get, map_insert, map_get, number, pos_int, string}
use ai_channel.Protocol.Types.{
  PeerId, new_unsigned, unsigned, UnsignedProtocolObject, MessageEnvelopePayload,
}
use ai_channel.Protocol.External.{Crypto, Codec}
use ai_channel.Protocol.Laws.{IsSound}
use ai_channel.Message.{MessageObject, returned}
use ai_channel.Core.External.{Ciphers, IsSecure}
use ai_channel.Core.MessageCrypto.{
  MessageKeyPair, validate_key_pair, decrypt_private_message, message_encryption_aad,
}
use ai_channel.Core.MessageCrypto.Laws.{decrypt_private_message-encrypt_private_message}
use ai_channel.Core.Identity.{IdentityFile, validate_identity}
use ai_channel.Client.External.{ClientCodec}
use ai_channel.Client.Compose.{MessageSeed, plaintext_of, aad_of, build_message_envelope}
use ai_channel.Client.Compose.Laws.{
  build_message_envelope-IsComposed, composed_parts, composed_object, verify_composed,
}
use ai_channel.Client.Receive.{body_of, accept_record, open_message}

-- serde parses the JSON that it writes
abbrev pub ReadsBack : Codec → Value → Type 0
ReadsBack codec value = codec.parse_value (codec.to_vec value) ≡ ok value

-- the JSON that a message seals
abbrev pub plaintext_value : Codec → Text → DateTime → Value
plaintext_value codec body now = json_object (
    (text "version", number (pos_int 1))
    ∷ (text "body", string body)
    ∷ (text "sent_at", codec.timestamp_value now)
    ∷ [])

body_of-plaintext_value :
    (codec : Codec) (body : Text) (now : DateTime) → body_of (plaintext_value codec body now) ≡ body
unfolding body_of value_get json_object map_insert map_get compare_text text_eq text
body_of-plaintext_value codec body now = refl

module _ (crypto : Crypto) (sound : IsSound crypto) (ciphers : Ciphers) (secure : IsSecure ciphers)
    (codec : Codec) (client : ClientCodec) where
  -- what `open_message` decrypts, from the unsigned object
  decrypt_unsigned :
      MessageKeyPair → UnsignedProtocolObject MessageEnvelopePayload → Result (List ℕ)
  decrypt_unsigned keys u =
      decrypt_private_message crypto ciphers keys
        (record {
          suite = u.payload.encryption.suite;
          recipient_key_id = u.payload.encryption.recipient_key_id;
          ephemeral_public_key = u.payload.encryption.ephemeral_public_key;
          nonce = u.payload.encryption.nonce;
          ciphertext = u.payload.ciphertext;
        })
        (message_encryption_aad u.id u.payload.sender u.payload.recipient
          (client.to_rfc3339 u.created_at))

  opened_body :
      (keys : MessageKeyPair) (object : MessageObject) (body : Text) (now : DateTime)
      → ReadsBack codec (plaintext_value codec body now)
      → decrypt_unsigned keys (unsigned object) ≡ ok (plaintext_of codec body now)
      → open_message crypto ciphers codec client keys object ≡ ok body
  unfolding open_message decrypt_unsigned unsigned plaintext_of
  opened_body keys object body now reads h =
      ground (arith, h, reads, body_of-plaintext_value codec body now)

  -- A message that a valid identity, whose private key is not encrypted, sends to a peer for a valid
  -- key pair of that peer, with a nonce of twelve bytes, is accepted by the peer's `inbox` wherever
  -- serde reads it back, and opens with the pair to the text that was sent; where base64, ed25519,
  -- X25519, the cipher and serde keep their promises.
  pub open_message-build_message_envelope :
      (identity : IdentityFile) (recipient : PeerId) (keys : MessageKeyPair) (body : Text)
      (seed : MessageSeed) (now : DateTime) (object : MessageObject) (received : Value)
      → validate_identity crypto ciphers identity ≡ ok tt
      → identity.private_key_encrypted ≡ false
      → validate_key_pair crypto ciphers keys ≡ ok tt
      → length seed.nonce ≡ 12
      → ReadsBack codec (plaintext_value codec body now)
      → client.from_message_value received ≡ ok object
      → build_message_envelope crypto ciphers codec client identity recipient body keys.key_id
          keys.public_key seed now
        ≡ returned (ok object)
      → (accept_record crypto ciphers codec client recipient received ≡ ok object)
        × (open_message crypto ciphers codec client keys object ≡ ok body)
  unfolding accept_record unsigned new_unsigned decrypt_unsigned
  open_message-build_message_envelope identity recipient keys body seed now object received valid
        plain usable n reads parsed h =
      let c =
        build_message_envelope-IsComposed crypto ciphers codec client identity recipient body
          keys.key_id keys.public_key seed now object h in
      let o =
        composed_object crypto ciphers codec client identity recipient body keys.key_id
          keys.public_key seed now object c in
      let verified =
        verify_composed crypto ciphers codec client identity recipient body keys.key_id
          keys.public_key seed now object sound valid plain c in
      let sealed_text =
        (composed_parts crypto ciphers codec client identity recipient body keys.key_id
          keys.public_key seed now object c).1 in
      let opened =
        decrypt_private_message-encrypt_private_message crypto sound ciphers secure keys
          (plaintext_of codec body now)
          (aad_of crypto ciphers codec client identity recipient seed now) seed.ephemeral seed.nonce
          c.sealed usable n sealed_text in
      let recipient_is : object.payload.recipient ≡ recipient = ap (λ u. u.payload.recipient) o in
      (
        ground (arith, parsed, verified, recipient_is, text_eq_refl recipient),
        opened_body keys object body now reads (ap (decrypt_unsigned keys) o ∙ opened),
      )
