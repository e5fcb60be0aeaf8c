-- ===== src/Client/Compose/Records.antt =====
-- A publish record that the client builds verifies, and offers the message key of its identity.
use ai_channel.Prelude.{
  ℕ, ◌≡◌, refl, ap, ◌∙◌, some, List, arith, inl, inr, ◌++◌, false, ◌∷◌, [], find, Bool,
}
use ai_channel.Prelude.Text.{Text, text, text_eq_refl, text_eq}
use ai_channel.Prelude.Result.{ok, Result-cases, bind-ok}
use ai_channel.Time.{DateTime}
use ai_channel.Protocol.Types.{MessageEncryptionKey, new_unsigned, unsigned}
use ai_channel.Protocol.External.{Crypto, Codec}
use ai_channel.Protocol.Verify.{decode_base64url_array, sign, verify_publish_record}
use ai_channel.Protocol.Laws.{IsSound, sign-SignedAs}
use ai_channel.Publish.Record.{PublishObject}
use ai_channel.Core.External.{Ciphers}
use ai_channel.Core.MessageCrypto.{MessageKeyPair, message_encryption_suite}
use ai_channel.Core.Identity.{
  IdentityFile, decode_key, signing_key, message_key_pair, validate_identity,
}
use ai_channel.Core.Identity.Laws.{
  validate_identity-HoldsKeys, verify_signature-signing_key, signing_key-public,
}
use ai_channel.Client.External.{ClientCodec}
use ai_channel.Client.Keys.{supported_key}
use ai_channel.Client.Compose.{publish_payload, build_publish_record}

-- the key that a pair is offered as
abbrev pub offered_key : MessageKeyPair → MessageEncryptionKey
offered_key pair = record {
  suite = message_encryption_suite;
  key_id = pair.key_id;
  public_key = pair.public_key;
}

abbrev is_supported : MessageEncryptionKey → Bool
is_supported key = text_eq key.suite message_encryption_suite

finds_offered :
    (pair : MessageKeyPair) → find is_supported (offered_key pair ∷ []) ≡ some (offered_key pair)
finds_offered pair = ground (arith, text_eq_refl message_encryption_suite)

-- base64 has one encoding of each list of bytes: the decoder refuses any other
abbrev pub IsCanonical : Crypto → Type 0
IsCanonical crypto =
    (encoded : Text) (bytes : List ℕ)
    → crypto.decode_base64url encoded ≡ ok bytes
    → crypto.encode_base64url bytes ≡ encoded

module _ (crypto : Crypto) (ciphers : Ciphers) (codec : Codec) (client : ClientCodec)
    (identity : IdentityFile) where
  decoded_key :
      (encoded field other : Text) (bytes : List ℕ)
      → decode_key crypto encoded field ≡ ok bytes
      → (crypto.decode_base64url encoded ≡ ok bytes)
        × (decode_base64url_array crypto 32 encoded other ≡ ok bytes)
  unfolding decode_key decode_base64url_array
  decoded_key encoded field other bytes h = elim (Result-cases (crypto.decode_base64url encoded)) [
    | inr (e, d) ↦ absurd (ground (arith, d, h))
    | inl (b, d) ↦ (ground (arith, d, h), ground (arith, d, h))
  ]

  module _ (body : Text) (tags : List Text) (uuid : Text) (now : DateTime)
      (object : PublishObject) where
    -- the steps of a record that was built
    record IsBuilt : Type 0 where
      pair : MessageKeyPair
      key : List ℕ
      usable : message_key_pair crypto ciphers identity ≡ ok pair
      opened : signing_key crypto identity ≡ ok key
      signed :
          sign crypto codec codec.unsigned_publish_value
            (new_unsigned
              (text "publish.record")
              (text "pub_" ++ uuid)
              now
              (publish_payload identity pair body tags now))
            key
          ≡ ok object

    build_publish_record-IsBuilt :
        build_publish_record crypto ciphers codec client identity body tags uuid now ≡ ok object
        → IsBuilt
    unfolding build_publish_record
    build_publish_record-IsBuilt h =
        let (pair, usable, h1) = bind-ok (message_key_pair crypto ciphers identity) _ object h in
        let (key, opened, h2) = bind-ok (signing_key crypto identity) _ object h1 in
        record { pair = pair; key = key; usable = usable; opened = opened; signed = h2 }

    built_verifies :
        IsSound crypto
        → IsCanonical crypto
        → validate_identity crypto ciphers identity ≡ ok tt
        → identity.private_key_encrypted ≡ false
        → IsBuilt
        → verify_publish_record crypto codec object ≡ ok identity.peer_id
    unfolding verify_publish_record unsigned new_unsigned
    built_verifies sound canonical valid plain b =
        let s = sign-SignedAs crypto codec codec.unsigned_publish_value _ b.key object b.signed in
        let o = s.same in
        let (public, private, k) = validate_identity-HoldsKeys crypto ciphers identity valid in
        let (raw, decoded) =
          decoded_key identity.public_key (text "public_key") (text "public_key") public
            k.public_decodes in
        let verified =
          verify_signature-signing_key crypto sound ciphers identity valid plain codec
            codec.unsigned_publish_value _ object b.key refl b.opened b.signed in
        let type_is : object.object_type ≡ text "publish.record" = ap (λ u. u.object_type) o in
        let peer_is : object.payload.peer_id ≡ identity.peer_id = ap (λ u. u.payload.peer_id) o in
        let key_is : object.payload.public_key ≡ identity.public_key =
          ap (λ u. u.payload.public_key) o in
        let signer_is : object.signature.public_key ≡ identity.public_key =
          s.signer
          ∙ ap crypto.encode_base64url
              (signing_key-public crypto identity b.key public b.opened k.public_decodes)
          ∙ canonical identity.public_key public raw in
        rw (type_is, peer_is, key_is, signer_is)
          (ground (
            arith,
            verified,
            decoded,
            text_eq_refl (text "publish.record"),
            text_eq_refl identity.public_key,
            text_eq_refl identity.peer_id,
            k.belongs,
          ))

    built_offers : (b : IsBuilt) → supported_key object ≡ some (offered_key b.pair)
    unfolding supported_key unsigned new_unsigned
    built_offers b =
        let o =
          (sign-SignedAs crypto codec codec.unsigned_publish_value _ b.key object b.signed).same in
        ap (λ u. find is_supported u.payload.capabilities.message_encryption) o
        ∙ finds_offered b.pair

    -- A record that the client builds with a valid identity, whose private key is not encrypted,
    -- verifies for the identity's peer and offers the message key pair of the identity to those who
    -- look for a key; where base64 and ed25519 keep their promises.
    pub verify_publish_record-build_publish_record :
        IsSound crypto
        → IsCanonical crypto
        → validate_identity crypto ciphers identity ≡ ok tt
        → identity.private_key_encrypted ≡ false
        → build_publish_record crypto ciphers codec client identity body tags uuid now ≡ ok object
        → (verify_publish_record crypto codec object ≡ ok identity.peer_id)
          × (pair : MessageKeyPair) × (message_key_pair crypto ciphers identity ≡ ok pair)
          × (supported_key object ≡ some (offered_key pair))
    verify_publish_record-build_publish_record sound canonical valid plain h =
        let b = build_publish_record-IsBuilt h in
        (built_verifies sound canonical valid plain b, b.pair, b.usable, built_offers b)
