-- ===== src/Core/Identity/Laws.antt =====
-- What a valid identity file is good for, and that a new one is valid.
use ai_channel.Prelude.{
  ℕ, ◌≡◌, refl, sym, ap, ◌∙◌, List, false, true, arith, length, inl, inr, ◌==◌,
}
use ai_channel.Prelude.Text.{
  Text, text, text_eq, text_eq_refl, text_eq→eq, starts_with, strip_prefix, trim, is_empty,
  text_eq_iff,
}
use ai_channel.Prelude.Result.{
  Result, ok, bind-ok, check-ok, ensure-ok, map_err, ensure, Result-cases,
}
use ai_channel.Time.{DateTime}
use ai_channel.Json.{Value}
use ai_channel.Protocol.Types.{protocol_id, UnsignedProtocolObject, SignedProtocolObject}
use ai_channel.Protocol.External.{Crypto, Codec}
use ai_channel.Protocol.Verify.{derive_peer_id, sign, verify_signature}
use ai_channel.Protocol.Laws.{IsSound, verify_signature-sign}
use ai_channel.Core.External.{Ciphers, IsSecure}
use ai_channel.Core.MessageCrypto.{MessageKeyPair, generate, from_parts}
use ai_channel.Core.MessageCrypto.Laws.{generate-IsValid}
use ai_channel.Core.Identity.{
  IdentityFile, decode_key, signing_key, message_key_pair, check_message_keys, check_signing_keys,
  validate_identity, with_keys, ensure_message_key_pair, new_identity,
}

-- the keys that a valid identity holds
pub record HoldsKeys (crypto : Crypto) (identity : IdentityFile) (public private : List ℕ)
    : Type 0 where
  pub public_decodes : decode_key crypto identity.public_key (text "public_key") ≡ ok public
  pub private_decodes : decode_key crypto identity.private_key (text "private_key") ≡ ok private
  pub belongs : identity.peer_id ≡ derive_peer_id crypto public
  pub matches : identity.private_key_encrypted ≡ false → crypto.public_key_of private ≡ public

module _ (crypto : Crypto) (ciphers : Ciphers) (identity : IdentityFile) where
  pub validate_identity-HoldsKeys :
      validate_identity crypto ciphers identity ≡ ok tt
      → (public : List ℕ) × (private : List ℕ) × HoldsKeys crypto identity public private
  unfolding validate_identity check_signing_keys
  validate_identity-HoldsKeys h =
      let (checked, rest) = check-ok (check_signing_keys crypto ciphers identity) _ tt h in
      let (version, h1) = check-ok (ensure (identity.version == 1) _) _ tt checked in
      let (prefix, h2) =
        check-ok (ensure (starts_with (text "peer_") identity.peer_id) _) _ tt h1 in
      let (public, e, h3) =
        bind-ok (decode_key crypto identity.public_key (text "public_key")) _ tt h2 in
      let (private, f, h4) =
        bind-ok (decode_key crypto identity.private_key (text "private_key")) _ tt h3 in
      let (verifying, v, h5) = bind-ok (map_err _ (crypto.verifying_key public)) _ tt h4 in
      let (named, h6) =
        check-ok (ensure (text_eq identity.peer_id (derive_peer_id crypto public)) _) _ tt h5 in
      (
        public,
        private,
        record {
          public_decodes = e;
          private_decodes = f;
          belongs =
              text_eq→eq identity.peer_id (derive_peer_id crypto public) (ensure-ok _ _ named);
          matches = λ plain.
              text_eq→eq (crypto.public_key_of private) public
                (ground (arith, plain, ensure-ok _ _ h6));
        },
      )

  -- A valid identity whose private key is not encrypted has a signing key, and its peer id is the one
  -- that is derived from the public key of it.
  pub signing_key-validate_identity :
      validate_identity crypto ciphers identity ≡ ok tt
      → identity.private_key_encrypted ≡ false
      → (key : List ℕ) × (signing_key crypto identity ≡ ok key)
        × (identity.peer_id ≡ derive_peer_id crypto (crypto.public_key_of key))
  unfolding signing_key
  signing_key-validate_identity h plain =
      let (public, private, k) = validate_identity-HoldsKeys h in
      (
        private,
        ground (
          arith,
          plain,
          k.private_decodes,
          k.public_decodes,
          k.matches plain,
          text_eq_refl public,
        ),
        k.belongs ∙ ap (derive_peer_id crypto) (sym (k.matches plain)),
      )

-- Whatever a valid identity, whose private key is not encrypted, signs without an error with its
-- signing key verifies for the peer id of the identity; where base64 and ed25519 keep their promises.
pub verify_signature-signing_key :
    (crypto : Crypto)
    → IsSound crypto
    → (ciphers : Ciphers) (identity : IdentityFile)
    → validate_identity crypto ciphers identity ≡ ok tt
    → identity.private_key_encrypted ≡ false
    → (codec : Codec) {T : Type 0} (to_value : UnsignedProtocolObject T → Result Value)
      (object : UnsignedProtocolObject T) (signed : SignedProtocolObject T) (key : List ℕ)
    → object.protocol ≡ protocol_id
    → signing_key crypto identity ≡ ok key
    → sign crypto codec to_value object key ≡ ok signed
    → verify_signature crypto codec to_value signed ≡ ok identity.peer_id
verify_signature-signing_key crypto sound ciphers identity valid plain codec to_value object signed
      key p opened h =
    let (private, e, belongs) = signing_key-validate_identity crypto ciphers identity valid plain in
    let same : private ≡ key = ground (arith, e, opened) in
    verify_signature-sign crypto sound codec to_value object key signed p h
    ∙ ap ok (sym (belongs ∙ ap (λ k. derive_peer_id crypto (crypto.public_key_of k)) same))

module _ (crypto : Crypto) (sound : IsSound crypto) (ciphers : Ciphers)
    (secure : IsSecure ciphers) where
  decode_encoded_key :
      (b : List ℕ) (field : Text)
      → length b ≡ 32
      → decode_key crypto (crypto.encode_base64url b) field ≡ ok b
  unfolding decode_key
  decode_encoded_key b field h = ground (arith, sound.decode_encode b, h)

  from_parts-generate :
      (key_id : Text) (private : List ℕ)
      → length private ≡ 32
      → is_empty (trim key_id) ≡ false
      → from_parts crypto ciphers key_id
          (generate crypto ciphers key_id private).public_key
          (generate crypto ciphers key_id private).private_key
        ≡ ok (generate crypto ciphers key_id private)
  unfolding from_parts generate
  from_parts-generate key_id private n named =
      ground (arith, generate-IsValid crypto ciphers sound secure key_id private n named)

  derived_prefix :
      (public : List ℕ) → starts_with (text "peer_") (derive_peer_id crypto public) ≡ true
  unfolding derive_peer_id starts_with strip_prefix text
  derived_prefix public = refl

  -- The identity that is made from 32 random bytes for each key, and a message key id that is not
  -- blank, is valid; where base64, ed25519 and X25519 keep their promises.
  pub new_identity-IsValid :
      (signing : List ℕ) (key_id : Text) (private : List ℕ) (now : DateTime)
      → length signing ≡ 32
      → length private ≡ 32
      → is_empty (trim key_id) ≡ false
      → validate_identity crypto ciphers (new_identity crypto ciphers signing key_id private now)
        ≡ ok tt
  unfolding validate_identity check_signing_keys new_identity check_message_keys generate
  new_identity-IsValid signing key_id private now n m named = ground (
    arith,
    derived_prefix (crypto.public_key_of signing),
    decode_encoded_key (crypto.public_key_of signing) (text "public_key")
        (sound.key_length signing),
    decode_encoded_key signing (text "private_key") n,
    sound.key_valid signing,
    text_eq_refl (derive_peer_id crypto (crypto.public_key_of signing)),
    text_eq_refl (crypto.public_key_of signing),
    from_parts-generate key_id private m named,
  )

  repaired_pair :
      (key_id : Text) (private : List ℕ) (identity : IdentityFile)
      → length private ≡ 32
      → is_empty (trim key_id) ≡ false
      → message_key_pair crypto ciphers
          (with_keys crypto ciphers (generate crypto ciphers key_id private) identity)
        ≡ ok (generate crypto ciphers key_id private)
  unfolding message_key_pair generate
  repaired_pair key_id private identity n named =
      ground (arith, from_parts-generate key_id private n named)

  repaired-IsValid :
      (key_id : Text) (private : List ℕ) (identity : IdentityFile)
      → length private ≡ 32
      → is_empty (trim key_id) ≡ false
      → validate_identity crypto ciphers identity ≡ ok tt
      → validate_identity crypto ciphers
          (with_keys crypto ciphers (generate crypto ciphers key_id private) identity)
        ≡ ok tt
  unfolding validate_identity check_signing_keys check_message_keys generate
  repaired-IsValid key_id private identity n named h =
      let (checked, rest) = check-ok (check_signing_keys crypto ciphers identity) _ tt h in
      ground (arith, checked, from_parts-generate key_id private n named)

  -- the repair keeps an identity valid
  pub ensure_message_key_pair-IsValid :
      (key_id : Text) (private : List ℕ) (identity : IdentityFile)
      → length private ≡ 32
      → is_empty (trim key_id) ≡ false
      → validate_identity crypto ciphers identity ≡ ok tt
      → validate_identity crypto ciphers
          (ensure_message_key_pair crypto ciphers key_id private identity).1
        ≡ ok tt
  unfolding ensure_message_key_pair
  ensure_message_key_pair-IsValid key_id private identity n named h =
      elim (Result-cases (message_key_pair crypto ciphers identity)) [
        | inl (keys, e) ↦ rw (ensure_message_key_pair, e) h
        | inr (m, e) ↦
            rw (ensure_message_key_pair, e) (repaired-IsValid key_id private identity n named h)
      ]

  -- an identity with a usable pair is not repaired
  pub not_repaired :
      (key_id : Text) (private : List ℕ) (identity : IdentityFile) (pair : MessageKeyPair)
      → message_key_pair crypto ciphers identity ≡ ok pair
      → ensure_message_key_pair crypto ciphers key_id private identity ≡ (false, identity)
  unfolding ensure_message_key_pair
  not_repaired key_id private identity pair e = rw (ensure_message_key_pair, e) refl

  -- what is not repaired is unchanged
  pub unchanged :
      (key_id : Text) (private : List ℕ) (identity after : IdentityFile)
      → ensure_message_key_pair crypto ciphers key_id private identity ≡ (false, after)
      → after ≡ identity
  unfolding ensure_message_key_pair
  unchanged key_id private identity after h =
      elim (Result-cases (message_key_pair crypto ciphers identity)) [
        | inl (keys, e) ↦ ground (arith, e, h)
        | inr (m, e) ↦ absurd (ground (arith, e, h))
      ]

  -- a new identity has a usable pair
  pub new_identity-pair :
      (signing : List ℕ) (key_id : Text) (private : List ℕ) (now : DateTime)
      → length private ≡ 32
      → is_empty (trim key_id) ≡ false
      → message_key_pair crypto ciphers (new_identity crypto ciphers signing key_id private now)
        ≡ ok (generate crypto ciphers key_id private)
  unfolding message_key_pair new_identity generate
  new_identity-pair signing key_id private now n named =
      ground (arith, from_parts-generate key_id private n named)

  -- After the repair an identity has a usable message key pair: the one that it had, and then the
  -- identity is unchanged, or the one that was generated, and then it had none.
  pub ensure_message_key_pair_lem :
      (key_id : Text) (private : List ℕ) (identity : IdentityFile)
      → length private ≡ 32
      → is_empty (trim key_id) ≡ false
      → (pair : MessageKeyPair) × (message_key_pair crypto ciphers
            (ensure_message_key_pair crypto ciphers key_id private identity).1
          ≡ ok pair)
        × (message_key_pair crypto ciphers identity ≡ ok pair
            → (ensure_message_key_pair crypto ciphers key_id private identity).1 ≡ identity)
  unfolding ensure_message_key_pair
  ensure_message_key_pair_lem key_id private identity n named =
      elim (Result-cases (message_key_pair crypto ciphers identity)) [
        | inl (keys, e) ↦ (
          keys,
          rw (ensure_message_key_pair, e, e) refl,
          λ same. rw (ensure_message_key_pair, e) refl,
        )
        | inr (m, e) ↦ (
          generate crypto ciphers key_id private,
          rw (ensure_message_key_pair, e) (repaired_pair key_id private identity n named),
          λ same. absurd (ground (arith, e, same)),
        )
      ]

-- the signing key belongs to the public key of the file
pub signing_key-public :
    (crypto : Crypto) (identity : IdentityFile) (key public : List ℕ)
    → signing_key crypto identity ≡ ok key
    → decode_key crypto identity.public_key (text "public_key") ≡ ok public
    → crypto.public_key_of key ≡ public
unfolding signing_key
signing_key-public crypto identity key public h p =
    elim (Result-cases (decode_key crypto identity.private_key (text "private_key"))) [
      | inr (e, d) ↦ absurd (ground (arith, d, h))
      | inl (private, d) ↦
          text_eq→eq (crypto.public_key_of key) public
            (ground (arith, d, p, h, text_eq_iff (crypto.public_key_of private) public))
    ]
