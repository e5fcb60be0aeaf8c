-- ===== src/Core/Identity.antt =====
-- Identity files: `IdentityFile` of crates/aichan-core/src/identity.rs, but for its reads and writes.
-- Random keys and ids are arguments.
pub mod Laws
use ai_channel.Prelude.{
  ℕ, Bool, true, false, not, Option, none, some, List, ◌++◌, ◌==◌, length, if◌then◌else◌,
}
use ai_channel.Prelude.Text.{Text, text, text_eq, starts_with, decimal}
use ai_channel.Prelude.Result.{Result, ok, err, ◌>>=◌, ◌>>◌, map_err, ensure, context}
use ai_channel.Time.{DateTime}
use ai_channel.Protocol.Types.{PeerId}
use ai_channel.Protocol.External.{Crypto}
use ai_channel.Protocol.Verify.{derive_peer_id}
use ai_channel.Core.External.{Ciphers}
use ai_channel.Core.MessageCrypto.{MessageKeyPair, identity_error, generate, from_parts}

pub record IdentityFile : Type 0 where
  pub version : ℕ
  pub peer_id : PeerId
  pub public_key : Text
  pub private_key : Text
  pub private_key_encrypted : Bool
  pub message_key_id : Option Text
  pub message_public_key : Option Text
  pub message_private_key : Option Text
  pub created_at : DateTime

module _ (crypto : Crypto) where
  -- `decode_key::<32>`
  unfoldable pub decode_key : Text → Text → Result (List ℕ)
  decode_key encoded field = do
    bytes ←
        map_err
          (λ source. identity_error (text "invalid " ++ field ++ text " encoding: " ++ source))
          (crypto.decode_base64url encoded)
    ensure (length bytes == 32)
        (identity_error (field ++ text " must be 32 bytes, got " ++ decimal (length bytes)))
    ok bytes

  -- `IdentityFile::signing_key`: the bytes of the secret key
  unfoldable pub signing_key : IdentityFile → Result (List ℕ)
  unfolding decode_key
  signing_key identity = do
    ensure (not identity.private_key_encrypted)
        (identity_error (text "encrypted private keys are not supported by this CLI yet"))
    private_key ← decode_key identity.private_key (text "private_key")
    public_key ← decode_key identity.public_key (text "public_key")
    ensure (text_eq (crypto.public_key_of private_key) public_key)
        (identity_error (text "private_key does not match public_key"))
    ok private_key

module _ (crypto : Crypto) (ciphers : Ciphers) where
  -- `IdentityFile::message_key_pair`
  unfoldable pub message_key_pair : IdentityFile → Result MessageKeyPair
  message_key_pair identity = do
    key_id ← context identity.message_key_id (identity_error (text "missing message_key_id"))
    public_key ←
        context identity.message_public_key (identity_error (text "missing message_public_key"))
    private_key ←
        context identity.message_private_key (identity_error (text "missing message_private_key"))
    from_parts crypto ciphers key_id public_key private_key

  abbrev discard : Result MessageKeyPair → Result (Unit {0})
  discard (ok keys) = ok tt
  discard (err e) = err e

  -- the `match` on the three message key fields
  unfoldable pub check_message_keys : Option Text → Option Text → Option Text → Result (Unit {0})
  check_message_keys none none none = ok tt
  check_message_keys (some key_id) (some public_key) (some private_key) =
      discard (from_parts crypto ciphers key_id public_key private_key)
  check_message_keys _ _ _ =
      err (identity_error (text "message key fields must be all present or all absent"))

  -- the checks of `IdentityFile::validate` before that `match`
  unfoldable pub check_signing_keys : IdentityFile → Result (Unit {0})
  check_signing_keys identity = do
    ensure (identity.version == 1)
        (identity_error (text "unsupported version " ++ decimal identity.version))
    ensure (starts_with (text "peer_") identity.peer_id)
        (identity_error (text "peer_id must start with peer_"))
    public_key ← decode_key crypto identity.public_key (text "public_key")
    private_key ← decode_key crypto identity.private_key (text "private_key")
    verifying ←
        map_err (λ source. identity_error (text "invalid public_key: " ++ source))
          (crypto.verifying_key public_key)
    ensure (text_eq identity.peer_id (derive_peer_id crypto public_key))
        (identity_error (text "peer_id does not match public_key"))
    ensure
        (if identity.private_key_encrypted
          then true
          else text_eq (crypto.public_key_of private_key) public_key)
        (identity_error (text "private_key does not match public_key"))

  -- `IdentityFile::validate`
  unfoldable pub validate_identity : IdentityFile → Result (Unit {0})
  unfolding check_message_keys
  validate_identity identity = do
    check_signing_keys identity
    check_message_keys identity.message_key_id identity.message_public_key
        identity.message_private_key

  abbrev with_keys : MessageKeyPair → IdentityFile → IdentityFile
  with_keys keys identity = record identity {
    message_key_id = some keys.key_id;
    message_public_key = some keys.public_key;
    message_private_key = some keys.private_key;
  }

  -- `ensure_message_key_pair`, with the id and the random secret of the pair that it may generate
  unfoldable pub ensure_message_key_pair : Text → List ℕ → IdentityFile → Bool × IdentityFile
  ensure_message_key_pair key_id private identity = elim (message_key_pair identity) [
    | ok keys ↦ (false, identity)
    | err e ↦ (true, with_keys (generate crypto ciphers key_id private) identity)
  ]

  -- the identity that `create_or_load` makes
  unfoldable pub new_identity : List ℕ → Text → List ℕ → DateTime → IdentityFile
  new_identity signing key_id private now =
      let public_bytes = crypto.public_key_of signing in
      let keys = generate crypto ciphers key_id private in
      record {
        version = 1;
        peer_id = derive_peer_id crypto public_bytes;
        public_key = crypto.encode_base64url public_bytes;
        private_key = crypto.encode_base64url signing;
        private_key_encrypted = false;
        message_key_id = some keys.key_id;
        message_public_key = some keys.public_key;
        message_private_key = some keys.private_key;
        created_at = now;
      }
