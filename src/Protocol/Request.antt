-- ===== src/Protocol/Request.antt =====
-- `RequestToSign` and `AichanRequestSignature` of crates/aichan-core/src/protocol.rs.
pub mod Laws
use ai_channel.Prelude.{ℕ, List, [], ◌∷◌, ◌++◌, ◌==◌, ◌&&◌, Bool, true, false, Option, none, some}
use ai_channel.Prelude.Text.{Text, text, text_eq, to_ascii_uppercase, as_bytes}
use ai_channel.Prelude.Result.{Result, ok, ◌>>=◌, ◌>>◌, map_err, ensure}
use ai_channel.Protocol.Types.{
  protocol_id, ed25519_alg, request_signature_domain, RequestToSign, AichanRequestSignature,
}
use ai_channel.Protocol.External.{Crypto, Codec}
use ai_channel.Protocol.Canonical.{protocol_error}
use ai_channel.Protocol.Verify.{derive_peer_id, decode_base64url_array}

-- `[...].join("\n")`
unfoldable pub join_lines : List Text → Text
join_lines [] = []
join_lines (line ∷ []) = line
join_lines (line ∷ next ∷ lines) = line ++ b'\n' ∷ join_lines (next ∷ lines)

abbrev pub or_empty : Option Text → Text
or_empty none = []
or_empty (some s) = s

-- `==` of `Option<String>`
unfoldable pub option_text_eq : Option Text → Option Text → Bool
option_text_eq none none = true
option_text_eq none (some t) = false
option_text_eq (some s) none = false
option_text_eq (some s) (some t) = text_eq s t

module _ (crypto : Crypto) (codec : Codec) where
  unfoldable pub body_sha256_base64url : RequestToSign → Text
  body_sha256_base64url request = crypto.encode_base64url (crypto.sha256 request.body)

  -- The lines that are signed.
  unfoldable pub request_lines : RequestToSign → List Text
  unfolding body_sha256_base64url
  request_lines request =
      request_signature_domain
      ∷ to_ascii_uppercase request.method
      ∷ request.path_and_query
      ∷ body_sha256_base64url request
      ∷ protocol_id
      ∷ request.peer_id
      ∷ request.public_key
      ∷ codec.format_timestamp_secs request.timestamp
      ∷ request.nonce
      ∷ or_empty request.idempotency_key
      ∷ []

  unfoldable pub request_signature_input : RequestToSign → Result (List ℕ)
  request_signature_input request = do
    public_key ← decode_base64url_array crypto 32 request.public_key (text "public_key")
    ensure (text_eq request.peer_id (derive_peer_id crypto public_key))
        (protocol_error (text "peer_id does not match public_key"))
    ok (as_bytes (join_lines (request_lines request)))

  -- `AichanRequestSignature::sign` with the secret key `key`
  unfoldable pub sign_request : RequestToSign → List ℕ → Result AichanRequestSignature
  sign_request request key = do
    ensure (text_eq (crypto.encode_base64url (crypto.public_key_of key)) request.public_key)
        (protocol_error (text "request public_key does not match signing key"))
    input ← request_signature_input request
    ok (record {
      protocol = protocol_id;
      alg = ed25519_alg;
      peer_id = request.peer_id;
      public_key = request.public_key;
      timestamp = request.timestamp;
      nonce = request.nonce;
      idempotency_key = request.idempotency_key;
      value = crypto.encode_base64url (crypto.sign key input);
    })

  -- the headers that the signature repeats
  unfoldable pub headers_match : AichanRequestSignature → RequestToSign → Bool
  headers_match signature request =
      text_eq signature.peer_id request.peer_id
      && text_eq signature.public_key request.public_key
      && signature.timestamp == request.timestamp
      && text_eq signature.nonce request.nonce
      && option_text_eq signature.idempotency_key request.idempotency_key

  -- `AichanRequestSignature::verify`
  unfoldable pub verify_request : AichanRequestSignature → RequestToSign → Result (Unit {0})
  verify_request signature request = do
    ensure (text_eq signature.protocol protocol_id)
        (protocol_error (text "unsupported protocol " ++ signature.protocol))
    ensure (text_eq signature.alg ed25519_alg)
        (protocol_error (text "unsupported signature algorithm " ++ signature.alg))
    ensure (headers_match signature request)
        (protocol_error (text "request signature headers do not match request"))
    public_key ← decode_base64url_array crypto 32 signature.public_key (text "public_key")
    ensure (text_eq signature.peer_id (derive_peer_id crypto public_key))
        (protocol_error (text "peer_id does not match public_key"))
    verifying_key ←
        map_err (λ source. protocol_error (text "invalid public_key: " ++ source))
          (crypto.verifying_key public_key)
    value ← decode_base64url_array crypto 64 signature.value (text "signature")
    input ← request_signature_input request
    map_err (λ source. protocol_error (text "invalid request signature: " ++ source))
        (crypto.verify verifying_key input value)
