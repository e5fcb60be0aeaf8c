-- ===== src/Auth/Headers.antt =====
-- `request_signature_from_headers` of crates/aichan-server/src/lib.rs, and the request that its
-- handlers check the signature against.
use ai_channel.Prelude.{not}
use ai_channel.Prelude.Text.{text, trim, is_empty}
use ai_channel.Prelude.Result.{Result, ok, ◌>>=◌, ◌>>◌, ensure, map_err}
use ai_channel.Http.{HttpRequest, header, required_header}
use ai_channel.Protocol.Types.{RequestToSign, AichanRequestSignature}
use ai_channel.Protocol.External.{Codec}
use ai_channel.Protocol.Verify.{parse_peer_id}

module _ (codec : Codec) where
  unfoldable pub request_signature_from_headers : HttpRequest → Result AichanRequestSignature
  request_signature_from_headers request = do
    protocol ← required_header request (text "Aichan-Protocol")
    claimed ← required_header request (text "Aichan-Peer-Id")
    peer_id ← parse_peer_id claimed
    public_key ← required_header request (text "Aichan-Public-Key")
    time ← required_header request (text "Aichan-Timestamp")
    timestamp ← map_err (λ _. text "invalid Aichan-Timestamp") (codec.parse_from_rfc3339 time)
    nonce ← required_header request (text "Aichan-Nonce")
    ensure (not (is_empty (trim nonce))) (text "empty Aichan-Nonce header")
    value ← required_header request (text "Aichan-Signature")
    ok (record {
      protocol = protocol;
      alg = text "ed25519";
      peer_id = peer_id;
      public_key = public_key;
      timestamp = timestamp;
      nonce = nonce;
      idempotency_key = header request (text "Idempotency-Key");
      value = value;
    })

-- the `to_sign` of `get_inbox` and of `delete_publish_record`
unfoldable pub request_to_sign : HttpRequest → AichanRequestSignature → RequestToSign
request_to_sign request signature = record {
  method = request.method;
  path_and_query = request.path_and_query;
  body = request.body;
  peer_id = signature.peer_id;
  public_key = signature.public_key;
  timestamp = signature.timestamp;
  nonce = signature.nonce;
  idempotency_key = signature.idempotency_key;
}
