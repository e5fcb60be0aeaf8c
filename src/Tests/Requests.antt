-- ===== src/Tests/Requests.antt =====
-- Signed requests and the whole server at concrete inputs.
use ai_channel.Prelude.{◌≡◌, refl, []}
use ai_channel.Prelude.Text.{text, text_eq, byte_len, as_bytes}
use ai_channel.Prelude.Result.{ok}
use ai_channel.Time.{add_seconds}
use ai_channel.Http.{new_request}
use ai_channel.Protocol.Canonical.{object_signature_input, canonical_json_bytes}
use ai_channel.Protocol.Verify.{
  derive_peer_id, decode_base64url_array, verify_signature, verify_message_envelope,
}
use ai_channel.Protocol.Request.{
  sign_request, verify_request, headers_match, option_text_eq, request_signature_input,
}
use ai_channel.Protocol.Request.Laws.{verify_request_sound, verify_request-sign_request}
use ai_channel.Message.{validate_message_envelope}
use ai_channel.Server.Dispatch.{handle_request}
use ai_channel.Server.Integrity.Handlers.{IsValid, IsVerified, handle_request-IsVerified}
use ai_channel.Tests.Samples.{
  toy_crypto, toy_crypto-IsSound, toy_codec, alice, message_object, toy_external, toy_readings,
  toy_state, request_to_be_signed, request_signature, zero_key,
}

request_is_signed : sign_request toy_crypto toy_codec request_to_be_signed [] ≡ ok request_signature
unfolding sign_request request_signature_input derive_peer_id decode_base64url_array text text_eq
request_is_signed = refl

request_verifies :
    verify_request toy_crypto toy_codec request_signature request_to_be_signed ≡ ok tt
unfolding verify_request headers_match option_text_eq request_signature_input derive_peer_id
    decode_base64url_array text text_eq
request_verifies = refl

verify_request-sign_request_example :
    verify_request toy_crypto toy_codec request_signature request_to_be_signed ≡ ok tt
verify_request-sign_request_example =
    verify_request-sign_request toy_crypto toy_crypto-IsSound toy_codec request_to_be_signed []
      request_signature request_is_signed

key_is_decoded :
    decode_base64url_array toy_crypto 32 request_signature.public_key (text "public_key")
    ≡ ok zero_key
unfolding decode_base64url_array
key_is_decoded = refl

verify_request_sound_example :
    (request_signature.peer_id ≡ derive_peer_id toy_crypto zero_key)
    × (request_signature.peer_id ≡ request_to_be_signed.peer_id)
    × (request_signature.public_key ≡ request_to_be_signed.public_key)
    × (request_signature.timestamp ≡ request_to_be_signed.timestamp)
    × (request_signature.nonce ≡ request_to_be_signed.nonce)
    × (request_signature.idempotency_key ≡ request_to_be_signed.idempotency_key)
verify_request_sound_example =
    verify_request_sound toy_crypto toy_codec request_signature request_to_be_signed zero_key
      request_verifies key_is_decoded

stored_message-IsValid : IsValid toy_external (message_object 10)
unfolding validate_message_envelope add_seconds byte_len as_bytes text verify_message_envelope
    text_eq verify_signature decode_base64url_array object_signature_input canonical_json_bytes
    derive_peer_id
stored_message-IsValid = (alice, refl)

toy_state-IsVerified : IsVerified toy_external toy_state
toy_state-IsVerified = record { records = tt; messages = (stored_message-IsValid, tt) }

handle_request-IsVerified_example :
    IsVerified toy_external
      (handle_request toy_external toy_readings
        (new_request (text "POST") (text "/v1/messages"))
        toy_state).1
handle_request-IsVerified_example =
    handle_request-IsVerified toy_external toy_readings
      (new_request (text "POST") (text "/v1/messages")) toy_state toy_state-IsVerified
