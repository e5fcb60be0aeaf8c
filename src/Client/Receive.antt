-- ===== src/Client/Receive.antt =====
-- The loop of `inbox` in crates/aichan/src/main.rs over the records that the relay returned.
pub mod Laws
pub mod Losses
use ai_channel.Prelude.{Bool, Option, none, some, List, [], ◌∷◌, ◌++◌, any, if◌then◌else◌}
use ai_channel.Prelude.Text.{Text, text, text_eq}
use ai_channel.Prelude.Result.{Result, ok, err, ◌>>=◌, ◌>>◌, map_err, ensure}
use ai_channel.Time.{DateTime}
use ai_channel.Json.{Value, as_str, value_get}
use ai_channel.Protocol.Types.{PeerId}
use ai_channel.Protocol.External.{Crypto, Codec}
use ai_channel.Protocol.Verify.{verify_message_envelope}
use ai_channel.Message.{MessageObject}
use ai_channel.Core.External.{Ciphers}
use ai_channel.Core.MessageCrypto.{
  MessageKeyPair, SealedPrivateMessage, message_encryption_aad, decrypt_private_message,
}
use ai_channel.Core.LocalState.{LocalStateDir, inbox_cache_dir, peer_messages_path, join}
use ai_channel.Client.External.{ClientCodec}

pub record InboxMessage : Type 0 where
  pub id : Text
  pub sender : PeerId
  pub recipient : PeerId
  pub created_at : DateTime
  pub body : Text

-- The paths of the files of cached messages, and the complete log entries with the path of their log.
pub record InboxState : Type 0 where
  pub cached : List Text
  pub log : List (Text × MessageObject)

-- `cache_path.exists()`
abbrev pub is_cached : InboxState → Text → Bool
is_cached state path = any (text_eq path) state.cached

abbrev pub sealed_of : MessageObject → SealedPrivateMessage
sealed_of signed = record {
  suite = signed.payload.encryption.suite;
  recipient_key_id = signed.payload.encryption.recipient_key_id;
  ephemeral_public_key = signed.payload.encryption.ephemeral_public_key;
  nonce = signed.payload.encryption.nonce;
  ciphertext = signed.payload.ciphertext;
}

abbrev or_blank : Option Value → Text
or_blank none = []
or_blank (some value) = elim (as_str value) [ none ↦ [] | some t ↦ t ]

-- the body in the plaintext
unfoldable pub body_of : Value → Text
body_of value = or_blank (value_get (text "body") value)

unfoldable pub cache_path : LocalStateDir → MessageObject → Text
cache_path dir signed = join (inbox_cache_dir dir) (signed.id ++ text ".json")

-- What the writes of one message refuse: the directories, the cached message and the log, each with
-- what it leaves. A write of the cached message that fails may have created its file, empty or cut
-- short; a failure of the log may come before or after the entry is complete.
pub record WriteErrors : Type 0 where
  pub dirs : Option Text
  pub cache : Option (Text × Bool)
  pub log : Option (Text × Bool)

module _ (crypto : Crypto) (ciphers : Ciphers) (codec : Codec) (client : ClientCodec) where
  -- the part of the loop's body before the test of the cache
  unfoldable pub accept_record : PeerId → Value → Result MessageObject
  accept_record peer_id value = do
    signed ← client.from_message_value value
    sender ←
        map_err (λ source. text "message envelope verification failed for " ++ signed.id)
          (verify_message_envelope crypto codec signed)
    ensure (text_eq signed.payload.recipient peer_id) (
        text "message envelope recipient "
        ++ signed.payload.recipient
        ++ text " does not match local peer "
        ++ peer_id)
    ok signed

  -- the body of a message
  unfoldable pub open_message : MessageKeyPair → MessageObject → Result Text
  open_message message_keys signed = do
    plaintext ← decrypt_private_message crypto ciphers message_keys (sealed_of signed) (
        message_encryption_aad signed.id signed.payload.sender signed.payload.recipient
          (client.to_rfc3339 signed.created_at))
    value ← codec.parse_value plaintext
    ok (body_of value)

  abbrev pub message_of : MessageObject → Text → InboxMessage
  message_of signed body = record {
    id = signed.id;
    sender = signed.payload.sender;
    recipient = signed.payload.recipient;
    created_at = signed.created_at;
    body = body;
  }

  -- the cached message and the log entry, which `append_local_message_log` adds
  unfoldable pub store_message :
      LocalStateDir → WriteErrors → MessageObject → InboxState → Result (Unit {0}) × InboxState
  store_message dir errors signed state =
      let path = cache_path dir signed in
      let cached : InboxState = record state { cached = path ∷ state.cached } in
      let logged : InboxState = record cached {
        log = state.log ++ (peer_messages_path dir signed.payload.sender, signed) ∷ [];
      } in
      elim errors.dirs [
        | some e ↦ (err e, state)
        | none ↦ elim (client.print_message signed) [
          | err e ↦ (err e, state)
          | ok bytes ↦ elim errors.cache [
            | some (e, exists) ↦ (err e, if exists then cached else state)
            | none ↦ elim errors.log [
              | some (e, complete) ↦ (err e, if complete then logged else cached)
              | none ↦ (ok tt, logged)
            ]
          ]
        ]
      ]

  -- the rest of the loop's body, for a message that is not cached
  unfoldable pub take_message :
      LocalStateDir
      → WriteErrors
      → MessageKeyPair
      → MessageObject
      → InboxState
      → Result InboxMessage × InboxState
  unfolding open_message store_message
  take_message dir errors message_keys signed state = elim (open_message message_keys signed) [
    | err e ↦ (err e, state)
    | ok body ↦
        let (done, after) = store_message dir errors signed state in
        (done >> ok (message_of signed body), after)
  ]

  -- one round of the loop: nothing for a cached message
  unfoldable pub receive_record :
      LocalStateDir
      → WriteErrors
      → PeerId
      → MessageKeyPair
      → Value
      → InboxState
      → Result (Option InboxMessage) × InboxState
  unfolding take_message accept_record cache_path
  receive_record dir errors peer_id message_keys value state = elim (accept_record peer_id value) [
    | err e ↦ (err e, state)
    | ok signed ↦
        let (taken, after) = take_message dir errors message_keys signed state in
        if is_cached state (cache_path dir signed)
        then (ok none, state)
        else (taken >>= λ message. ok (some message), after)
  ]

  abbrev pub with_message : Option InboxMessage → List InboxMessage → List InboxMessage
  with_message none messages = messages
  with_message (some message) messages = message ∷ messages

  -- The loop; the first error ends it, and the messages before it are not printed.
  unfoldable pub receive_all :
      LocalStateDir
      → WriteErrors
      → PeerId
      → MessageKeyPair
      → List Value
      → InboxState
      → Result (List InboxMessage) × InboxState
  unfolding receive_record
  receive_all dir errors peer_id message_keys [] state = (ok [], state)
  receive_all dir errors peer_id message_keys (value ∷ values) state =
      let (received, after) = receive_record dir errors peer_id message_keys value state in
      let rest = receive_all dir errors peer_id message_keys values after in
      elim received [
        | err e ↦ (err e, after)
        | ok message ↦ (rest.0 >>= λ messages. ok (with_message message messages), rest.1)
      ]
