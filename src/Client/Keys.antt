-- ===== src/Client/Keys.antt =====
-- The message keys of recipients in crates/aichan/src/main.rs: the cache file, what is found in a
-- search answer, and which of them `send_message` uses.
pub mod Laws
use ai_channel.Prelude.{
  ℕ, Bool, not, ◌&&◌, Option, none, some, List, [], ◌∷◌, ◌++◌, ◌==◌, find, retain, if◌then◌else◌,
}
use ai_channel.Prelude.Text.{Text, text, text_eq, decimal}
use ai_channel.Prelude.Result.{Result, ok, err, ◌>>=◌, ◌>>◌, ensure}
use ai_channel.Time.{DateTime}
use ai_channel.Json.{Value, array, Items, nil, cons, value_get}
use ai_channel.Protocol.Types.{PeerId, MessageEncryptionKey}
use ai_channel.Protocol.External.{Crypto, Codec}
use ai_channel.Protocol.Verify.{verify_publish_record}
use ai_channel.Publish.Record.{PublishObject}
use ai_channel.Core.MessageCrypto.{message_encryption_suite}
use ai_channel.Client.External.{ClientCodec}

pub record CachedRecipientMessageKey : Type 0 where
  pub peer_id : Text
  pub suite : Text
  pub key_id : Text
  pub public_key : Text
  pub updated_at : DateTime

pub record RecipientKeyCacheFile : Type 0 where
  pub version : ℕ
  pub peers : List CachedRecipientMessageKey

-- `RecipientKeyCacheFile::default`
abbrev pub empty_cache : RecipientKeyCacheFile
empty_cache = record { version = 1; peers = [] }

-- the test of `find` and `retain`
abbrev pub is_key_of : PeerId → CachedRecipientMessageKey → Bool
is_key_of recipient peer =
    text_eq peer.peer_id recipient && text_eq peer.suite message_encryption_suite

-- The file of the cache: what it parses to, nothing where there is no file, an error where it cannot
-- be read or parsed.
abbrev pub CacheFile : Type 0
CacheFile = Option (Result RecipientKeyCacheFile)

-- the check of `read_recipient_key_cache`
abbrev check_cache : Result RecipientKeyCacheFile → Result RecipientKeyCacheFile
check_cache parsed = do
  cache ← parsed
  ensure (cache.version == 1)
      (text "unsupported recipient key cache version " ++ decimal cache.version)
  ok cache

unfoldable pub read_recipient_key_cache : CacheFile → Result RecipientKeyCacheFile
read_recipient_key_cache none = ok empty_cache
read_recipient_key_cache (some parsed) = check_cache parsed

abbrev pub key_pair_of : Option CachedRecipientMessageKey → Option (Text × Text)
key_pair_of none = none
key_pair_of (some peer) = some (peer.key_id, peer.public_key)

-- the key id and the public key
unfoldable pub cached_recipient_message_key : CacheFile → PeerId → Result (Option (Text × Text))
cached_recipient_message_key none recipient = ok none
cached_recipient_message_key (some parsed) recipient = do
  cache ← read_recipient_key_cache (some parsed)
  ok (key_pair_of (find (is_key_of recipient) cache.peers))

-- `unwrap_or_default`
abbrev pub or_empty : Result RecipientKeyCacheFile → RecipientKeyCacheFile
or_empty (ok cache) = cache
or_empty (err e) = empty_cache

-- the cache that `cache_recipient_message_key` writes
unfoldable pub cache_recipient_message_key : CacheFile → PeerId → Text → Text → DateTime → CacheFile
unfolding read_recipient_key_cache
cache_recipient_message_key file recipient key_id public_key now =
    let cache = or_empty (read_recipient_key_cache file) in
    let entry : CachedRecipientMessageKey = record {
      peer_id = recipient;
      suite = message_encryption_suite;
      key_id = key_id;
      public_key = public_key;
      updated_at = now;
    } in
    some (
      ok (record {
        version = 1;
        peers = retain (λ peer. not (is_key_of recipient peer)) cache.peers ++ entry ∷ [];
      }))

-- `value.get("records").and_then(as_array)`, flattened
abbrev pub items_list : Items → List Value
items_list nil = []
items_list (cons v vs) = v ∷ items_list vs

abbrev array_list : Option Value → List Value
array_list (some (array items)) = items_list items
array_list _ = []

unfoldable pub records_of : Value → List Value
records_of value = array_list (value_get (text "records") value)

-- the key of the first supported suite
unfoldable pub supported_key : PublishObject → Option MessageEncryptionKey
supported_key signed =
    find (λ key. text_eq key.suite message_encryption_suite)
      signed.payload.capabilities.message_encryption

module _ (crypto : Crypto) (codec : Codec) (client : ClientCodec) where
  -- a record that verifies for the recipient, and its key
  abbrev key_of_verified : PeerId → PublishObject → Result PeerId → Option MessageEncryptionKey
  key_of_verified recipient signed (err e) = none
  key_of_verified recipient signed (ok peer_id) =
      if text_eq peer_id recipient then supported_key signed else none

  abbrev key_of_parsed : PeerId → Result PublishObject → Option MessageEncryptionKey
  key_of_parsed recipient (err e) = none
  key_of_parsed recipient (ok signed) =
      key_of_verified recipient signed (verify_publish_record crypto codec signed)

  -- the body of the loop of `extract_recipient_message_key`
  unfoldable pub key_in_record : PeerId → Value → Option MessageEncryptionKey
  key_in_record recipient value = key_of_parsed recipient (client.from_publish_value value)

  unfoldable pub extract_from : PeerId → List Value → Result (Text × Text)
  extract_from recipient [] =
      err (text "could not find message encryption key for recipient " ++ recipient)
  extract_from recipient (value ∷ values) = elim (key_in_record recipient value) [
    | some key ↦ ok (key.key_id, key.public_key)
    | none ↦ extract_from recipient values
  ]

  unfoldable pub extract_recipient_message_key : Value → PeerId → Result (Text × Text)
  extract_recipient_message_key value recipient = extract_from recipient (records_of value)

  -- the key where the cache with it could be written, and the file that is there after it
  abbrev with_written :
      Option (Text × CacheFile) → Text × Text → CacheFile → Result (Text × Text) × CacheFile
  with_written none pair file = (ok pair, file)
  with_written (some (message, left)) pair file = (err message, left)

  -- Where the key of `send_message` comes from: the arguments, the cache or a search, and the cache
  -- that is left. What the search answers is an argument, and so is what comes of the writing of the
  -- file: nothing where it is written, else the error and the file that it leaves.
  unfoldable pub recipient_key :
      CacheFile
      → PeerId
      → Option Text
      → Option Text
      → Result Value
      → DateTime
      → Option (Text × CacheFile)
      → Result (Text × Text) × CacheFile
  recipient_key file recipient (some key_id) (some public_key) answer now failed =
      with_written failed (key_id, public_key)
        (cache_recipient_message_key file recipient key_id public_key now)
  recipient_key file recipient _ _ answer now failed =
      elim (cached_recipient_message_key file recipient) [
        | err e ↦ (err e, file)
        | ok (some pair) ↦ (ok pair, file)
        | ok none ↦ elim (answer >>= λ value. extract_recipient_message_key value recipient) [
          | err e ↦ (err e, file)
          | ok pair ↦
              with_written failed pair
                (cache_recipient_message_key file recipient pair.0 pair.1 now)
        ]
      ]
