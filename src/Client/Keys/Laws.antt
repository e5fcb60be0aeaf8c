-- ===== src/Client/Keys/Laws.antt =====
-- The cache returns what was cached, and a key that is found in a search answer is one that its owner
-- has signed.
use ai_channel.Prelude.{
  Bool, ◌≡◌, refl, ap, All, ◌∙◌, true, false, not, Option, none, some, List, [], ◌∷◌, ◌++◌, find,
  retain, Bool-cases, Option-cases, inl, inr, arith,
}
use ai_channel.Prelude.Text.{Text, text, text_eq, text_eq_refl, text_eq→eq}
use ai_channel.Prelude.Result.{ok, Result-cases}
use ai_channel.Time.{DateTime}
use ai_channel.Json.{Value, Items, null, bool, number, string, array, object, value_get}
use ai_channel.Protocol.Types.{PeerId, MessageEncryptionKey}
use ai_channel.Protocol.External.{Crypto, Codec}
use ai_channel.Protocol.Verify.{verify_publish_record}
use ai_channel.Publish.Record.{PublishObject}
use ai_channel.Core.MessageCrypto.{message_encryption_suite}
use ai_channel.Client.External.{ClientCodec}
use ai_channel.Client.Keys.{
  CachedRecipientMessageKey, CacheFile, is_key_of, read_recipient_key_cache,
  cached_recipient_message_key, cache_recipient_message_key, supported_key, key_in_record,
  extract_from, extract_recipient_message_key, records_of, items_list, key_pair_of, or_empty,
}

find_dropped :
    {A : Type 0} (p : A → Bool) (e : A) (xs : List A)
    → p e ≡ true
    → find p (retain (λ x. not (p x)) xs ++ e ∷ []) ≡ some e
find_dropped p e [] h = ground (arith, h)
find_dropped p e (x ∷ xs) h = elim (Bool-cases (p x)) [
  | inl a ↦ ground (arith, a, find_dropped p e xs h)
  | inr a ↦ ground (arith, a, find_dropped p e xs h)
]

find_other :
    {A : Type 0} (p q : A → Bool) (e : A) (xs : List A)
    → ((x : A) → q x ≡ true → p x ≡ false)
    → p e ≡ true
    → find q (retain (λ x. not (p x)) xs ++ e ∷ []) ≡ find q xs
find_other p q e [] apart h = elim (Bool-cases (q e)) [
  | inl b ↦ absurd (ground (arith, apart e b, h))
  | inr b ↦ ground (arith, b)
]
find_other p q e (x ∷ xs) apart h = elim (Bool-cases (q x)) [
  | inl b ↦ ground (arith, b, apart x b)
  | inr b ↦ ground (arith, b, find_other p q e xs apart h)
]

keys_apart :
    (recipient other : PeerId)
    → text_eq other recipient ≡ false
    → (peer : CachedRecipientMessageKey) → is_key_of other peer ≡ true
    → is_key_of recipient peer ≡ false
keys_apart recipient other different peer h =
    let same : peer.peer_id ≡ other = text_eq→eq peer.peer_id other (ground (arith, h)) in
    let apart : text_eq peer.peer_id recipient ≡ false =
      ap (λ t. text_eq t recipient) same ∙ different in
    ground (arith, apart)

abbrev entry_of : PeerId → Text → Text → DateTime → CachedRecipientMessageKey
entry_of recipient key_id public_key now = record {
  peer_id = recipient;
  suite = message_encryption_suite;
  key_id = key_id;
  public_key = public_key;
  updated_at = now;
}

entry_of-is_key_of :
    (recipient : PeerId) (key_id public_key : Text) (now : DateTime)
    → is_key_of recipient (entry_of recipient key_id public_key now) ≡ true
entry_of-is_key_of recipient key_id public_key now =
    ground (arith, text_eq_refl recipient, text_eq_refl message_encryption_suite)

-- what the cache says of a peer, from the entries that it is read to
found_before :
    (file : CacheFile) (other : PeerId) (found : Option (Text × Text))
    → cached_recipient_message_key file other ≡ ok found
    → key_pair_of (find (is_key_of other) (or_empty (read_recipient_key_cache file)).peers) ≡ found
unfolding cached_recipient_message_key read_recipient_key_cache
found_before none other found h = ground arith
found_before (some parsed) other found h =
    elim (Result-cases (read_recipient_key_cache (some parsed))) [
      | inr (e, r) ↦ absurd (ground (arith, r, h))
      | inl (cache, r) ↦ ground (arith, r, h)
    ]

-- After a key was cached for a recipient, the cache returns that key for the recipient; and for every
-- other recipient it returns what it returned before, where the cache file could be read.
pub cached_recipient_message_key-cache_recipient_message_key :
    (file : CacheFile) (recipient : PeerId) (key_id public_key : Text) (now : DateTime)
    → (cached_recipient_message_key
          (cache_recipient_message_key file recipient key_id public_key now)
          recipient
        ≡ ok (some (key_id, public_key)))
      × ((other : PeerId) (found : Option (Text × Text))
          → text_eq other recipient ≡ false
          → cached_recipient_message_key file other ≡ ok found
          → cached_recipient_message_key
              (cache_recipient_message_key file recipient key_id public_key now)
              other
            ≡ ok found)
unfolding cached_recipient_message_key cache_recipient_message_key read_recipient_key_cache
cached_recipient_message_key-cache_recipient_message_key file recipient key_id public_key now =
    let entry = entry_of recipient key_id public_key now in
    let is_entry = entry_of-is_key_of recipient key_id public_key now in
    let peers = (or_empty (read_recipient_key_cache file)).peers in
    (
      ap (λ o. ok (key_pair_of o)) (find_dropped (is_key_of recipient) entry peers is_entry),
      λ other found different h.
          ap (λ o. ok (key_pair_of o))
            (find_other (is_key_of recipient) (is_key_of other) entry peers
              (keys_apart recipient other different) is_entry)
          ∙ ap ok (found_before file other found h),
    )

find-IsOffered :
    (keys : List MessageEncryptionKey) (key : MessageEncryptionKey)
    → find (λ k. text_eq k.suite message_encryption_suite) keys ≡ some key
    → key.suite ≡ message_encryption_suite
find-IsOffered [] key h = absurd (ground (arith, h))
find-IsOffered (k ∷ keys) key h = elim (Bool-cases (text_eq k.suite message_encryption_suite)) [
  | inl e ↦
      let same : k ≡ key = ground (arith, e, h) in
      rw (← same) (text_eq→eq k.suite message_encryption_suite e)
  | inr e ↦ find-IsOffered keys key (ground (arith, e, h))
]

module _ (crypto : Crypto) (codec : Codec) (client : ClientCodec) (recipient : PeerId) where
  -- a value that parses to a record that verifies for the recipient and offers this key
  pub record IsPublished (value : Value) (key : MessageEncryptionKey) : Type 0 where
    pub signed : PublishObject
    pub parsed : client.from_publish_value value ≡ ok signed
    pub verifies : verify_publish_record crypto codec signed ≡ ok recipient
    pub offers :
        find
          (λ k. text_eq k.suite message_encryption_suite)
          signed.payload.capabilities.message_encryption
        ≡ some key
    pub suite : key.suite ≡ message_encryption_suite

  key_in_record-IsPublished :
      (value : Value) (key : MessageEncryptionKey)
      → key_in_record crypto codec client recipient value ≡ some key
      → IsPublished value key
  unfolding key_in_record supported_key
  key_in_record-IsPublished value key h = elim (Result-cases (client.from_publish_value value)) [
    | inr (e, p) ↦ absurd (ground (arith, p, h))
    | inl (signed, p) ↦ elim (Result-cases (verify_publish_record crypto codec signed)) [
      | inr (e, v) ↦ absurd (ground (arith, p, v, h))
      | inl (peer, v) ↦
          let same : text_eq peer recipient ≡ true = ground (arith, p, v, h) in
          let offered : find (λ k. text_eq k.suite message_encryption_suite)
                signed.payload.capabilities.message_encryption
              ≡ some key =
            ground (arith, p, v, h, same) in
          record {
            signed = signed;
            parsed = p;
            verifies = v ∙ ap ok (text_eq→eq peer recipient same);
            offers = offered;
            suite = find-IsOffered signed.payload.capabilities.message_encryption key offered;
          }
    ]
  ]

  -- the value that the key was taken from, behind values that offer none for the recipient
  pub record IsFirst (values : List Value) (key_id public_key : Text) : Type 0 where
    pub before : List Value
    pub value : Value
    pub after : List Value
    pub key : MessageEncryptionKey
    pub place : values ≡ before ++ value ∷ after
    pub passed : All (λ v. key_in_record crypto codec client recipient v ≡ none) before
    pub published : IsPublished value key
    pub same_id : key.key_id ≡ key_id
    pub same_key : key.public_key ≡ public_key

  extract_from-IsFirst :
      (values : List Value) (key_id public_key : Text)
      → extract_from crypto codec client recipient values ≡ ok (key_id, public_key)
      → IsFirst values key_id public_key
  unfolding extract_from
  extract_from-IsFirst [] key_id public_key h = absurd (ground (arith, h))
  extract_from-IsFirst (value ∷ values) key_id public_key h =
      elim (Option-cases (key_in_record crypto codec client recipient value)) [
        | inl k ↦
            let found = extract_from-IsFirst values key_id public_key (ground (arith, k, h)) in
            record {
              before = value ∷ found.before;
              value = found.value;
              after = found.after;
              key = found.key;
              place = ap (λ vs. value ∷ vs) found.place;
              passed = (k, found.passed);
              published = found.published;
              same_id = found.same_id;
              same_key = found.same_key;
            }
        | inr (key, k) ↦ record {
          before = [];
          value = value;
          after = values;
          key = key;
          place = refl;
          passed = tt;
          published = key_in_record-IsPublished value key k;
          same_id = ground (arith, k, h);
          same_key = ground (arith, k, h);
        }
      ]

-- A key that is found for a recipient stands in the array "records" of the answer: in an element that
-- parses to a publish record that verifies for the recipient and that offers this key for the
-- supported suite, behind elements that have no key for the recipient.
pub extract_recipient_message_key-IsPublished :
    (crypto : Crypto) (codec : Codec) (client : ClientCodec) (answer : Value) (recipient : PeerId)
    (key_id public_key : Text)
    → extract_recipient_message_key crypto codec client answer recipient ≡ ok (key_id, public_key)
    → (items : Items) × (value_get (text "records") answer ≡ some (array items))
      × IsFirst crypto codec client recipient (items_list items) key_id public_key
unfolding extract_recipient_message_key records_of extract_from
extract_recipient_message_key-IsPublished crypto codec client answer recipient key_id public_key h =
    elim (Option-cases (value_get (text "records") answer)) [
      | inr (array items, r) ↦ (
        items,
        r,
        extract_from-IsFirst crypto codec client recipient (items_list items) key_id public_key
            (rw (records_of, r) at h),
      )
      | inl r ↦ absurd (nothing_found (rw (records_of, r) at h))
      | inr (null, r) ↦ absurd (nothing_found (rw (records_of, r) at h))
      | inr (bool b, r) ↦ absurd (nothing_found (rw (records_of, r) at h))
      | inr (number n, r) ↦ absurd (nothing_found (rw (records_of, r) at h))
      | inr (string t, r) ↦ absurd (nothing_found (rw (records_of, r) at h))
      | inr (object fields, r) ↦ absurd (nothing_found (rw (records_of, r) at h))
    ]
  where
    nothing_found : extract_from crypto codec client recipient [] ≡ ok (key_id, public_key) → ⊥
    nothing_found h = ground (arith, h)
