-- ===== src/Message.antt =====
-- The message store of crates/aichan-server/src/lib.rs: `FileMessageStore`, and
-- `validate_message_envelope`.
pub mod Inbox
use Prim.Native.Nat.{compare}
use ai_channel.Prelude.{
  ℕ, Bool, true, false, not, ◌&&◌, ◌||◌, Option, none, some, List, [], ◌∷◌, ◌++◌, map, ltb, leb,
  ◌==◌, if◌then◌else◌, any, retain, take, length,
}
use ai_channel.Prelude.Order.{Ordering, then_with}
use ai_channel.Prelude.Sort.{sort_by}
use ai_channel.Prelude.Text.{Text, text, text_eq, compare_text, byte_len}
use ai_channel.Prelude.Result.{Result, ok, err, ◌>>=◌}
use ai_channel.Time.{DateTime, add_seconds, max_message_ttl_seconds}
use ai_channel.Storage.{Faults, load, save, with_loaded}
use ai_channel.Protocol.Types.{PeerId, SignedProtocolObject, MessageEnvelopePayload}
use ai_channel.Protocol.External.{Crypto, Codec}
use ai_channel.Protocol.Verify.{verify_message_envelope}

abbrev pub MessageObject : Type 0
MessageObject = SignedProtocolObject MessageEnvelopePayload

pub record StoredMessageEnvelope : Type 0 where
  pub object : MessageObject
  pub stored_at : DateTime

abbrev pub Envelopes : Type 0
Envelopes = List StoredMessageEnvelope

abbrev pub has_id : Text → StoredMessageEnvelope → Bool
has_id id entry = text_eq entry.object.id id

-- `FileMessageStore::insert`; `now` is `Utc::now()`
unfoldable pub insert_message :
    Faults → MessageObject → DateTime → Envelopes → Result (Unit {0}) × Envelopes
insert_message faults object now contents = with_loaded faults contents λ records.
    if any (has_id object.id) records
    then (ok tt, records)
    else save faults records (records ++ record { object = object; stored_at = now } ∷ []) tt

unfoldable pub compare_envelopes : StoredMessageEnvelope → StoredMessageEnvelope → Ordering
compare_envelopes left right =
    then_with (compare left.object.created_at right.object.created_at)
      (compare_text left.object.id right.object.id)

-- the envelopes for a recipient that have not expired
unfoldable pub inbox_entries : PeerId → DateTime → Envelopes → Envelopes
inbox_entries recipient now records =
    retain (λ entry. ltb now entry.object.payload.expires_at)
      (retain (λ entry. text_eq entry.object.payload.recipient recipient) records)

-- `FileMessageStore::inbox`
unfoldable pub inbox : Faults → PeerId → ℕ → DateTime → Envelopes → Result (List MessageObject)
unfolding inbox_entries
inbox faults recipient limit now contents = do
  records ← load faults contents
  ok (
      map (λ entry. entry.object)
        (take limit (sort_by compare_envelopes (inbox_entries recipient now records))))

-- `FileMessageStore::count`
unfoldable pub count_messages : Faults → Envelopes → Result ℕ
count_messages faults contents = do records ← load faults contents; ok (length records)

abbrev pub max_message_ciphertext_bytes : ℕ
max_message_ciphertext_bytes = 65_536

-- The outcome of a function that returns a `Result` and can panic.
pub data Outcome (A : Type 0) : Type 0 where
  returned : Result A → Outcome A
  panicked : Outcome A

-- the checks of `validate_message_envelope` that follow the addition
abbrev pub check_expiry : MessageObject → PeerId → DateTime → Result PeerId
check_expiry object sender expected_expires_at =
    if not (object.payload.expires_at == expected_expires_at)
    then err (text "expires_at must equal created_at plus ttl_seconds")
    else if ltb max_message_ciphertext_bytes (byte_len object.payload.ciphertext)
    then err (text "ciphertext exceeds maximum message size")
    else ok sender

abbrev pub check_envelope : MessageObject → PeerId → Outcome PeerId
check_envelope object sender =
    if object.payload.ttl_seconds == 0 || ltb max_message_ttl_seconds object.payload.ttl_seconds
    then returned (err (text "ttl_seconds must be between 1 and 604800"))
    else elim (add_seconds object.created_at object.payload.ttl_seconds) [
      | none ↦ panicked
      | some expected ↦ returned (check_expiry object sender expected)
    ]

-- `validate_message_envelope`; chrono's addition panics past the last time that it represents
unfoldable pub validate_message_envelope : Crypto → Codec → MessageObject → Outcome PeerId
validate_message_envelope crypto codec object = elim (verify_message_envelope crypto codec object) [
  | ok sender ↦ check_envelope object sender
  | err e ↦ returned (err e)
]
