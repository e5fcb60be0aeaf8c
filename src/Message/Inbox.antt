-- ===== src/Message/Inbox.antt =====
-- What the message store promises: one envelope for an id, an inbox of the recipient's own messages,
-- and the bounds of an accepted envelope.
use ai_channel.Prelude.{
  ℕ, ◌+◌, ◌*◌, ◌≤◌, ◌<◌, ◌≡◌, ◌↔◌, refl, Bool, true, List, [], ◌∷◌, ◌++◌, map, arith, any, ltb,
  length, take, retain, All, All-take, All-retain, retain_sound, length-take-le, Option-cases, inl,
  inr,
}
use ai_channel.Prelude.Order.{
  Chain-compare, Chain-then_with, compare-flip, flip-then_with, IsComparison, IsComparison-of_Chain,
}
use ai_channel.Prelude.Sort.{sort_by, All-sort_by}
use ai_channel.Prelude.Text.{
  Text, text_eq, text_eq_iff, text_eq_refl, byte_len, compare_text-flip, Chain-compare_text,
}
use ai_channel.Prelude.Result.{ok, err, Result-cases}
use ai_channel.Time.{DateTime, second, max_utc, add_seconds, max_message_ttl_seconds}
use ai_channel.Storage.{Faults, load, save, with_loaded}
use ai_channel.Protocol.Types.{PeerId}
use ai_channel.Protocol.External.{Crypto, Codec}
use ai_channel.Protocol.Verify.{verify_message_envelope}
use ai_channel.Message.{
  MessageObject, StoredMessageEnvelope, Envelopes, has_id, insert_message, compare_envelopes,
  inbox_entries, inbox, max_message_ciphertext_bytes, returned, panicked, validate_message_envelope,
}

any-append_self :
    (p : StoredMessageEnvelope → Bool) (xs : Envelopes) (x : StoredMessageEnvelope)
    → p x ≡ true
    → any p (xs ++ x ∷ []) ≡ true
any-append_self p [] x h = ground (arith, h)
any-append_self p (y ∷ xs) x h = ground (arith, any-append_self p xs x h)

insert_again :
    (faults : Faults) (object : MessageObject) (now : DateTime) (xs : Envelopes)
    → any (has_id object.id) xs ≡ true
    → (insert_message faults object now xs).1 ≡ xs
unfolding insert_message with_loaded
insert_again faults object now xs h = ground (arith, h)

-- A message that has been stored once is not stored again: after a first call that returned no
-- error, a second call with the same id, whatever its other contents, leaves the file as it is.
pub insert_message_idempotent :
    (f g : Faults) (first again : MessageObject) (t u : DateTime) (xs : Envelopes)
    → (insert_message f first t xs).0 ≡ ok tt
    → again.id ≡ first.id
    → (insert_message g again u (insert_message f first t xs).1).1 ≡ (insert_message f first t xs).1
insert_message_idempotent f g first again t u xs done same =
    insert_again g again u (insert_message f first t xs).1
      (rw same (stored_after f first t xs done))
  where
    stored_after :
        (f : Faults) (first : MessageObject) (t : DateTime) (xs : Envelopes)
        → (insert_message f first t xs).0 ≡ ok tt
        → any (has_id first.id) (insert_message f first t xs).1 ≡ true
    stored_after f first t xs done =
        unfold insert_message with_loaded save in
        ground (
          arith,
          done,
          text_eq_refl first.id,
          any-append_self (has_id first.id) xs (record { object = first; stored_at = t })
              (text_eq_refl first.id),
        )

compare_envelopes-IsComparison : IsComparison compare_envelopes
unfolding compare_envelopes
compare_envelopes-IsComparison =
    IsComparison-of_Chain compare_envelopes
      (λ a b. rw (
        compare-flip a.object.created_at b.object.created_at,
        compare_text-flip a.object.id b.object.id,
        flip-then_with,
      ))
      (λ a b c.
        Chain-then_with _ _ _ _ _ _
          (Chain-compare a.object.created_at b.object.created_at c.object.created_at)
          (Chain-compare_text a.object.id b.object.id c.object.id))

-- the messages of an inbox, in its order
abbrev pub IsDelivered : PeerId → DateTime → MessageObject → Type 0
IsDelivered recipient now object =
    (object.payload.recipient ≡ recipient) × (now < object.payload.expires_at)

inbox_entries_sound :
    (recipient : PeerId) (now : DateTime) (xs : Envelopes)
    → All (λ e. IsDelivered recipient now e.object) (inbox_entries recipient now xs)
unfolding inbox_entries
inbox_entries_sound recipient now xs =
    let mine =
      retain (λ (e : StoredMessageEnvelope). text_eq e.object.payload.recipient recipient) xs in
    All-both recipient now
      (retain (λ (e : StoredMessageEnvelope). ltb now e.object.payload.expires_at) mine)
      (All-retain (λ e. text_eq e.object.payload.recipient recipient ≡ true) _ mine
        (retain_sound (λ e. text_eq e.object.payload.recipient recipient) xs))
      (retain_sound (λ e. ltb now e.object.payload.expires_at) mine)
  where
    All-both :
        (recipient : PeerId) (now : DateTime) (xs : Envelopes)
        → All (λ e. text_eq e.object.payload.recipient recipient ≡ true) xs
        → All (λ e. ltb now e.object.payload.expires_at ≡ true) xs
        → All (λ e. IsDelivered recipient now e.object) xs
    All-both recipient now [] h k = tt
    All-both recipient now (x ∷ xs) h k = (
      ((text_eq_iff x.object.payload.recipient recipient).0 h.0, ground (arith, k.0)),
      All-both recipient now xs h.1 k.1,
    )

All-map :
    (P : MessageObject → Type 0) (xs : Envelopes)
    → All (λ e. P e.object) xs
    → All P (map (λ e. e.object) xs)
All-map P [] h = tt
All-map P (x ∷ xs) h = (h.0, All-map P xs h.1)

length-map : (xs : Envelopes) → length (map (λ e. e.object) xs) ≡ length xs
length-map [] = refl
length-map (x ∷ xs) = omega (arith, length-map xs)

-- An inbox that is read without an error holds at most `limit` messages, all of them for its
-- recipient and none of them expired.
pub inbox_sound :
    (faults : Faults) (recipient : PeerId) (limit : ℕ) (now : DateTime) (xs : Envelopes)
    (messages : List MessageObject)
    → inbox faults recipient limit now xs ≡ ok messages
    → (length messages ≤ limit) × All (IsDelivered recipient now) messages
unfolding inbox load
inbox_sound faults recipient limit now xs messages h = elim (Option-cases faults.read_error) [
  | inr (m, e) ↦ absurd (not_ok (rw e at h))
  | inl e ↦
      let sorted = sort_by compare_envelopes (inbox_entries recipient now xs) in
      let same : map (λ (e : StoredMessageEnvelope). e.object) (take limit sorted) ≡ messages =
        ok_inj (rw e at h) in
      rw (← same) (
        omega (arith, length-map (take limit sorted), length-take-le limit sorted),
        All-map (IsDelivered recipient now) (take limit sorted) (
            All-take (λ e. IsDelivered recipient now e.object) limit sorted
              (All-sort_by compare_envelopes (λ e. IsDelivered recipient now e.object)
                (inbox_entries recipient now xs) (inbox_entries_sound recipient now xs))),
      )
]
  where
    not_ok : {e : Text} {ms : List MessageObject} → err e ≡ ok ms → ⊥
    not_ok p = cc

    ok_inj : {a b : List MessageObject} → ok a ≡ ok b → a ≡ b
    ok_inj p = cc

-- The lifetime of an envelope is within the bounds.
abbrev IsLifetime : ℕ → Type 0
IsLifetime ttl = (1 ≤ ttl) × (ttl ≤ max_message_ttl_seconds)

-- The time at which an envelope is to expire.
abbrev expiry_of : MessageObject → ℕ
expiry_of object = object.created_at + object.payload.ttl_seconds * second

module _ (crypto : Crypto) (codec : Codec) (object : MessageObject) where
  abbrev pub IsAcceptable : PeerId → Type 0
  IsAcceptable sender =
      (verify_message_envelope crypto codec object ≡ ok sender)
      × IsLifetime object.payload.ttl_seconds
      × (expiry_of object ≤ max_utc)
      × (object.payload.expires_at ≡ expiry_of object)
      × (byte_len object.payload.ciphertext ≤ max_message_ciphertext_bytes)

  abbrev pub IsTooLate : Type 0
  IsTooLate =
      (sender : PeerId) × (verify_message_envelope crypto codec object ≡ ok sender)
      × IsLifetime object.payload.ttl_seconds
      × (max_utc < expiry_of object)

-- An envelope is accepted for a sender exactly when it is verified for it, its lifetime is between one
-- second and seven days, its expiry is that long after its creation and not past the last time that
-- chrono represents, and its text is within the bound. The check panics exactly when the envelope is
-- verified, its lifetime is in range, and its creation plus its lifetime is past that last time,
-- whatever its expiry and its text are.
pub validate_message_envelope_iff :
    (crypto : Crypto) (codec : Codec) (object : MessageObject)
    → ((sender : PeerId)
        → (validate_message_envelope crypto codec object ≡ returned (ok sender))
          ↔ IsAcceptable crypto codec object sender)
      × ((validate_message_envelope crypto codec object ≡ panicked) ↔ IsTooLate crypto codec object)
unfolding validate_message_envelope add_seconds
validate_message_envelope_iff crypto codec object = (
  λ sender. (
    λ h. (ground arith, (ground arith, ground arith), ground arith, ground arith, ground arith),
    λ (v, (lo, hi), early, expiry, size). ground arith,
  ),
  (
    λ h. elim (Result-cases (verify_message_envelope crypto codec object)) [
      | inr (e, v) ↦ absurd (ground (arith, v, h))
      | inl (sender, v) ↦ (sender, v, (ground arith, ground arith), ground arith)
    ],
    λ (sender, v, (lo, hi), late). ground arith,
  ),
)
