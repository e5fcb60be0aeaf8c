-- ===== src/Client/Receive/Laws.antt =====
-- What `inbox` has received it passes over from then on.
use ai_channel.Prelude.{
  ◌≡◌, refl, ap, true, false, Option, none, List, [], ◌∷◌, All, inl, inr, Option-cases, Bool-cases,
  arith,
}
use ai_channel.Prelude.Text.{Text, text_eq_refl}
use ai_channel.Prelude.Result.{Result, ok, Result-cases}
use ai_channel.Json.{Value}
use ai_channel.Protocol.Types.{PeerId}
use ai_channel.Protocol.External.{Crypto, Codec}
use ai_channel.Message.{MessageObject}
use ai_channel.Core.External.{Ciphers}
use ai_channel.Core.MessageCrypto.{MessageKeyPair}
use ai_channel.Core.LocalState.{LocalStateDir}
use ai_channel.Client.External.{ClientCodec}
use ai_channel.Client.Receive.{
  InboxMessage, InboxState, WriteErrors, is_cached, cache_path, accept_record, open_message,
  store_message, take_message, receive_record, receive_all, with_message,
}

-- a record whose message is cached
pub record IsSeen (crypto : Crypto) (ciphers : Ciphers) (codec : Codec) (client : ClientCodec)
    (dir : LocalStateDir) (peer_id : PeerId) (state : InboxState) (value : Value) : Type 0 where
  pub signed : MessageObject
  pub accepted : accept_record crypto ciphers codec client peer_id value ≡ ok signed
  pub there : is_cached state (cache_path dir signed) ≡ true

module _ (crypto : Crypto) (ciphers : Ciphers) (codec : Codec) (client : ClientCodec)
    (dir : LocalStateDir) (errors : WriteErrors) (peer_id : PeerId)
    (message_keys : MessageKeyPair) where
  abbrev receive : Value → InboxState → Result (Option InboxMessage) × InboxState
  receive = receive_record crypto ciphers codec client dir errors peer_id message_keys

  abbrev receive_list : List Value → InboxState → Result (List InboxMessage) × InboxState
  receive_list = receive_all crypto ciphers codec client dir errors peer_id message_keys

  abbrev Seen : InboxState → Value → Type 0
  Seen = IsSeen crypto ciphers codec client dir peer_id

  -- what is cached stays cached
  store_message-keeps :
      (signed : MessageObject) (state : InboxState) (path : Text)
      → is_cached state path ≡ true
      → is_cached (store_message crypto ciphers codec client dir errors signed state).1 path ≡ true
  unfolding store_message
  store_message-keeps signed state path h = elim (Option-cases errors.dirs) [
    | inr (e, a) ↦ rw (store_message, a) h
    | inl a ↦ elim (Result-cases (client.print_message signed)) [
      | inr (e, b) ↦ rw (store_message, a, b) h
      | inl (bytes, b) ↦ elim (Option-cases errors.cache) [
        | inr ((e, true), c) ↦ rw (store_message, a, b, c) (ground (arith, h))
        | inr ((e, false), c) ↦ rw (store_message, a, b, c) h
        | inl c ↦ elim (Option-cases errors.log) [
          | inr ((e, true), d) ↦ rw (store_message, a, b, c, d) (ground (arith, h))
          | inr ((e, false), d) ↦ rw (store_message, a, b, c, d) (ground (arith, h))
          | inl d ↦ rw (store_message, a, b, c, d) (ground (arith, h))
        ]
      ]
    ]
  ]

  -- a message that was stored is cached
  store_message-cached :
      (signed : MessageObject) (state : InboxState)
      → (store_message crypto ciphers codec client dir errors signed state).0 ≡ ok tt
      → is_cached
          (store_message crypto ciphers codec client dir errors signed state).1
          (cache_path dir signed)
        ≡ true
  unfolding store_message
  store_message-cached signed state h = elim (Option-cases errors.dirs) [
    | inr (e, a) ↦ absurd (ground (arith, a, h))
    | inl a ↦ elim (Result-cases (client.print_message signed)) [
      | inr (e, b) ↦ absurd (ground (arith, a, b, h))
      | inl (bytes, b) ↦ elim (Option-cases errors.cache) [
        | inr (e, c) ↦ absurd (ground (arith, a, b, c, h))
        | inl c ↦ elim (Option-cases errors.log) [
          | inr (e, d) ↦ absurd (ground (arith, a, b, c, d, h))
          | inl d ↦
              rw (store_message, a, b, c, d) (ground (arith, text_eq_refl (cache_path dir signed)))
        ]
      ]
    ]
  ]

  take_message-keeps :
      (signed : MessageObject) (state : InboxState) (path : Text)
      → is_cached state path ≡ true
      → is_cached
          (take_message crypto ciphers codec client dir errors message_keys signed state).1
          path
        ≡ true
  unfolding take_message
  take_message-keeps signed state path h =
      elim (Result-cases (open_message crypto ciphers codec client message_keys signed)) [
        | inr (e, o) ↦ rw (take_message, o) h
        | inl (body, o) ↦ rw (take_message, o) (store_message-keeps signed state path h)
      ]

  receive_record-keeps :
      (value : Value) (state : InboxState) (path : Text)
      → is_cached state path ≡ true
      → is_cached (receive value state).1 path ≡ true
  unfolding receive_record
  receive_record-keeps value state path h =
      elim (Result-cases (accept_record crypto ciphers codec client peer_id value)) [
        | inr (e, a) ↦ rw (receive_record, a) h
        | inl (signed, a) ↦ elim (Bool-cases (is_cached state (cache_path dir signed))) [
          | inl c ↦ rw (receive_record, a, c) h
          | inr c ↦ rw (receive_record, a, c) (take_message-keeps signed state path h)
        ]
      ]

  -- a cached message is passed over
  pub receive_record-IsSeen :
      (value : Value) (state : InboxState)
      → Seen state value
      → receive value state ≡ (ok none, state)
  unfolding receive_record
  receive_record-IsSeen value state s = ground (arith, s.accepted, s.there)

  -- a record that was received is cached then
  IsSeen-receive_record :
      (value : Value) (state after : InboxState) (message : Option InboxMessage)
      → receive value state ≡ (ok message, after)
      → Seen after value
  unfolding receive_record take_message
  IsSeen-receive_record value state after message h =
      elim (Result-cases (accept_record crypto ciphers codec client peer_id value)) [
        | inr (e, a) ↦ absurd (ground (arith, a, h))
        | inl (signed, a) ↦ record { signed = signed; accepted = a; there = cached signed a }
      ]
    where
      cached :
          (signed : MessageObject)
          → accept_record crypto ciphers codec client peer_id value ≡ ok signed
          → is_cached after (cache_path dir signed) ≡ true
      cached signed a = elim (Bool-cases (is_cached state (cache_path dir signed))) [
        | inl c ↦ let same : after ≡ state = ground (arith, a, c, h) in rw same c
        | inr c ↦
            elim (Result-cases (open_message crypto ciphers codec client message_keys signed)) [
              | inr (e, o) ↦ absurd (ground (arith, a, c, o, h))
              | inl (body, o) ↦
                  elim (Result-cases
                    (store_message crypto ciphers codec client dir errors signed state).0) [
                      | inr (e, s) ↦ absurd (ground (arith, a, c, o, s, h))
                      | inl (u, s) ↦
                          let same : after
                              ≡ (store_message crypto ciphers codec client dir errors signed
                                  state).1 =
                            ground (arith, a, c, o, s, h) in
                          rw same (store_message-cached signed state s)
                    ]
            ]
      ]

  pub IsSeen-keeps :
      (value other : Value) (state : InboxState)
      → Seen state value
      → Seen (receive other state).1 value
  IsSeen-keeps value other state s = record {
    signed = s.signed;
    accepted = s.accepted;
    there = receive_record-keeps other state (cache_path dir s.signed) s.there;
  }

  -- the first record was received, and so were the others in the state that it left
  pub receive_all-cons :
      (value : Value) (values : List Value) (state after : InboxState)
      (messages : List InboxMessage)
      → receive_list (value ∷ values) state ≡ (ok messages, after)
      → (first : Option InboxMessage) × (rest : List InboxMessage) × (receive value state
          ≡ (ok first, (receive value state).1))
        × (receive_list values (receive value state).1 ≡ (ok rest, after))
        × (messages ≡ with_message crypto ciphers codec client first rest)
  unfolding receive_all
  receive_all-cons value values state after messages h =
      elim (Result-cases (receive value state).0) [
        | inr (e, r) ↦ absurd (ground (arith, r, h))
        | inl (first, r) ↦ elim (Result-cases (receive_list values (receive value state).1).0) [
          | inr (e, t) ↦ absurd (ground (arith, r, t, h))
          | inl (rest, t) ↦ (
            first,
            rest,
            ap (λ x. (x, (receive value state).1)) r,
            ground (arith, r, t, h),
            ground (arith, r, t, h),
          )
        ]
      ]

  -- whatever a run receives and whether it fails
  pub receive_all-keeps :
      (value : Value) (values : List Value) (state : InboxState)
      → Seen state value
      → Seen (receive_list values state).1 value
  unfolding receive_all
  receive_all-keeps value [] state s = s
  receive_all-keeps value (v ∷ vs) state s = elim (Result-cases (receive v state).0) [
    | inr (e, r) ↦ rw (receive_all, r) (IsSeen-keeps value v state s)
    | inl (first, r) ↦
        rw (receive_all, r)
          (receive_all-keeps value vs (receive v state).1 (IsSeen-keeps value v state s))
  ]

  pub receive_all-IsSeen :
      (values : List Value) (state after : InboxState) (messages : List InboxMessage)
      → receive_list values state ≡ (ok messages, after)
      → All (Seen after) values
  receive_all-IsSeen [] state after messages h = tt
  receive_all-IsSeen (value ∷ values) state after messages h =
      let (first, rest, r, t, m) = receive_all-cons value values state after messages h in
      (
        rw (← ap (λ x. x.1) t) (
            receive_all-keeps value values (receive value state).1
              (IsSeen-receive_record value state (receive value state).1 first r)),
        receive_all-IsSeen values (receive value state).1 after rest t,
      )

  receive_all_passes :
      (values : List Value) (state : InboxState)
      → All (Seen state) values
      → receive_list values state ≡ (ok [], state)
  unfolding receive_all
  receive_all_passes [] state h = refl
  receive_all_passes (value ∷ values) state h =
      ground (arith, receive_record-IsSeen value state h.0, receive_all_passes values state h.1)

  -- What `inbox` has printed it does not print again: when the loop has run over records without an
  -- error, a second run over the same records prints nothing and changes nothing.
  pub receive_all_again :
      (values : List Value) (state after : InboxState) (messages : List InboxMessage)
      → receive_list values state ≡ (ok messages, after)
      → receive_list values after ≡ (ok [], after)
  receive_all_again values state after messages h =
      receive_all_passes values after (receive_all-IsSeen values state after messages h)
