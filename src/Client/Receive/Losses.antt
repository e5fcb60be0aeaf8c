-- ===== src/Client/Receive/Losses.antt =====
-- What `inbox` in crates/aichan/src/main.rs loses where a record in its loop fails.
use ai_channel.Prelude.{◌≡◌, none, List, [], ◌∷◌, ◌++◌, All, arith, Option}
use ai_channel.Prelude.Text.{Text}
use ai_channel.Prelude.Result.{Result, ok, err}
use ai_channel.Json.{Value}
use ai_channel.Protocol.Types.{PeerId}
use ai_channel.Protocol.External.{Crypto, Codec}
use ai_channel.Core.External.{Ciphers}
use ai_channel.Core.MessageCrypto.{MessageKeyPair}
use ai_channel.Core.LocalState.{LocalStateDir}
use ai_channel.Client.External.{ClientCodec}
use ai_channel.Client.Receive.{InboxMessage, InboxState, WriteErrors, receive_record, receive_all}
use ai_channel.Client.Receive.Laws.{
  IsSeen, IsSeen-keeps, receive_record-IsSeen, receive_all-cons, receive_all-keeps,
  receive_all-IsSeen,
}

module _ (crypto : Crypto) (ciphers : Ciphers) (codec : Codec) (client : ClientCodec)
    (dir : LocalStateDir) (peer_id : PeerId) (message_keys : MessageKeyPair) where
  abbrev receive : WriteErrors → Value → InboxState → Result (Option InboxMessage) × InboxState
  receive errors = receive_record crypto ciphers codec client dir errors peer_id message_keys

  abbrev receive_list :
      WriteErrors → List Value → InboxState → Result (List InboxMessage) × InboxState
  receive_list errors = receive_all crypto ciphers codec client dir errors peer_id message_keys

  -- the states after any number of runs, over any records and with any failing writes
  pub data Later (state : InboxState) : InboxState → Type 0 where
    now : Later state state
    run :
        {t : InboxState} (errors : WriteErrors) (values : List Value)
        → Later state t
        → Later state (receive_list errors values t).1

  Later-keeps :
      (value : Value) (state later : InboxState)
      → IsSeen crypto ciphers codec client dir peer_id state value
      → Later state later
      → IsSeen crypto ciphers codec client dir peer_id later value
  Later-keeps value state later seen now = seen
  Later-keeps value state later seen (run {t = t} errors values l) =
      receive_all-keeps crypto ciphers codec client dir errors peer_id message_keys value values t
        (Later-keeps value state t seen l)

  all_passed :
      (errors : WriteErrors) (values : List Value) (state : InboxState)
      → All (IsSeen crypto ciphers codec client dir peer_id state) values
      → All (λ value. receive errors value state ≡ (ok none, state)) values
  all_passed errors [] state seen = tt
  all_passed errors (value ∷ values) state seen = (
    receive_record-IsSeen crypto ciphers codec client dir errors peer_id message_keys value state
        seen.0,
    all_passed errors values state seen.1,
  )

  all_later :
      (values : List Value) (state later : InboxState)
      → ((value : Value)
          → IsSeen crypto ciphers codec client dir peer_id state value
          → IsSeen crypto ciphers codec client dir peer_id later value)
      → All (IsSeen crypto ciphers codec client dir peer_id state) values
      → All (IsSeen crypto ciphers codec client dir peer_id later) values
  all_later [] state later keeps seen = tt
  all_later (value ∷ values) state later keeps seen =
      (keeps value seen.0, all_later values state later keeps seen.1)

  -- the loop goes through what precedes the failing record
  receive_all-append :
      (errors : WriteErrors) (before rest : List Value) (bad : Value) (state after : InboxState)
      (messages : List InboxMessage) (e : Text)
      → receive_list errors before state ≡ (ok messages, after)
      → (receive errors bad after).0 ≡ err e
      → receive_list errors (before ++ bad ∷ rest) state ≡ (err e, (receive errors bad after).1)
  unfolding receive_all
  receive_all-append errors [] rest bad state after messages e h b =
      let same : state ≡ after = ground (arith, h) in
      let b' : (receive errors bad state).0 ≡ err e = rw same b in rw (← same) (ground (arith, b'))
  receive_all-append errors (value ∷ before) rest bad state after messages e h b =
      let (first, others, r, t, m) =
        receive_all-cons crypto ciphers codec client dir errors peer_id message_keys value before
          state after messages h in
      let step =
        receive_all-append errors before rest bad (receive errors value state).1 after others e t
          b in
      ground (arith, r, step)

  -- When a run of the loop has received records without an error and the next record fails, the run
  -- ends with that error and without any message; and in every state that later runs lead to, over
  -- whatever records and with whatever failing writes, each of those records is passed over.
  pub receive_all_loses :
      (errors : WriteErrors) (before rest : List Value) (bad : Value) (state after : InboxState)
      (messages : List InboxMessage) (e : Text)
      → receive_list errors before state ≡ (ok messages, after)
      → (receive errors bad after).0 ≡ err e
      → (receive_list errors (before ++ bad ∷ rest) state ≡ (err e, (receive errors bad after).1))
        × ((later : InboxState) (others : WriteErrors)
            → Later (receive errors bad after).1 later
            → All (λ value. receive others value later ≡ (ok none, later)) before)
  receive_all_loses errors before rest bad state after messages e h b = (
    receive_all-append errors before rest bad state after messages e h b,
    λ later others l. all_passed others before later (
        all_later before after later
          (λ value seen.
            Later-keeps value (receive errors bad after).1 later
              (IsSeen-keeps crypto ciphers codec client dir errors peer_id message_keys value bad
                after seen)
              l)
          (receive_all-IsSeen crypto ciphers codec client dir errors peer_id message_keys before
            state after messages h)),
  )
