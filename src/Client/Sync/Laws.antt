-- ===== src/Client/Sync/Laws.antt =====
-- After a sync the memory includes every snapshot that was pulled.
use ai_channel.Prelude.{
  ◌≡◌, List, [], ◌∷◌, All, All-map_imp, inl, inr, Bool-cases, arith, ◌⊎◌, true,
}
use ai_channel.Prelude.Text.{text_eq}
use ai_channel.Prelude.Result.{ok, bind-ok, Result-cases}
use ai_channel.Protocol.Types.{ActivityEvent}
use ai_channel.Protocol.External.{Crypto}
use ai_channel.Core.External.{Ciphers}
use ai_channel.Core.Memory.{MemoryFile}
use ai_channel.Core.Device.{DeviceId}
use ai_channel.Core.Identity.{IdentityFile}
use ai_channel.Core.Snapshot.{ActivityPayload, SnapshotCodec, decrypt_activity_snapshot}
use ai_channel.Client.Merge.{merge_memory_snapshot}
use ai_channel.Client.Merge.Laws.{Includes, merge_memory_snapshot-Includes}
use ai_channel.Client.Sync.{Pulled, apply_event, apply_events}

-- what a memory includes, it still includes after a merge
Includes-merge :
    (memory other remote : MemoryFile)
    → Includes memory other
    → Includes (merge_memory_snapshot memory remote).1 other
Includes-merge memory other remote i =
    let (new, tags, peers, interactions, newer, older) =
      merge_memory_snapshot-Includes memory remote in
    record {
      tags = All-map_imp _ _ (λ tag h. tags tag h) other.common_tags i.tags;
      peers = All-map_imp _ _ (λ peer h. peers peer h) other.discovered_peers i.peers;
      interactions = All-map_imp _ _ (λ j h. interactions j h) other.interactions i.interactions;
    }

module _ (crypto : Crypto) (ciphers : Ciphers) (codec : SnapshotCodec) (identity : IdentityFile)
    (device : DeviceId) where
  -- An event is the device's own, or it opened and its memory is included.
  abbrev pub IsApplied : MemoryFile → ActivityEvent → Type 0
  IsApplied memory event =
      (text_eq event.source_device_id device ≡ true)
      ⊎ ((payload : ActivityPayload) × (decrypt_activity_snapshot crypto ciphers codec identity
              event
            ≡ ok payload)
          × Includes memory payload.memory)

  apply_event-keeps :
      (event : ActivityEvent) (so_far next : Pulled) (other : MemoryFile)
      → apply_event crypto ciphers codec identity device event so_far ≡ ok next
      → Includes so_far.memory other
      → Includes next.memory other
  unfolding apply_event
  apply_event-keeps event so_far next other h i =
      elim (Bool-cases (text_eq event.source_device_id device)) [
        | inl own ↦ let same : next.memory ≡ so_far.memory = ground (arith, own, h) in rw same i
        | inr foreign ↦
            elim (Result-cases (decrypt_activity_snapshot crypto ciphers codec identity event)) [
              | inr (e, d) ↦ absurd (ground (arith, foreign, d, h))
              | inl (payload, d) ↦
                  let same : next.memory ≡ (merge_memory_snapshot so_far.memory payload.memory).1 =
                    ground (arith, foreign, d, h) in
                  rw same (Includes-merge so_far.memory other payload.memory i)
            ]
      ]

  apply_event-IsApplied :
      (event : ActivityEvent) (so_far next : Pulled)
      → apply_event crypto ciphers codec identity device event so_far ≡ ok next
      → IsApplied next.memory event
  unfolding apply_event
  apply_event-IsApplied event so_far next h =
      elim (Bool-cases (text_eq event.source_device_id device)) [
        | inl own ↦ inl own
        | inr foreign ↦
            elim (Result-cases (decrypt_activity_snapshot crypto ciphers codec identity event)) [
              | inr (e, d) ↦ absurd (ground (arith, foreign, d, h))
              | inl (payload, d) ↦
                  let same : next.memory ≡ (merge_memory_snapshot so_far.memory payload.memory).1 =
                    ground (arith, foreign, d, h) in
                  inr (
                    payload,
                    d,
                    rw same (merge_memory_snapshot-Includes so_far.memory payload.memory).0,
                  )
            ]
      ]

  apply_events-keeps :
      (events : List ActivityEvent) (so_far next : Pulled) (other : MemoryFile)
      → apply_events crypto ciphers codec identity device events so_far ≡ ok next
      → Includes so_far.memory other
      → Includes next.memory other
  unfolding apply_events
  apply_events-keeps [] so_far next other h i =
      let same : so_far ≡ next = ground (arith, h) in rw (← same) i
  apply_events-keeps (event ∷ events) so_far next other h i =
      let (middle, e, rest) =
        bind-ok (apply_event crypto ciphers codec identity device event so_far) _ next h in
      apply_events-keeps events middle next other rest
        (apply_event-keeps event so_far middle other e i)

  IsApplied-keeps :
      (event : ActivityEvent) (events : List ActivityEvent) (middle next : Pulled)
      → apply_events crypto ciphers codec identity device events middle ≡ ok next
      → IsApplied middle.memory event
      → IsApplied next.memory event
  IsApplied-keeps event events middle next h (inl own) = inl own
  IsApplied-keeps event events middle next h (inr (payload, d, i)) =
      inr (payload, d, apply_events-keeps events middle next payload.memory h i)

  -- When the loop of a sync ends without an error, every event of another device has opened with the
  -- identity, and the merged memory includes the memory of each, also of those that were merged
  -- before later ones.
  pub apply_events-IsApplied :
      (events : List ActivityEvent) (so_far next : Pulled)
      → apply_events crypto ciphers codec identity device events so_far ≡ ok next
      → All (IsApplied next.memory) events
  unfolding apply_events
  apply_events-IsApplied [] so_far next h = tt
  apply_events-IsApplied (event ∷ events) so_far next h =
      let (middle, e, rest) =
        bind-ok (apply_event crypto ciphers codec identity device event so_far) _ next h in
      (
        IsApplied-keeps event events middle next rest (apply_event-IsApplied event so_far middle e),
        apply_events-IsApplied events middle next rest,
      )
