-- ===== src/Server/Integrity.antt =====
-- What the stores of messages and of publish records hold after a request: only verified objects.
pub mod Handlers
use ai_channel.Prelude.{
  Bool, Bool-cases, Option-cases, inl, inr, All, All-append, List, [], ◌∷◌, ◌++◌, update_first,
  find, any,
}
use ai_channel.Prelude.Text.{Text, text_eq}
use ai_channel.Storage.{Faults, save-keeps, with_loaded-keeps}
use ai_channel.Time.{DateTime}
use ai_channel.Protocol.Types.{PeerId}
use ai_channel.Publish.Record.{PublishObject, StoredPublishRecord, visible, preserve_admin_state}
use ai_channel.Publish.Store as Publish
use ai_channel.Publish.Store.{
  Records, is_live, upsert, set_deleted, mark_author_deleted, set_hidden, set_restored, moderate,
  admin_hide, admin_restore,
}
use ai_channel.Message as Message
use ai_channel.Message.{
  MessageObject, StoredMessageEnvelope, Envelopes, Outcome, returned, panicked,
  validate_message_envelope, insert_message,
}

All-update_first :
    {A : Type 0} (P : A → Type 0) (p : A → Bool) (f : A → A) (xs : List A)
    → ((a : A) → P a → P (f a))
    → All P xs
    → All P (update_first p f xs)
All-update_first P p f [] keeps h = tt
All-update_first P p f (a ∷ xs) keeps h = elim (Bool-cases (p a)) [
  | inl e ↦ rw e (keeps a h.0, h.1)
  | inr e ↦ rw e (h.0, All-update_first P p f xs keeps h.1)
]

module _ (Q : PublishObject → Type 0) where
  abbrev pub HasObjects : Records → Type 0
  HasObjects = All (λ e. Q e.object)

  pub upsert-HasObjects :
      (faults : Faults) (object : PublishObject) (peer_id : PeerId) (records : Records)
      → Q object
      → HasObjects records
      → HasObjects (upsert faults object peer_id records).1
  unfolding upsert
  upsert-HasObjects faults object peer_id records q h =
      with_loaded-keeps HasObjects faults records _ h
        (elim (Option-cases (find (Publish.has_id object.id) records)) [
          | inl e ↦ rw e (
              save-keeps HasObjects faults records (records ++ visible object ∷ []) _ h (
                All-append (λ e. Q e.object) records (visible object ∷ []) h
                  (unfold visible in (q, tt))))
          | inr (existing, e) ↦
              rw e (elim (Bool-cases (text_eq existing.object.payload.peer_id peer_id)) [
                | inr other ↦ rw other h
                | inl owner ↦ rw owner (elim (Bool-cases existing.deleted) [
                  | inl gone ↦ rw gone h
                  | inr live ↦ rw live (
                      save-keeps HasObjects faults records _ _ h (
                        All-update_first (λ e. Q e.object) (Publish.has_id object.id)
                          (preserve_admin_state object) records
                          (λ a p. unfold preserve_admin_state in q) h))
                ])
              ])
        ])

  pub mark_author_deleted-HasObjects :
      (faults : Faults) (id : Text) (peer_id : PeerId) (now : DateTime) (records : Records)
      → HasObjects records
      → HasObjects (mark_author_deleted faults id peer_id now records).1
  unfolding mark_author_deleted
  mark_author_deleted-HasObjects faults id peer_id now records h =
      with_loaded-keeps HasObjects faults records _ h
        (elim (Option-cases (find (is_live id) records)) [
          | inl e ↦ rw e h
          | inr (entry, e) ↦
              rw e (elim (Bool-cases (text_eq entry.object.payload.peer_id peer_id)) [
                | inr other ↦ rw other h
                | inl owner ↦ rw owner (
                    save-keeps HasObjects faults records _ _ h (
                      All-update_first (λ e. Q e.object) (is_live id) (set_deleted now) records
                        (λ a p. unfold set_deleted in p) h))
              ])
        ])

  pub moderate-HasObjects :
      (change : StoredPublishRecord → StoredPublishRecord)
      → ((e : StoredPublishRecord) → Q e.object → Q (change e).object)
      → (faults : Faults) (id : Text) (records : Records) → HasObjects records
      → HasObjects (moderate change faults id records).1
  unfolding moderate
  moderate-HasObjects change keeps faults id records h =
      with_loaded-keeps HasObjects faults records _ h
        (elim (Option-cases (find (Publish.has_id id) records)) [
          | inl e ↦ rw e h
          | inr (entry, e) ↦ rw e (elim (Bool-cases entry.deleted) [
            | inl gone ↦ rw gone h
            | inr live ↦ rw live (
                save-keeps HasObjects faults records _ _ h
                  (All-update_first (λ e. Q e.object) (Publish.has_id id) change records keeps h))
          ])
        ])

module _ (Q : MessageObject → Type 0) where
  abbrev pub HasMessages : Envelopes → Type 0
  HasMessages = All (λ e. Q e.object)

  pub insert_message-HasMessages :
      (faults : Faults) (object : MessageObject) (now : DateTime) (records : Envelopes)
      → Q object
      → HasMessages records
      → HasMessages (insert_message faults object now records).1
  unfolding insert_message
  insert_message-HasMessages faults object now records q h =
      with_loaded-keeps HasMessages faults records _ h
        (elim (Bool-cases (any (Message.has_id object.id) records)) [
          | inl e ↦ rw e h
          | inr e ↦ rw e (
              save-keeps HasMessages faults records _ _ h
                (All-append (λ e. Q e.object) records _ h (q, tt)))
        ])
