-- ===== src/Publish/History.antt =====
-- What a published record can turn into: the operations of the publish store over time.
use ai_channel.Prelude.{
  ◌≡◌, refl, ◌∙◌, Bool, true, false, some, List, [], ◌∷◌, ◌++◌, arith, Bool-cases, Option-cases,
  inl, inr, find, update_first, sym, All,
}
use ai_channel.Prelude.Text.{Text, text_eq, text_eq_iff}
use ai_channel.Prelude.Result.{Result}
use ai_channel.Time.{DateTime}
use ai_channel.Storage.{Faults, save, with_loaded}
use ai_channel.Protocol.Types.{PeerId}
use ai_channel.Auth.Admin.{AdminPrincipal}
use ai_channel.Publish.Record.{PublishObject, StoredPublishRecord, visible, preserve_admin_state}
use ai_channel.Publish.Store.{
  Records, has_id, is_live, upsert, set_deleted, mark_author_deleted, set_hidden, set_restored,
  moderate, admin_hide, admin_restore,
}

-- One entry of the file before and after: the id and the owning peer stay, and what its author has
-- deleted stays exactly as it was.
pub record Evolves (a b : StoredPublishRecord) : Type 0 where
  pub same_id : b.object.id ≡ a.object.id
  pub same_peer : b.object.payload.peer_id ≡ a.object.payload.peer_id
  pub final : a.deleted ≡ true → b ≡ a

-- Every entry of the old file evolves to the entry at its position, and new ones follow.
abbrev pub Grows : Records → Records → Type 0
Grows [] bs = Unit
Grows (a ∷ as_) [] = ⊥
Grows (a ∷ as_) (b ∷ bs) = Evolves a b × Grows as_ bs

Evolves-refl : (a : StoredPublishRecord) → Evolves a a
Evolves-refl a = record { same_id = refl; same_peer = refl; final = λ _. refl }

Evolves-trans : {a b c : StoredPublishRecord} → Evolves a b → Evolves b c → Evolves a c
Evolves-trans {a} {b} {c} p q = record {
  same_id = q.same_id ∙ p.same_id;
  same_peer = q.same_peer ∙ p.same_peer;
  final = λ d. let same = p.final d in q.final (rw same d) ∙ same;
}

pub Grows-refl : (as_ : Records) → Grows as_ as_
Grows-refl [] = tt
Grows-refl (a ∷ as_) = (Evolves-refl a, Grows-refl as_)

pub Grows-trans : (as_ bs cs : Records) → Grows as_ bs → Grows bs cs → Grows as_ cs
Grows-trans [] bs cs p q = tt
Grows-trans (a ∷ as_) [] cs p q = absurd p
Grows-trans (a ∷ as_) (b ∷ bs) [] p q = absurd q
Grows-trans (a ∷ as_) (b ∷ bs) (c ∷ cs) p q = (Evolves-trans p.0 q.0, Grows-trans as_ bs cs p.1 q.1)

Grows-append : (as_ bs : Records) → Grows as_ (as_ ++ bs)
Grows-append [] bs = tt
Grows-append (a ∷ as_) bs = (Evolves-refl a, Grows-append as_ bs)

-- a change of the first match that evolves it
Grows-update_first :
    (p : StoredPublishRecord → Bool) (f : StoredPublishRecord → StoredPublishRecord) (as_ : Records)
    (e : StoredPublishRecord)
    → find p as_ ≡ some e
    → Evolves e (f e)
    → Grows as_ (update_first p f as_)
Grows-update_first p f [] e h v = tt
Grows-update_first p f (a ∷ as_) e h v = elim (Bool-cases (p a)) [
  | inl t ↦ let same : a ≡ e = ground (arith, h, t) in rw (t, same) (v, Grows-refl as_)
  | inr t ↦ rw t (Evolves-refl a, Grows-update_first p f as_ e (ground (arith, h, t)) v)
]

-- what `find` returns passes the test
find_sound :
    (p : StoredPublishRecord → Bool) (as_ : Records) {e : StoredPublishRecord}
    → find p as_ ≡ some e
    → p e ≡ true
find_sound p [] h = cc
find_sound p (a ∷ as_) h = elim (Bool-cases (p a)) [
  | inl t ↦ ground (arith, t)
  | inr t ↦ find_sound p as_ (ground (arith, t))
]

save-Grows :
    {A : Type 0} (faults : Faults) (before after : Records) (status : A)
    → Grows before after
    → Grows before (save faults before after status).1
unfolding save
save-Grows faults before after status g = elim (Option-cases faults.write_error) [
  | inl e ↦ rw e g
  | inr (m, e) ↦ rw e (Grows-refl before)
]

with_loaded-Grows :
    {A : Type 0} (faults : Faults) (contents : Records) (body : Records → Result A × Records)
    → Grows contents (body contents).1
    → Grows contents (with_loaded faults contents body).1
unfolding with_loaded
with_loaded-Grows faults contents body g = elim (Option-cases faults.read_error) [
  | inl e ↦ rw e g
  | inr (m, e) ↦ rw e (Grows-refl contents)
]

preserve-Evolves :
    (object : PublishObject) (e : StoredPublishRecord)
    → object.id ≡ e.object.id
    → object.payload.peer_id ≡ e.object.payload.peer_id
    → e.deleted ≡ false
    → Evolves e (preserve_admin_state object e)
unfolding preserve_admin_state
preserve-Evolves object e i p d = record { same_id = i; same_peer = p; final = λ t. cc }

upsert-Grows :
    (faults : Faults) (object : PublishObject) (peer_id : PeerId) (records : Records)
    → object.payload.peer_id ≡ peer_id
    → Grows records (upsert faults object peer_id records).1
unfolding upsert
upsert-Grows faults object peer_id records honest =
    with_loaded-Grows faults records _ (elim (Option-cases (find (has_id object.id) records)) [
      | inl none_there ↦
          rw none_there (save-Grows faults records _ _ (Grows-append records (visible object ∷ [])))
      | inr (e, there) ↦ rw there (elim (Bool-cases (text_eq e.object.payload.peer_id peer_id)) [
        | inr other ↦ rw other (Grows-refl records)
        | inl owner ↦ rw owner (elim (Bool-cases e.deleted) [
          | inl gone ↦ rw gone (Grows-refl records)
          | inr live ↦ rw live (
              save-Grows faults records _ _ (
                Grows-update_first (has_id object.id) (preserve_admin_state object) records e there
                  (preserve-Evolves object e
                    (sym ((text_eq_iff _ _).0 (find_sound (has_id object.id) records there)))
                    (honest ∙ sym ((text_eq_iff _ _).0 owner)) live)))
        ])
      ])
    ])

delete-Grows :
    (faults : Faults) (publish_id : Text) (peer_id : PeerId) (now : DateTime) (records : Records)
    → Grows records (mark_author_deleted faults publish_id peer_id now records).1
unfolding mark_author_deleted set_deleted
delete-Grows faults publish_id peer_id now records =
    with_loaded-Grows faults records _ (elim (Option-cases (find (is_live publish_id) records)) [
      | inl none_there ↦ rw none_there (Grows-refl records)
      | inr (e, there) ↦ rw there (elim (Bool-cases (text_eq e.object.payload.peer_id peer_id)) [
        | inr other ↦ rw other (Grows-refl records)
        | inl owner ↦ rw owner (
            save-Grows faults records _ _ (
              Grows-update_first (is_live publish_id) (set_deleted now) records e there (record {
                same_id = refl;
                same_peer = refl;
                final = λ d. ground (arith, d, find_sound (is_live publish_id) records there);
              })))
      ])
    ])

moderate-Grows :
    (change : StoredPublishRecord → StoredPublishRecord)
    → ((e : StoredPublishRecord) → e.deleted ≡ false → Evolves e (change e))
    → (faults : Faults) (publish_id : Text) (records : Records)
    → Grows records (moderate change faults publish_id records).1
unfolding moderate
moderate-Grows change keeps faults publish_id records =
    with_loaded-Grows faults records _ (elim (Option-cases (find (has_id publish_id) records)) [
      | inl none_there ↦ rw none_there (Grows-refl records)
      | inr (e, there) ↦ rw there (elim (Bool-cases e.deleted) [
        | inl gone ↦ rw gone (Grows-refl records)
        | inr live ↦ rw live (
            save-Grows faults records _ _
              (Grows-update_first (has_id publish_id) change records e there (keeps e live)))
      ])
    ])

-- A call of one of the operations that write, with the faults that it meets.
pub data Operation : Type 0 where
  publish : Faults → PublishObject → PeerId → Operation
  delete : Faults → Text → PeerId → DateTime → Operation
  hide : Faults → Text → Text → AdminPrincipal → DateTime → Operation
  restore : Faults → Text → Text → AdminPrincipal → DateTime → Operation

unfoldable pub perform : Operation → Records → Records
perform (publish faults object peer_id) records = (upsert faults object peer_id records).1
perform (delete faults id peer_id now) records =
    (mark_author_deleted faults id peer_id now records).1
perform (hide faults id reason admin now) records =
    (admin_hide faults id reason admin now records).1
perform (restore faults id reason admin now) records =
    (admin_restore faults id reason admin now records).1

-- `publish_record` passes the peer that `verify_publish_record` returns, which is the payload's.
abbrev pub IsHonest : Operation → Type 0
IsHonest (publish faults object peer_id) = object.payload.peer_id ≡ peer_id
IsHonest _ = Unit

unfoldable pub perform_all : List Operation → Records → Records
perform_all [] records = records
perform_all (o ∷ os) records = perform_all os (perform o records)

perform-Grows : (o : Operation) (records : Records) → IsHonest o → Grows records (perform o records)
unfolding perform admin_hide admin_restore set_hidden set_restored
perform-Grows (publish faults object peer_id) records h =
    upsert-Grows faults object peer_id records h
perform-Grows (delete faults id peer_id now) records h = delete-Grows faults id peer_id now records
perform-Grows (hide faults id reason admin now) records h =
    moderate-Grows (set_hidden reason admin now)
      (λ e live. record { same_id = refl; same_peer = refl; final = λ d. cc }) faults id records
perform-Grows (restore faults id reason admin now) records h =
    moderate-Grows (set_restored reason admin now)
      (λ e live. record { same_id = refl; same_peer = refl; final = λ d. cc }) faults id records

-- Whatever is published, deleted, hidden and restored, and whichever reads and writes fail, no entry
-- of the file is lost, none changes its id or its owning peer, and an entry that its author has
-- deleted never changes again; for calls of `upsert` with the peer that the payload names.
pub perform_all-Grows :
    (os : List Operation) (records : Records)
    → All IsHonest os
    → Grows records (perform_all os records)
unfolding perform_all
perform_all-Grows [] records h = Grows-refl records
perform_all-Grows (o ∷ os) records h =
    Grows-trans records (perform o records) (perform_all os (perform o records))
      (perform-Grows o records h.0) (perform_all-Grows os (perform o records) h.1)
