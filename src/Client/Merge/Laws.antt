-- ===== src/Client/Merge/Laws.antt =====
-- A snapshot that was merged once changes nothing when it is merged again, and a merge forgets nothing.
use ai_channel.Prelude.{
  Bool, ◌≡◌, true, false, Option, none, some, List, [], ◌∷◌, All, arith, refl, ◌∙◌, ap, ◌<◌, ◌≤◌,
  inl, inr, Bool-cases,
}
use ai_channel.Prelude.Text.{Text, text_eq_refl, text_eq→eq}
use ai_channel.Core.Memory.{MemoryFile, AgentProfile, PeerSummary, InteractionSummary}
use ai_channel.Client.Merge.{
  option_eq, texts_eq, profile_eq, merge_tags, merge_peers, merge_interactions, newer_profile,
  merge_memory_snapshot,
}
use ai_channel.Client.Merge.Entries.{
  covered, merge_entries-keeps, merge_entries-covers, merge_entries-covered,
}
use ai_channel.Client.Merge.Tags.{
  has_tag, HasTags, add_tags-keeps, merge_tags-has, merge_tags-HasTags, merge_tags_again,
}

option_eq_refl : (o : Option Text) → option_eq o o ≡ true
option_eq_refl none = refl
option_eq_refl (some t) = text_eq_refl t

texts_eq_refl : (ts : List Text) → texts_eq ts ts ≡ true
texts_eq_refl [] = refl
texts_eq_refl (t ∷ ts) = ground (arith, text_eq_refl t, texts_eq_refl ts)

profile_eq_refl : (p : AgentProfile) → profile_eq p p ≡ true
unfolding profile_eq
profile_eq_refl p = ground (
  arith,
  option_eq_refl p.nickname,
  option_eq_refl p.self_description,
  texts_eq_refl p.preferences,
)

option_eq→eq : (o p : Option Text) → option_eq o p ≡ true → o ≡ p
option_eq→eq none none h = refl
option_eq→eq none (some t) h = absurd (ground (arith, h))
option_eq→eq (some s) none h = absurd (ground (arith, h))
option_eq→eq (some s) (some t) h = ap (λ x. some x) (text_eq→eq s t h)

texts_eq→eq : (ss ts : List Text) → texts_eq ss ts ≡ true → ss ≡ ts
texts_eq→eq [] [] h = refl
texts_eq→eq [] (t ∷ ts) h = absurd (ground (arith, h))
texts_eq→eq (s ∷ ss) [] h = absurd (ground (arith, h))
texts_eq→eq (s ∷ ss) (t ∷ ts) h =
    let head : s ≡ t = text_eq→eq s t (ground (arith, h)) in
    let rest : ss ≡ ts = texts_eq→eq ss ts (ground (arith, h)) in cc

profile_eq→eq : (p q : AgentProfile) → profile_eq p q ≡ true → p ≡ q
unfolding profile_eq
profile_eq→eq p q h =
    let nickname : p.nickname ≡ q.nickname =
      option_eq→eq p.nickname q.nickname (ground (arith, h)) in
    let description : p.self_description ≡ q.self_description =
      option_eq→eq p.self_description q.self_description (ground (arith, h)) in
    let preferences : p.preferences ≡ q.preferences =
      texts_eq→eq p.preferences q.preferences (ground (arith, h)) in
    λ i. record {
      nickname = nickname i;
      self_description = description i;
      preferences = preferences i;
    }

-- The profile of the memory that was updated later, the local one where they are equally old.
merged_profile :
    (local remote : MemoryFile)
    → (local.updated_at < remote.updated_at
        → (merge_memory_snapshot local remote).1.profile ≡ remote.profile)
      × (remote.updated_at ≤ local.updated_at
          → (merge_memory_snapshot local remote).1.profile ≡ local.profile)
unfolding merge_memory_snapshot newer_profile
merged_profile local remote = (
  λ newer. elim (Bool-cases (profile_eq local.profile remote.profile)) [
    | inl same ↦
        let equal : local.profile ≡ remote.profile =
          profile_eq→eq local.profile remote.profile same in
        ground (arith, same, equal)
    | inr different ↦ ground (arith, different)
  ],
  λ older. ground arith,
)

-- The first local peer with the id of `peer` was seen at least as late.
abbrev pub knows_peer : MemoryFile → PeerSummary → Bool
knows_peer memory peer = covered (λ p. p.peer_id) (λ p. p.last_seen_at) memory.discovered_peers peer

-- The first local summary of the conversation with the same peer is at least as new.
abbrev pub knows_interaction : MemoryFile → InteractionSummary → Bool
knows_interaction memory interaction =
    covered (λ i. i.peer_id) (λ i. i.updated_at) memory.interactions interaction

-- What a memory knows of another one.
pub record Includes (memory other : MemoryFile) : Type 0 where
  pub tags : HasTags memory.common_tags other.common_tags
  pub peers : All (λ peer. knows_peer memory peer ≡ true) other.discovered_peers
  pub interactions : All (λ i. knows_interaction memory i ≡ true) other.interactions

-- After a merge the local memory has every tag of the remote one, and for each peer and each
-- interaction of it an entry that is at least as new; and it keeps, for every tag and for every peer
-- and interaction that the local memory had, the tag and an entry that is at least as new. Its profile
-- is the remote one where the remote memory was updated later, and the local one otherwise.
pub merge_memory_snapshot-Includes :
    (local remote : MemoryFile)
    → Includes (merge_memory_snapshot local remote).1 remote
      × ((tag : Text)
          → has_tag local.common_tags tag ≡ true
          → has_tag (merge_memory_snapshot local remote).1.common_tags tag ≡ true)
      × ((peer : PeerSummary)
          → knows_peer local peer ≡ true
          → knows_peer (merge_memory_snapshot local remote).1 peer ≡ true)
      × ((interaction : InteractionSummary)
          → knows_interaction local interaction ≡ true
          → knows_interaction (merge_memory_snapshot local remote).1 interaction ≡ true)
      × (local.updated_at < remote.updated_at
          → (merge_memory_snapshot local remote).1.profile ≡ remote.profile)
      × (remote.updated_at ≤ local.updated_at
          → (merge_memory_snapshot local remote).1.profile ≡ local.profile)
unfolding merge_memory_snapshot merge_peers merge_interactions
merge_memory_snapshot-Includes local remote = (
  record {
    tags = merge_tags-HasTags local.common_tags remote.common_tags;
    peers =
        merge_entries-covers (λ p. p.peer_id) (λ p. p.last_seen_at) local.discovered_peers
          remote.discovered_peers;
    interactions =
        merge_entries-covers (λ i. i.peer_id) (λ i. i.updated_at) local.interactions
          remote.interactions;
  },
  λ tag h.
      merge_tags-has local.common_tags remote.common_tags tag
      ∙ add_tags-keeps local.common_tags remote.common_tags tag h,
  λ peer h.
      merge_entries-keeps (λ p. p.peer_id) (λ p. p.last_seen_at) local.discovered_peers
        remote.discovered_peers peer h,
  λ interaction h.
      merge_entries-keeps (λ i. i.peer_id) (λ i. i.updated_at) local.interactions
        remote.interactions interaction h,
  (merged_profile local remote).0,
  (merged_profile local remote).1,
)

newer_profile_again :
    (local remote : MemoryFile)
    → newer_profile (merge_memory_snapshot local remote).1 remote ≡ false
unfolding newer_profile merge_memory_snapshot
newer_profile_again local remote = ground (arith, profile_eq_refl remote.profile)

-- A remote memory that includes nothing new changes nothing.
nothing_new :
    (memory remote : MemoryFile)
    → newer_profile memory remote ≡ false
    → (merge_tags memory.common_tags remote.common_tags).0 ≡ false
    → Includes memory remote
    → (merge_memory_snapshot memory remote).0 ≡ false
unfolding merge_memory_snapshot merge_peers merge_interactions
nothing_new memory remote profile tags i = ground (
  arith,
  profile,
  tags,
  merge_entries-covered (λ p. p.peer_id) (λ p. p.last_seen_at) memory.discovered_peers
      remote.discovered_peers i.peers,
  merge_entries-covered (λ j. j.peer_id) (λ j. j.updated_at) memory.interactions remote.interactions
      i.interactions,
)

-- A snapshot that has been merged reports no change when it is merged again.
pub merge_memory_snapshot_again :
    (local remote : MemoryFile)
    → (merge_memory_snapshot (merge_memory_snapshot local remote).1 remote).0 ≡ false
merge_memory_snapshot_again local remote =
    nothing_new (merge_memory_snapshot local remote).1 remote (newer_profile_again local remote)
      (unfold merge_memory_snapshot in merge_tags_again local.common_tags remote.common_tags)
      (merge_memory_snapshot-Includes local remote).0
