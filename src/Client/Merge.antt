-- ===== src/Client/Merge.antt =====
-- `merge_memory_snapshot` of crates/aichan/src/main.rs: the snapshot of another device is merged into
-- the local memory.
pub mod Entries
pub mod Tags
pub mod Laws
use ai_channel.Prelude.{
  ℕ, Bool, true, false, not, ◌&&◌, ◌||◌, Option, none, some, List, [], ◌∷◌, ◌++◌, ltb, any,
  if◌then◌else◌,
}
use ai_channel.Prelude.Text.{Text, text_eq, compare_text}
use ai_channel.Prelude.Sort.{sort_by}
use ai_channel.Time.{DateTime}
use ai_channel.Core.Memory.{AgentProfile, PeerSummary, InteractionSummary, MemoryFile}

-- the derived `PartialEq`s
abbrev pub option_eq : Option Text → Option Text → Bool
option_eq none none = true
option_eq (some s) (some t) = text_eq s t
option_eq _ _ = false

abbrev pub texts_eq : List Text → List Text → Bool
texts_eq [] [] = true
texts_eq (s ∷ ss) (t ∷ ts) = text_eq s t && texts_eq ss ts
texts_eq _ _ = false

unfoldable pub profile_eq : AgentProfile → AgentProfile → Bool
profile_eq p q =
    option_eq p.nickname q.nickname
    && option_eq p.self_description q.self_description
    && texts_eq p.preferences q.preferences

-- the loop over the tags of the remote memory
unfoldable pub add_tags : List Text → List Text → Bool × List Text
add_tags local [] = (false, local)
add_tags local (tag ∷ tags) =
    let kept = add_tags local tags in
    let added = add_tags (local ++ tag ∷ []) tags in
    if any (λ existing. text_eq existing tag) local then kept else (true, added.1)

-- `Vec::dedup`: an element that equals the one before it is dropped
unfoldable pub dedup : List Text → List Text
dedup [] = []
dedup (t ∷ []) = t ∷ []
dedup (s ∷ t ∷ ts) = let rest = dedup (t ∷ ts) in if text_eq s t then rest else s ∷ rest

unfoldable pub merge_tags : List Text → List Text → Bool × List Text
merge_tags local remote =
    let (changed, tags) = add_tags local remote in (changed, dedup (sort_by compare_text tags))

module _ {A : Type 0} (id : A → Text) (stamp : A → DateTime) where
  -- the `match` of the loops: the first local entry with the id is replaced by a newer one, and an
  -- entry with a new id is pushed
  unfoldable pub merge_entry : A → List A → Bool × List A
  merge_entry remote [] = (true, remote ∷ [])
  merge_entry remote (entry ∷ entries) =
      let rest = merge_entry remote entries in
      if text_eq (id entry) (id remote)
      then (if ltb (stamp entry) (stamp remote)
          then (true, remote ∷ entries)
          else (false, entry ∷ entries))
      else (rest.0, entry ∷ rest.1)

  -- the loop over the entries of the remote memory
  unfoldable pub merge_entries : List A → List A → Bool × List A
  unfolding merge_entry
  merge_entries local [] = (false, local)
  merge_entries local (remote ∷ entries) =
      let (changed, merged) = merge_entry remote local in
      let (later, all_merged) = merge_entries merged entries in (changed || later, all_merged)

unfoldable pub merge_peers : List PeerSummary → List PeerSummary → Bool × List PeerSummary
merge_peers local remote =
    merge_entries (λ peer. peer.peer_id) (λ peer. peer.last_seen_at) local remote

unfoldable pub merge_interactions :
    List InteractionSummary → List InteractionSummary → Bool × List InteractionSummary
merge_interactions local remote =
    merge_entries (λ interaction. interaction.peer_id) (λ interaction. interaction.updated_at) local
      remote

-- whether `profile` is replaced
unfoldable pub newer_profile : MemoryFile → MemoryFile → Bool
newer_profile local remote =
    ltb local.updated_at remote.updated_at && not (profile_eq local.profile remote.profile)

-- whether anything was changed, and the local memory
unfoldable pub merge_memory_snapshot : MemoryFile → MemoryFile → Bool × MemoryFile
merge_memory_snapshot local remote =
    let replaced = newer_profile local remote in
    let (tagged, tags) = merge_tags local.common_tags remote.common_tags in
    let (met, peers) = merge_peers local.discovered_peers remote.discovered_peers in
    let (talked, interactions) = merge_interactions local.interactions remote.interactions in
    let changed = replaced || tagged || met || talked in
    (
      changed,
      record local {
        profile = if replaced then remote.profile else local.profile;
        common_tags = tags;
        discovered_peers = peers;
        interactions = interactions;
        updated_at =
            if changed && ltb local.updated_at remote.updated_at
            then remote.updated_at
            else local.updated_at;
      },
    )
