-- ===== src/Client/StateCache/Laws.antt =====
-- A command loads each file at most once.
use ai_channel.Prelude.Text.{text_eq}
use ai_channel.Prelude.{◌≡◌, refl, ap, true, Option, none, some, arith, inl, inr, sym, ◌∙◌}
use ai_channel.Prelude.Result.{ok, Result-cases}
use ai_channel.Core.Memory.{MemoryFile}
use ai_channel.Core.LocalState.{LocalStateDir, File, root}
use ai_channel.Client.StateCache.{
  CachedState, Loader, fill_slot, is_cached_root, cached_memory, update_memory_in_cache,
}

fill_slot-filled :
    {A : Type 0} (load : Loader A) (slot after_slot : Option A) (file after : File) (value : A)
    → fill_slot true load slot file ≡ (ok value, after_slot, after)
    → after_slot ≡ some value
unfolding fill_slot
fill_slot-filled load (some v) after_slot file after value h = ground arith
fill_slot-filled load none after_slot file after value h = elim (Result-cases (load file).0) [
  | inr (e, l) ↦ absurd (ground (arith, l, h))
  | inl (v, l) ↦ ground (arith, l, h)
]

from_slot :
    (state : LocalStateDir) (later : Loader MemoryFile) (cached : CachedState) (other : File)
    (memory : MemoryFile)
    → is_cached_root state cached ≡ true
    → cached.memory ≡ some memory
    → cached_memory state later cached other ≡ (ok memory, cached, other)
unfolding cached_memory fill_slot
from_slot state later cached other memory r m = rw (r, m) refl

-- Once the memory was loaded for the directory of the cache, a later call returns the same memory and
-- does not look at the file, whatever the file then holds; and after the cache was updated with a
-- memory, as a sync does, a later call returns that one.
pub cached_memory_stable :
    (state : LocalStateDir) (load later : Loader MemoryFile) (cached after_cache : CachedState)
    (file after other : File) (memory updated : MemoryFile)
    → is_cached_root state cached ≡ true
    → cached_memory state load cached file ≡ (ok memory, after_cache, after)
    → (cached_memory state later after_cache other ≡ (ok memory, after_cache, other))
      × (cached_memory state later (update_memory_in_cache state updated after_cache) other
          ≡ (ok updated, update_memory_in_cache state updated after_cache, other))
unfolding cached_memory update_memory_in_cache
cached_memory_stable state load later cached after_cache file after other memory updated r h =
    let same_root : after_cache.state_root ≡ cached.state_root = sym (ap (λ x. x.1.state_root) h) in
    let root_is : is_cached_root state after_cache ≡ true =
      ap (λ t. text_eq t (root state)) same_root ∙ r in
    let slot : after_cache.memory ≡ some memory = slot_is same_root in
    (
      from_slot state later after_cache other memory root_is slot,
      rw root_is (
          from_slot state later (record after_cache { memory = some updated }) other updated root_is
            refl),
    )
  where
    slot_is : after_cache.state_root ≡ cached.state_root → after_cache.memory ≡ some memory
    slot_is same_root =
        fill_slot-filled load cached.memory after_cache.memory file after memory
          (rw (← r) (ap (λ x. (x.0, x.1.memory, x.2)) h))
