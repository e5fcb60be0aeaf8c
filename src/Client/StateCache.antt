-- ===== src/Client/StateCache.antt =====
-- The cache of one command, the choice of its state directory and its requests: `cached_identity` and
-- the like, `default_state_dir`, the timeout of `main`, the requests that `publish_delete` and `inbox`
-- sign, and the addresses of `relay_request` in crates/aichan/src/main.rs.
pub mod Laws
use ai_channel.Prelude.{
  ℕ, Bool, true, false, not, ◌||◌, Option, none, some, List, [], ◌++◌, if◌then◌else◌,
}
use ai_channel.Prelude.Text.{Text, text, text_eq, decimal, strip_suffix}
use ai_channel.Prelude.Result.{Result, ok, err}
use ai_channel.Time.{DateTime}
use ai_channel.Protocol.Types.{RequestToSign}
use ai_channel.Core.Memory.{MemoryFile}
use ai_channel.Core.Device.{DeviceFile}
use ai_channel.Core.Config.{AichanConfig}
use ai_channel.Core.Identity.{IdentityFile}
use ai_channel.Core.LocalState.{LocalStateDir, root, File}
use ai_channel.Client.Url.{clamp}
use ai_channel.Client.Lines.{trim_start_matches}

pub record CachedState : Type 0 where
  pub identity : Option IdentityFile
  pub device : Option DeviceFile
  pub memory : Option MemoryFile
  pub config : Option AichanConfig
  pub state_root : Text

-- `init_state_cache`
unfoldable pub new_cache : LocalStateDir → CachedState
new_cache state = record {
  identity = none;
  device = none;
  memory = none;
  config = none;
  state_root = root state;
}

-- What is loaded of one file: the result, and the file that is left.
abbrev pub Loader : Type 0 → Type 0
Loader A = File → Result A × File

-- The slot of one value after it was asked for: it is loaded where it is empty, or where the cache is
-- of another directory.
abbrev reloaded : {A : Type 0} → Option A → Result A × File → Result A × Option A × File
reloaded slot (ok fresh, after) = (ok fresh, some fresh, after)
reloaded slot (err e, after) = (err e, slot, after)

unfoldable pub fill_slot :
    {A : Type 0} → Bool → Loader A → Option A → File → Result A × Option A × File
fill_slot same_root load none file = reloaded none (load file)
fill_slot same_root load (some value) file =
    if same_root then (ok value, some value, file) else reloaded (some value) (load file)

module _ (state : LocalStateDir) where
  abbrev pub is_cached_root : CachedState → Bool
  is_cached_root cached = text_eq cached.state_root (root state)

  unfoldable pub cached_identity :
      Loader IdentityFile → CachedState → File → Result IdentityFile × CachedState × File
  unfolding fill_slot
  cached_identity create_or_load cached file =
      let (value, slot, after) =
        fill_slot (is_cached_root cached) create_or_load cached.identity file in
      (value, record cached { identity = slot }, after)

  unfoldable pub cached_device :
      Loader DeviceFile → CachedState → File → Result DeviceFile × CachedState × File
  unfolding fill_slot
  cached_device create_or_load cached file =
      let (value, slot, after) =
        fill_slot (is_cached_root cached) create_or_load cached.device file in
      (value, record cached { device = slot }, after)

  -- also `mutable_memory`
  unfoldable pub cached_memory :
      Loader MemoryFile → CachedState → File → Result MemoryFile × CachedState × File
  unfolding fill_slot
  cached_memory create_or_load cached file =
      let (value, slot, after) =
        fill_slot (is_cached_root cached) create_or_load cached.memory file in
      (value, record cached { memory = slot }, after)

  unfoldable pub cached_config :
      Loader AichanConfig → CachedState → File → Result AichanConfig × CachedState × File
  unfolding fill_slot
  cached_config load_or_default cached file =
      let (value, slot, after) =
        fill_slot (is_cached_root cached) load_or_default cached.config file in
      (value, record cached { config = slot }, after)

  unfoldable pub update_memory_in_cache : MemoryFile → CachedState → CachedState
  update_memory_in_cache memory cached =
      if is_cached_root cached then record cached { memory = some memory } else cached

-- The directories that `default_state_dir` looks at, and whether each has an identity file.
pub record StatePlaces : Type 0 where
  pub project_dir : Option Text
  pub current_dir : Result Text
  pub home_dir : Result Text
  pub has_identity : Text → Bool

abbrev at : Text → LocalStateDir
at path = record { project_root = path }

abbrev home_or_project : StatePlaces → Text → Text → LocalStateDir
home_or_project places current home =
    if places.has_identity home
    then at home
    else if places.has_identity current
    then at current
    else at home

abbrev from_results : StatePlaces → Result Text → Result Text → Result LocalStateDir
from_results places (err e) home = err e
from_results places (ok current) (err e) = err e
from_results places (ok current) (ok home) = ok (home_or_project places current home)

unfoldable pub default_state_dir : StatePlaces → Result LocalStateDir
default_state_dir places = elim places.project_dir [
  | some path ↦ ok (at path)
  | none ↦ from_results places places.current_dir places.home_dir
]

abbrev or_default : Option ℕ → ℕ
or_default none = 30
or_default (some n) = n

-- the timeout in seconds
unfoldable pub timeout_secs : Option ℕ → ℕ
timeout_secs timeout_seconds = clamp 1 120 (or_default timeout_seconds)

-- the random values of a signed request, and its time
pub record RequestSeed : Type 0 where
  pub nonce_uuid : Text
  pub idempotency_uuid : Text
  pub now : DateTime

-- the request of `publish_delete`
unfoldable pub delete_request : IdentityFile → Text → RequestSeed → RequestToSign
delete_request identity publish_id seed = record {
  method = text "DELETE";
  path_and_query = text "/v1/publish/" ++ publish_id;
  body = [];
  peer_id = identity.peer_id;
  public_key = identity.public_key;
  timestamp = seed.now;
  nonce = text "nonce_" ++ seed.nonce_uuid;
  idempotency_key = some (text "idem_" ++ seed.idempotency_uuid);
}

-- the request of `inbox`
unfoldable pub inbox_request : IdentityFile → ℕ → RequestSeed → RequestToSign
inbox_request identity limit seed = record {
  method = text "GET";
  path_and_query = text "/v1/inbox?limit=" ++ decimal (clamp 1 100 limit);
  body = [];
  peer_id = identity.peer_id;
  public_key = identity.public_key;
  timestamp = seed.now;
  nonce = text "nonce_" ++ seed.nonce_uuid;
  idempotency_key = none;
}
