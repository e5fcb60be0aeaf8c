-- ===== src/Limits/Rate.antt =====
-- `RateLimitConfig`, `RateLimiter`, `RateLimitKey`, `RateLimitClass` and `RateLimitBucket` of
-- crates/aichan-server/src/lib.rs: a fixed window for each client and class of request. An
-- `Instant` is its nanoseconds.
pub mod Buckets
pub mod Window
pub mod Span
use Prim.Native.Nat.{max}
use ai_channel.Prelude.{
  ℕ, zero, ◌+◌, ◌-◌, ◌/◌, ◌≤◌, Bool, true, false, ◌&&◌, ◌||◌, Option, none, some, List, [], ◌∷◌,
  leb, if◌then◌else◌,
}
use ai_channel.Prelude.Text.{Text, text, text_eq}
use ai_channel.Time.{rate_limit_window, second}
use ai_channel.Http.{HttpRequest, path, client_key}

pub record RateLimitConfig : Type 0 where
  pub read_per_minute : ℕ
  pub write_per_minute : ℕ
  pub max_body_bytes : ℕ

-- `Default for RateLimitConfig`
abbrev pub default_config : RateLimitConfig
default_config = record { read_per_minute = 120; write_per_minute = 20; max_body_bytes = 65_536 }

abbrev pub or_default : ℕ → Option ℕ → ℕ
or_default d none = d
or_default d (some n) = n

-- `RateLimitConfig::from_env`, from the parsed values of the three variables
unfoldable pub config_from_env : Option ℕ → Option ℕ → Option ℕ → RateLimitConfig
config_from_env read write body = record {
  read_per_minute = max (or_default default_config.read_per_minute read) 1;
  write_per_minute = max (or_default default_config.write_per_minute write) 1;
  max_body_bytes = max (or_default default_config.max_body_bytes body) 1024;
}

pub data RateLimitClass : Type 0 where
  read write : RateLimitClass

-- `RateLimitClass::for_request`
unfoldable pub for_request : HttpRequest → Option RateLimitClass
for_request request =
    if text_eq (path request) (text "/health")
    then none
    else if text_eq request.method (text "GET")
    then some read
    else if text_eq request.method (text "POST")
        || text_eq request.method (text "PUT")
        || text_eq request.method (text "PATCH")
        || text_eq request.method (text "DELETE")
    then some write
    else some read

-- `RateLimitClass::limit`
abbrev pub class_limit : RateLimitConfig → RateLimitClass → ℕ
class_limit config read = config.read_per_minute
class_limit config write = config.write_per_minute

pub record RateLimitKey : Type 0 where
  pub client : Text
  pub class : RateLimitClass

abbrev pub class_eq : RateLimitClass → RateLimitClass → Bool
class_eq read read = true
class_eq write write = true
class_eq _ _ = false

unfoldable pub key_eq : RateLimitKey → RateLimitKey → Bool
key_eq a b = text_eq a.client b.client && class_eq a.class b.class

pub record RateLimitBucket : Type 0 where
  pub window_start : ℕ
  pub count : ℕ

pub record RateLimitExceeded : Type 0 where
  pub key : RateLimitKey
  pub retry_after_seconds : ℕ

-- The `BTreeMap` of the limiter; the order of its keys plays no part.
abbrev pub Buckets : Type 0
Buckets = List (RateLimitKey × RateLimitBucket)

unfoldable pub lookup : RateLimitKey → Buckets → Option RateLimitBucket
lookup k [] = none
lookup k ((j, b) ∷ buckets) = if key_eq j k then some b else lookup k buckets

unfoldable pub store : RateLimitKey → RateLimitBucket → Buckets → Buckets
store k b [] = (k, b) ∷ []
store k b ((j, c) ∷ buckets) = if key_eq j k then (j, b) ∷ buckets else (j, c) ∷ store k b buckets

-- `entry(key).or_insert(...)`
abbrev pub or_insert : ℕ → Option RateLimitBucket → RateLimitBucket
or_insert now none = record { window_start = now; count = 0 }
or_insert now (some bucket) = bucket

-- the reset of a window that is over
unfoldable pub renew : ℕ → RateLimitBucket → RateLimitBucket
renew now bucket =
    if leb rate_limit_window (now - bucket.window_start)
    then record { window_start = now; count = 0 }
    else bucket

-- `Duration::as_secs` of what is left of the window, at least 1
unfoldable pub retry_after : ℕ → RateLimitBucket → ℕ
retry_after now bucket = max ((rate_limit_window - (now - bucket.window_start)) / second) 1

-- The bucket after a request, and the delay if the request is refused.
unfoldable pub charge : ℕ → ℕ → RateLimitBucket → Option ℕ × RateLimitBucket
unfolding renew retry_after
charge now limit bucket =
    let current = renew now bucket in
    if leb limit current.count
    then (some (retry_after now current), current)
    else (none, record current { count = current.count + 1 })

abbrev exceeded : RateLimitKey → Option ℕ → Option RateLimitExceeded
exceeded key none = none
exceeded key (some delay) = some (record { key = key; retry_after_seconds = delay })

-- `RateLimiter::check` at the instant `now`
unfoldable pub check : ℕ → RateLimitKey → ℕ → Buckets → Option RateLimitExceeded × Buckets
unfolding charge lookup store
check now key limit buckets =
    let (delay, bucket) = charge now limit (or_insert now (lookup key buckets)) in
    (exceeded key delay, store key bucket buckets)

-- `ServerState::check_rate_limit`
unfoldable pub check_rate_limit :
    RateLimitConfig → ℕ → HttpRequest → Buckets → Option RateLimitExceeded × Buckets
check_rate_limit config now request buckets = elim (for_request request) [
  | none ↦ (none, buckets)
  | some class ↦
      check now (record { client = client_key request; class = class }) (class_limit config class)
        buckets
]
