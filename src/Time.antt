-- ===== src/Time.antt =====
-- Time: chrono's `DateTime<Utc>` and `Duration`, and the time limits of
-- crates/aichan-server/src/lib.rs and crates/aichan-core/src/activity.rs.
use ai_channel.Prelude.{ℕ, ◌+◌, ◌-◌, ◌*◌, Option, none, some, leb, if◌then◌else◌}

-- A point in time, in nanoseconds since the earliest one that chrono can represent.
abbrev pub DateTime : Type 0
DateTime = ℕ

abbrev pub second : ℕ
second = 1_000_000_000

-- chrono's `DateTime::<Utc>::MAX_UTC`
abbrev pub max_utc : DateTime
max_utc = 16_544_868_105_600 * second - 1

-- The Unix epoch, before which `Utc::now()` does not return.
abbrev pub unix_epoch : DateTime
unix_epoch = 8_334_601_228_800 * second

-- `time + Duration::seconds(n)`: past `MAX_UTC` the addition panics, here `none`.
unfoldable pub add_seconds : DateTime → ℕ → Option DateTime
add_seconds t n = if leb (t + n * second) max_utc then some (t + n * second) else none

abbrev pub request_signature_max_skew_seconds : ℕ
request_signature_max_skew_seconds = 300

-- The skew as a duration.
abbrev pub max_skew : ℕ
max_skew = request_signature_max_skew_seconds * second

abbrev pub rate_limit_window : ℕ
rate_limit_window = 60 * second

abbrev pub max_message_ttl_seconds : ℕ
max_message_ttl_seconds = 604_800

abbrev pub activity_ttl_seconds : ℕ
activity_ttl_seconds = 604_800

abbrev pub discover_rotation_seconds : ℕ
discover_rotation_seconds = 300
