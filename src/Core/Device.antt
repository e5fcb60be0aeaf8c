-- ===== src/Core/Device.antt =====
-- `DeviceId` and `DeviceFile` of crates/aichan-core/src/device.rs, but for its reads and writes.
use ai_channel.Prelude.{ℕ, Bool, ◌&&◌, ◌||◌, ◌++◌, leb, ◌==◌, all}
use ai_channel.Prelude.Text.{Text, text, strip_prefix, byte_len, as_bytes, decimal}
use ai_channel.Prelude.Result.{Result, ◌>>=◌, ◌>>◌, ensure, context}
use ai_channel.Time.{DateTime}
use ai_channel.Core.Errors.{device_error}

abbrev pub DeviceId : Type 0
DeviceId = Text

pub record DeviceFile : Type 0 where
  pub version : ℕ
  pub device_id : DeviceId
  pub created_at : DateTime

-- `DeviceId::new`, with the 32 hex digits of a random UUID
unfoldable pub new_device_id : Text → DeviceId
new_device_id uuid = text "device_" ++ uuid

-- `u8::is_ascii_hexdigit`
unfoldable pub is_ascii_hexdigit : ℕ → Bool
is_ascii_hexdigit b =
    (leb b'0' b && leb b b'9') || (leb b'a' b && leb b b'f') || (leb b'A' b && leb b b'F')

-- `DeviceId::validate`
unfoldable pub validate_device_id : DeviceId → Result (Unit {0})
validate_device_id id = do
  suffix ←
      context (strip_prefix (text "device_") id)
        (device_error (text "device_id must start with device_"))
  ensure (byte_len suffix == 32 && all is_ascii_hexdigit (as_bytes suffix))
      (device_error (text "device_id must be device_ followed by 32 hex characters"))

-- `DeviceFile::validate`
unfoldable pub validate_device : DeviceFile → Result (Unit {0})
unfolding validate_device_id
validate_device device = do
  ensure (device.version == 1)
      (device_error (text "unsupported version " ++ decimal device.version))
  validate_device_id device.device_id

-- the file that `create_or_load` and `create_fresh` make
unfoldable pub new_device : Text → DateTime → DeviceFile
new_device uuid now = record { version = 1; device_id = new_device_id uuid; created_at = now }
