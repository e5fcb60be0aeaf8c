-- ===== src/Core/Errors.antt =====
-- The errors of crates/aichan-core/src/error.rs, by the text that they display. The texts of
-- `std::io` and `serde_json` are what those libraries return.
use ai_channel.Prelude.{◌++◌}
use ai_channel.Prelude.Text.{Text, text}

-- `AichanError::Io` of `io_error` and `AichanError::Json` of `json_error`
unfoldable pub io_error : Text → Text → Text
io_error path source = text "I/O error at " ++ path ++ text ": " ++ source

unfoldable pub json_error : Text → Text → Text
json_error path source = text "JSON error at " ++ path ++ text ": " ++ source

-- `AichanError::InvalidDevice`, `AichanError::InvalidMemory`
unfoldable pub device_error : Text → Text
device_error message = text "invalid device file: " ++ message

unfoldable pub memory_error : Text → Text
memory_error message = text "invalid memory file: " ++ message
