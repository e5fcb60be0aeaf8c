-- ===== src/Core/Config.antt =====
-- `AichanConfig` of crates/aichan-core/src/config.rs, but for its reads and writes.
use ai_channel.Prelude.{Option, none, some}
use ai_channel.Prelude.Text.{Text, text}

abbrev pub default_base_url : Text
default_base_url = text "https://aichan-server-474569752665.us-central1.run.app"

pub record AichanConfig : Type 0 where
  pub base_url : Option Text

-- `AichanConfig::default`
abbrev pub default_config : AichanConfig
default_config = record { base_url = none }

-- `Option::or`, `Option::unwrap_or`
abbrev option_or : Option Text → Option Text → Option Text
option_or none o = o
option_or (some t) o = some t

abbrev unwrap_or : Option Text → Text → Text
unwrap_or none d = d
unwrap_or (some t) d = t

unfoldable pub effective_base_url : AichanConfig → Option Text → Text
effective_base_url config override_url =
    unwrap_or (option_or override_url config.base_url) default_base_url
