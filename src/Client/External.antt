-- ===== src/Client/External.antt =====
-- What crates/aichan/src/main.rs calls of serde and chrono, besides what aichan-core calls.
use ai_channel.Prelude.{ℕ, List}
use ai_channel.Prelude.Text.{Text}
use ai_channel.Prelude.Result.{Result}
use ai_channel.Time.{DateTime}
use ai_channel.Json.{Value}
use ai_channel.Publish.Record.{PublishObject}
use ai_channel.Message.{MessageObject}

pub record ClientCodec : Type 0 where
  -- `serde_json::from_value`
  pub from_publish_value : Value → Result PublishObject
  pub from_message_value : Value → Result MessageObject
  -- `DateTime::to_rfc3339`
  pub to_rfc3339 : DateTime → Text
  -- `serde_json::to_vec_pretty` of a message envelope
  pub print_message : MessageObject → Result (List ℕ)
