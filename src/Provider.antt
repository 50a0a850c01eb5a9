-- ===== src/Provider.antt =====
-- Provider values (provider/provider.go): metadata, stream identities, token usage and stop reasons.
pub mod Usages
pub mod Retries
pub mod Streams
pub mod Resolver
pub mod Failover
pub mod Sse
use go_hydaelyn.Prelude.{Bool, Text, List}
use go_hydaelyn.Prelude.Int.{ℤ}

pub record Metadata : Type 0 where
  pub name : Text
  pub models : List Text
  pub version : Text

pub record StreamIdentity : Type 0 where
  pub provider : Metadata
  pub model : Text

pub data StopReason : Type 0 where
  no_reason unknown complete tool_use length content_filter max_turns aborted error : StopReason
  other_reason : Text → StopReason

pub record Usage : Type 0 where
  pub input_tokens : ℤ
  pub cached_input_tokens : ℤ
  pub cached_input_tokens_reported : Bool
  pub cache_write_input_tokens : ℤ
  pub cache_write_input_tokens_reported : Bool
  pub output_tokens : ℤ
  pub reasoning_tokens : ℤ
  pub total_tokens : ℤ
