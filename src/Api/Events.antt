-- ===== src/Api/Events.antt =====
-- backend/app/core/security_events.py: the events that the routes emit, and the record that
-- `SecurityEventLogger` makes of one. The logger itself is left out.
pub mod Redaction
pub mod Sensitive
pub mod Safety
use opsflow.Prelude.Int.{ℤ}
use opsflow.Prelude.{ℕ, Bool, String, Option, List}

pub data SecurityOutcome : Type 0 where
  success failure blocked : SecurityOutcome

-- `logging.INFO`, `logging.WARNING` and `logging.ERROR`
pub data Level : Type 0 where
  info warning error : Level

-- `SecurityDetailValue`
pub data DetailValue : Type 0 where
  text_value : String → DetailValue
  number_value : ℤ → DetailValue
  boolean_value : Bool → DetailValue
  no_value : DetailValue

-- The arguments of `emit`, without the request.
pub record SecurityEvent : Type 0 where
  pub event : String
  pub outcome : SecurityOutcome
  pub level : Level
  pub user_id : Option ℕ
  pub account_identifier : Option String
  pub reason : Option String
  pub details : List (String × DetailValue)
