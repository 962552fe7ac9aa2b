-- ===== src/Backoffice/Dispatch/Tables.antt =====
-- SenSa/backoffice/models.py: the rows that the dispatcher reads and writes, and what it calls.
use sen_sa.Prelude.{ℕ, Bool, Option, List, String}
use sen_sa.Alerts.Types.{Level}

pub record Account : Type 0 where
  pub id : ℕ
  pub username : String
  pub first_name : String
  pub role : String
  pub organization : Option ℕ
  pub is_active : Bool
  pub is_locked : Bool

-- A token of `recipients_csv`, told apart by its prefix; a group whose number cannot be read is
-- `group none`.
pub data Token : Type 0 where
  all_users leaders : Token
  group : (organization : Option ℕ) → Token
  role : (code : String) → Token
  unknown : (text : String) → Token

-- `priority` is that of the policy's alarm level, `risk_code` the code of its risk category.
pub record Policy : Type 0 where
  pub id : ℕ
  pub risk_code : String
  pub priority : ℕ
  pub channels : List String
  pub recipients : List Token
  pub message_template : String
  pub is_active : Bool

pub data SendStatus : Type 0 where
  pending sent failed skipped : SendStatus

pub record Log : Type 0 where
  pub policy : Option ℕ
  pub alarm : Option ℕ
  pub recipient : ℕ
  pub recipient_name_snapshot : String
  pub channel : String
  pub send_status : SendStatus
  pub error_message : String
  pub sent_at : Option ℕ

-- What a provider's `send` does: it answers with a flag and an error text, '' for none, or raises.
pub data Delivery : Type 0 where
  answers : (ok : Bool) (err : String) → Delivery
  raises : (repr : String) → Delivery

-- What `str.format` does: a text, a KeyError or IndexError, or another exception.
pub data Formatted : Type 0 where
  text : String → Formatted
  bad_field bad_template : Formatted

-- The arguments of `template.format`.
pub record Fields : Type 0 where
  pub worker_name : String
  pub worker_id : String
  pub device_id : String
  pub value : String
  pub level : Level

-- The tables: users, and the `leader_id` of each organization.
pub record Directory : Type 0 where
  pub users : List Account
  pub leaders : List (Option ℕ)

-- What the dispatcher calls: `get_provider(channel).send`, `str.format`, and the first 300 characters
-- of `provider_error: ...` of an exception.
pub record Services : Type 0 where
  pub send : (channel : String) → Account → (message : String) → Delivery
  pub format : String → Fields → Formatted
  pub clip : String → String
