-- ===== src/Merchant/State.antt =====
-- The state of `Merchant` (src/merchant/merchant.go, lightning.go, owed_grant.go, receive_intent.go)
-- with the records that it tracks. Instants are nanoseconds, and `none` is the zero `time.Time`.
use tollgate_module_basic_go.Prelude.{ℕ, Bool, Option, List, Str}
use tollgate_module_basic_go.Dict.{Dict}
use tollgate_module_basic_go.Valve.State.{Valve}

-- The metric strings that the code switches on.
pub data Metric : Type 0 where
  milliseconds bytes : Metric
  other : Str → Metric

-- `CustomerSession`: `start_time` and `ticket_expires_at` are Unix seconds.
pub record CustomerSession : Type 0 where
  pub mac_address : Str
  pub start_time : ℕ
  pub metric : Metric
  pub allotment : ℕ
  pub consumed : ℕ
  pub attachment_usage : ℕ
  pub ticket_handle : Str
  pub ticket_expires_at : ℕ

-- The fields of `config_manager.MintConfig` and `Config` that the sale of access reads.
pub record MintConfig : Type 0 where
  pub url : Str
  pub price_per_step : ℕ
  pub min_purchase_steps : ℕ
  pub price_unit : Str

pub record Config : Type 0 where
  pub metric : Metric
  pub step_size : ℕ
  pub accepted_mints : List MintConfig

pub data OwedGrantState : Type 0 where
  owed granted expired : OwedGrantState

-- `owedGrantRecord`
pub record OwedGrantRecord : Type 0 where
  pub mac_address : Str
  pub mint_url : Str
  pub amount_sats : ℕ
  pub allotment : ℕ
  pub metric : Metric
  pub created_at : ℕ
  pub granted_at : Option ℕ
  pub expired_at : Option ℕ
  pub state : OwedGrantState
  pub attempts : ℕ
  pub processing : Bool

pub data IntentState : Type 0 where
  pending granted owed abandoned : IntentState

-- `receiveIntentRecord`
pub record ReceiveIntentRecord : Type 0 where
  pub mac_address : Str
  pub mint_url : Str
  pub amount_sats : ℕ
  pub token_serialized : Str
  pub created_at : ℕ
  pub resolved_at : Option ℕ
  pub state : IntentState

-- `unmeteredSession`
pub record UnmeteredSession : Type 0 where
  pub sweeps : ℕ
  pub last_baseline_attempt : Option ℕ
  pub force_close_escalated : Bool
  pub last_force_close_report : Option ℕ
  pub last_close_abandoned : Bool

-- `grant_file` and `intent_file` are what the two journals hold on disk, `writes` counts the writes so
-- far, and `monitors` are the references whose `monitorOwedGrant` was started, and
-- `marked_unreachable` the mints for which the health tracker's `MarkUnreachable` was called.
pub record Merchant : Type 0 where
  pub config : Config
  pub customer_sessions : Dict CustomerSession
  pub expired_sessions : Dict ℕ
  pub unmetered_sessions : Dict UnmeteredSession
  pub owed_grants : Dict OwedGrantRecord
  pub receive_intents : Dict ReceiveIntentRecord
  pub receive_in_flight : List Str
  pub grant_file : Dict OwedGrantRecord
  pub intent_file : Dict ReceiveIntentRecord
  pub writes : ℕ
  pub monitors : List Str
  pub marked_unreachable : List Str
  pub valve : Valve
