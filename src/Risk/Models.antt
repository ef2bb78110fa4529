-- ===== src/Risk/Models.antt =====
-- bot/risk/models.py, with the settings that the risk layer reads and the texts of its reasons.
use moreney.Prelude.{ℕ, Bool, true, false, ◌&&◌, Option, List, ◌==◌}
use moreney.Prelude.Int.{eqb_ℤ}
use moreney.Decimal.{Decimal}
use moreney.Core.Enums.{KillSwitchState, RiskRejectReason, RiskDecisionStatus}
use moreney.Core.Text.{Str, str_eq}

-- The reasons that the program formats, by the values that they show.
pub data Reason : Type 0 where
  text : Str → Reason
  failures : ℕ → ℕ → Reason → Reason
  exchange_down warning_cleared recovery_accepted : Reason
  stale : Decimal → Reason
  daily_loss drawdown : Decimal → Decimal → Reason
  daily_loss_warning drawdown_warning : Decimal → Reason

unfoldable pub reason_eq : Reason → Reason → Bool
reason_eq (Reason.text s) (Reason.text t) = str_eq s t
reason_eq (Reason.failures a b r) (Reason.failures c d s) = (a == c) && (b == d) && reason_eq r s
reason_eq Reason.exchange_down Reason.exchange_down = true
reason_eq Reason.warning_cleared Reason.warning_cleared = true
reason_eq Reason.recovery_accepted Reason.recovery_accepted = true
reason_eq (Reason.stale a) (Reason.stale b) = eqb_ℤ a b
reason_eq (Reason.daily_loss a b) (Reason.daily_loss c d) = eqb_ℤ a c && eqb_ℤ b d
reason_eq (Reason.drawdown a b) (Reason.drawdown c d) = eqb_ℤ a c && eqb_ℤ b d
reason_eq (Reason.daily_loss_warning a) (Reason.daily_loss_warning b) = eqb_ℤ a b
reason_eq (Reason.drawdown_warning a) (Reason.drawdown_warning b) = eqb_ℤ a b
reason_eq _ _ = false

pub record RiskContext : Type 0 where
  pub exchange_healthy : Bool
  pub market_data_age_ms : Option Decimal
  pub estimated_slippage_pct : Decimal
  pub execution_latency_ms : Option Decimal
  pub liquidity_base : Option Decimal
  pub reference_price : Option Decimal
  pub current_price : Option Decimal

pub data EventType : Type 0 where
  activated recovered : EventType

pub record RiskEvent : Type 0 where
  pub event_type : EventType
  pub kill_switch_state : KillSwitchState
  pub reason : Reason
  pub reason_code : Option RiskRejectReason
  pub previous_state : KillSwitchState

-- The recovery conditions, which the engine always writes together.
pub record Conditions : Type 0 where
  pub daily_loss_ok : Bool
  pub drawdown_ok : Bool
  pub market_data_fresh : Bool
  pub exchange_healthy : Bool
  pub execution_stable : Bool

-- The fields of `Settings` that the risk layer reads, as decimals.
pub record RiskSettings : Type 0 where
  pub risk_max_position_usd : Decimal
  pub risk_max_daily_loss_usd : Decimal
  pub risk_max_open_positions : ℕ
  pub risk_min_net_profit_usd : Decimal
  pub max_position_percent : Decimal
  pub max_total_exposure_percent : Decimal
  pub max_daily_loss_percent : Decimal
  pub max_drawdown_percent : Decimal
  pub max_simultaneous_positions : Option ℕ
  pub max_trades_per_minute : ℕ
  pub max_slippage_percent : Decimal
  pub max_market_data_age_ms : Decimal
  pub max_execution_latency_ms : Decimal
  pub max_abnormal_price_move_percent : Decimal
  pub min_liquidity_base : Decimal
  pub risk_consecutive_failure_limit : ℕ
  pub risk_warning_daily_loss_percent : Decimal
  pub risk_warning_drawdown_percent : Decimal
  pub risk_require_manual_recovery : Bool

-- `RiskDecision` of bot/core/models.py; `reasons` repeats the code in words and is left out.
pub record RiskDecision : Type 0 where
  pub opportunity_id : ℕ
  pub status : RiskDecisionStatus
  pub max_allowed_quantity : Option Decimal
  pub rejection_reason : Option RiskRejectReason
  pub risk_score : Decimal
  pub position_size_allowed : Decimal
  pub maximum_loss : Decimal
  pub warnings : List Reason

-- `RiskDecision.approved`
abbrev pub is_approved : RiskDecision → Bool
is_approved d = elim d.status [
  | RiskDecisionStatus.approved ↦ true
  | RiskDecisionStatus.rejected ↦ false
]

-- What the engine reads of a `ProfitabilityResult`.
pub record ProfitabilityView : Type 0 where
  pub net_profit_usd : Decimal
  pub is_profitable : Bool
  pub trade_allowed : Bool
