-- ===== src/Risk/KillSwitch.antt =====
-- bot/risk/kill_switch.py: `KillSwitch`. The event handler is a list that grows, and the time of a
-- transition is an argument.
use moreney.Prelude.{
  ℕ, ◌+◌, Bool, true, false, not, ◌&&◌, Option, none, some, List, [], ◌∷◌, ◌++◌, leb, if◌then◌else◌,
}
use moreney.Core.Enums.{KillSwitchState, RiskRejectReason}
use moreney.Risk.Models.{Reason, reason_eq, RiskEvent, EventType, Conditions, RiskSettings}

pub record KillSwitch : Type 0 where
  pub state : KillSwitchState
  pub reason : Option Reason
  pub reason_code : Option RiskRejectReason
  pub activated_at : Option ℕ
  pub consecutive_failures : ℕ
  pub last_conditions : Option Conditions
  pub events : List RiskEvent

abbrev pub new_kill_switch : KillSwitch
new_kill_switch = record {
  state = KillSwitchState.running;
  reason = none;
  reason_code = none;
  activated_at = none;
  consecutive_failures = 0;
  last_conditions = none;
  events = [];
}

abbrev pub state_eq : KillSwitchState → KillSwitchState → Bool
state_eq KillSwitchState.running KillSwitchState.running = true
state_eq KillSwitchState.warning KillSwitchState.warning = true
state_eq KillSwitchState.paused KillSwitchState.paused = true
state_eq KillSwitchState.emergency_stop KillSwitchState.emergency_stop = true
state_eq _ _ = false

-- Membership of `{PAUSED, EMERGENCY_STOP}`.
abbrev pub is_blocking : KillSwitchState → Bool
is_blocking KillSwitchState.paused = true
is_blocking KillSwitchState.emergency_stop = true
is_blocking KillSwitchState.running = false
is_blocking KillSwitchState.warning = false

unfoldable pub allows_new_orders : KillSwitch → Bool
allows_new_orders k = elim k.state [
  | KillSwitchState.running ↦ true
  | KillSwitchState.warning ↦ true
  | KillSwitchState.paused ↦ false
  | KillSwitchState.emergency_stop ↦ false
]

abbrev pub same_reason : Option Reason → Reason → Bool
same_reason none r = false
same_reason (some s) r = reason_eq s r

-- The event of a transition, if it has one.
unfoldable pub transition_event :
    KillSwitchState → KillSwitchState → Reason → Option RiskRejectReason → List RiskEvent
transition_event previous new_state reason code =
    if is_blocking new_state
    then record {
      event_type = EventType.activated;
      kill_switch_state = new_state;
      reason = reason;
      reason_code = code;
      previous_state = previous;
    }
      ∷ []
    else if is_blocking previous
    then record {
      event_type = EventType.recovered;
      kill_switch_state = new_state;
      reason = reason;
      reason_code = code;
      previous_state = previous;
    }
      ∷ []
    else []

-- `_transition`
unfoldable pub transition :
    ℕ → KillSwitchState → Reason → Option RiskRejectReason → KillSwitch → KillSwitch
transition now new_state reason code k =
    let running = state_eq new_state KillSwitchState.running in
    if state_eq k.state new_state && same_reason k.reason reason then k else record k {
      state = new_state;
      reason = if running then none else some reason;
      reason_code = if running then none else code;
      activated_at =
          if running then none else if is_blocking new_state then some now else k.activated_at;
      events = k.events ++ transition_event k.state new_state reason code;
    }

unfoldable pub warn : ℕ → Reason → Option RiskRejectReason → KillSwitch → KillSwitch
warn now reason code k =
    if is_blocking k.state then k else transition now KillSwitchState.warning reason code k

unfoldable pub pause : ℕ → Reason → Option RiskRejectReason → KillSwitch → KillSwitch
pause now reason code k =
    if state_eq k.state KillSwitchState.emergency_stop
    then k
    else transition now KillSwitchState.paused reason code k

unfoldable pub emergency_stop : ℕ → Reason → Option RiskRejectReason → KillSwitch → KillSwitch
emergency_stop now = transition now KillSwitchState.emergency_stop

unfoldable pub record_execution_success : KillSwitch → KillSwitch
record_execution_success k = record k { consecutive_failures = 0 }

unfoldable pub record_execution_failure : RiskSettings → ℕ → Reason → KillSwitch → KillSwitch
record_execution_failure cfg now reason k =
    let failures = k.consecutive_failures + 1 in
    let limit = cfg.risk_consecutive_failure_limit in
    let k' = record k { consecutive_failures = failures } in
    if leb limit failures
    then emergency_stop now (Reason.failures failures limit reason)
        (some RiskRejectReason.kill_switch) k'
    else k'

unfoldable pub update_conditions : Conditions → KillSwitch → KillSwitch
update_conditions c k = record k { last_conditions = some c }

-- `recovery_conditions_met` on the last conditions; none were written before the first update.
unfoldable pub recovery_conditions_met : Option Conditions → Bool
recovery_conditions_met none = false
recovery_conditions_met (some c) =
    c.daily_loss_ok && c.drawdown_ok && c.market_data_fresh && c.exchange_healthy
    && c.execution_stable

-- `recover`
unfoldable pub recover : RiskSettings → ℕ → Bool → KillSwitch → KillSwitch × Bool
recover cfg now force k =
    let met = recovery_conditions_met k.last_conditions in
    let resumed = transition now KillSwitchState.running Reason.recovery_accepted none k in
    let accepted : KillSwitch × Bool = (record resumed { consecutive_failures = 0 }, true) in
    elim k.state [
      | KillSwitchState.running ↦ (k, true)
      | KillSwitchState.warning ↦
          (transition now KillSwitchState.running Reason.warning_cleared none k, true)
      | _ ↦
          if not force && cfg.risk_require_manual_recovery && not met
          then (k, false)
          else if not force && not met
          then (k, false)
          else accepted
    ]
