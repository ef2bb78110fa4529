-- ===== src/Risk/Recovery.antt =====
-- The kill switch as a state machine: how it blocks, and what unblocks it.
use moreney.Prelude.{
  ℕ, ◌+◌, ◌≤◌, ◌<◌, length, ◌≡◌, ◌≢◌, Bool, true, false, ◌||◌, Option, none, List, [], ◌∷◌, arith,
  All,
}
use moreney.Core.Enums.{KillSwitchState, RiskRejectReason}
use moreney.Risk.Models.{Reason, Conditions, RiskSettings}
use moreney.Risk.KillSwitch.{
  KillSwitch, new_kill_switch, is_blocking, allows_new_orders, transition, warn, pause,
  emergency_stop, record_execution_success, record_execution_failure, update_conditions,
  recovery_conditions_met, recover,
}

-- The calls that change a kill switch.
pub data SwitchCall : Type 0 where
  warns pauses stops : ℕ → Reason → Option RiskRejectReason → SwitchCall
  succeeds : SwitchCall
  fails : ℕ → Reason → SwitchCall
  updates : Conditions → SwitchCall
  recovers : ℕ → Bool → SwitchCall

module _ (cfg : RiskSettings) where
  unfoldable pub call : SwitchCall → KillSwitch → KillSwitch
  call (SwitchCall.warns now r c) k = warn now r c k
  call (SwitchCall.pauses now r c) k = pause now r c k
  call (SwitchCall.stops now r c) k = emergency_stop now r c k
  call SwitchCall.succeeds k = record_execution_success k
  call (SwitchCall.fails now r) k = record_execution_failure cfg now r k
  call (SwitchCall.updates c) k = update_conditions c k
  call (SwitchCall.recovers now force) k = (recover cfg now force k).0

  unfoldable pub calls : List SwitchCall → KillSwitch → KillSwitch
  calls [] k = k
  calls (c ∷ cs) k = calls cs (call c k)

  -- The reachable switches.
  pub data Reachable : KillSwitch → Type 0 where
    fresh : Reachable new_kill_switch
    after : {k : KillSwitch} (c : SwitchCall) → Reachable k → Reachable (call c k)

  abbrev pub is_recover : SwitchCall → Bool
  is_recover (SwitchCall.recovers now force) = true
  is_recover _ = false

  call-blocking :
      (c : SwitchCall) (k : KillSwitch)
      → is_recover c ≡ false
      → is_blocking k.state ≡ true
      → is_blocking (call c k).state ≡ true
  unfolding call warn pause emergency_stop record_execution_success record_execution_failure
      update_conditions transition
  call-blocking (SwitchCall.warns now r c) k h b = ground arith
  call-blocking (SwitchCall.pauses now r c) k h b = ground arith
  call-blocking (SwitchCall.stops now r c) k h b = ground arith
  call-blocking SwitchCall.succeeds k h b = ground arith
  call-blocking (SwitchCall.fails now r) k h b = ground arith
  call-blocking (SwitchCall.updates c) k h b = ground arith
  call-blocking (SwitchCall.recovers now force) k h b = cc

  -- Calls other than `recover` never unblock a switch that blocks new orders.
  pub calls_stay_blocked :
      (cs : List SwitchCall) (k : KillSwitch)
      → All (λ c. is_recover c ≡ false) cs
      → allows_new_orders k ≡ false
      → allows_new_orders (calls cs k) ≡ false
  unfolding calls allows_new_orders
  calls_stay_blocked [] k h b = b
  calls_stay_blocked (c ∷ cs) k (h, hs) b =
      calls_stay_blocked cs (call c k) hs (ground (arith, call-blocking c k h))

  -- What every reachable switch satisfies: the time of activation is kept exactly while orders are
  -- blocked, a blocked or warning switch has a reason and a running one has none.
  pub record IsCoherent (k : KillSwitch) : Type 0 where
    pub stamped : is_blocking k.state ≡ true → k.activated_at ≢ none
    pub unstamped : is_blocking k.state ≡ false → k.activated_at ≡ none
    pub explained : k.state ≢ KillSwitchState.running → k.reason ≢ none
    pub silent : k.state ≡ KillSwitchState.running → (k.reason ≡ none) × (k.reason_code ≡ none)

  call-IsCoherent : (c : SwitchCall) (k : KillSwitch) → IsCoherent k → IsCoherent (call c k)
  unfolding call warn pause emergency_stop record_execution_success record_execution_failure
      update_conditions transition recover
  call-IsCoherent (SwitchCall.warns now r c) k v = ground arith
  call-IsCoherent (SwitchCall.pauses now r c) k v = ground arith
  call-IsCoherent (SwitchCall.stops now r c) k v = ground arith
  call-IsCoherent SwitchCall.succeeds k v = ground arith
  call-IsCoherent (SwitchCall.fails now r) k v = ground arith
  call-IsCoherent (SwitchCall.updates c) k v = ground arith
  call-IsCoherent (SwitchCall.recovers now force) k v = ground arith

  -- A kill switch that calls lead to from a new one has an activation time exactly while it blocks
  -- orders, a reason if it is not running, and neither a reason nor a code if it is running.
  pub Reachable-IsCoherent : {k : KillSwitch} → Reachable k → IsCoherent k
  Reachable-IsCoherent fresh = ground arith
  Reachable-IsCoherent (after c r) = call-IsCoherent c _ (Reachable-IsCoherent r)

  -- `recover` on a blocked switch answers true exactly if it is forced or the last conditions are
  -- all met. Then the switch runs, with no reason, no activation time and no failures counted;
  -- otherwise nothing changes. The setting for manual recovery has no part in it.
  pub recover_blocked :
      (now : ℕ) (force : Bool) (k : KillSwitch)
      → allows_new_orders k ≡ false
      → let (k', done) = recover cfg now force k in
        (done ≡ (force || recovery_conditions_met k.last_conditions))
        × (done ≡ false → k' ≡ k)
        × (done ≡ true
            → (k'.state ≡ KillSwitchState.running)
              × (k'.reason ≡ none)
              × (k'.activated_at ≡ none)
              × (k'.consecutive_failures ≡ 0))
  unfolding recover transition allows_new_orders
  recover_blocked now force k b = ground arith

  -- The calls of a run of failed executions.
  abbrev pub failing : List (ℕ × Reason) → List SwitchCall
  failing [] = []
  failing ((now, r) ∷ rs) = SwitchCall.fails now r ∷ failing rs

  failing_stops_from :
      (rs : List (ℕ × Reason)) (k : KillSwitch)
      → (cfg.risk_consecutive_failure_limit ≤ k.consecutive_failures
          → k.state ≡ KillSwitchState.emergency_stop)
      → cfg.risk_consecutive_failure_limit ≤ k.consecutive_failures + length rs
      → (calls (failing rs) k).state ≡ KillSwitchState.emergency_stop
  unfolding calls call record_execution_failure emergency_stop transition
  failing_stops_from [] k v h = v (omega arith)
  failing_stops_from ((now, r) ∷ rs) k v h =
      failing_stops_from rs (call (SwitchCall.fails now r) k) (ground arith) (ground arith)

  -- As many failed executions in a row as the limit, with no success between them, stop a switch
  -- that had counted none.
  pub failing_stops :
      (rs : List (ℕ × Reason)) (k : KillSwitch)
      → 0 < cfg.risk_consecutive_failure_limit
      → k.consecutive_failures ≡ 0
      → cfg.risk_consecutive_failure_limit ≤ length rs
      → (calls (failing rs) k).state ≡ KillSwitchState.emergency_stop
  failing_stops rs k positive none_counted h =
      failing_stops_from rs k (λ reached. absurd (omega arith)) (omega arith)
