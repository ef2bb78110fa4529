-- ===== src/Risk/Decisions.antt =====
-- The decisions of `evaluate` and what it leaves behind.
use moreney.Prelude.{◌≡◌, ◌↔◌, true, false, some, arith}
use moreney.Core.Enums.{RiskRejectReason, RiskDecisionStatus}
use moreney.Core.Models.{TradeOpportunity, PortfolioSnapshot}
use moreney.Risk.Models.{RiskContext, RiskSettings, ProfitabilityView, is_approved}
use moreney.Risk.KillSwitch.{allows_new_orders, update_conditions}
use moreney.Risk.Engine.{
  first_rejection, kill_switch_gate, RiskEngine, Now, current_conditions, prune, first_checks,
  pause_for, rejected, approved, evaluate,
}
use moreney.Risk.Approval.{IsFit, IsWithin, first_checks_pass, last_checks_pass}

module _ (cfg : RiskSettings) (now : Now) (o : TradeOpportunity) (r : ProfitabilityView)
    (p : PortfolioSnapshot) (ctx : RiskContext) (e : RiskEngine) where
  -- `evaluate` approves a trade exactly if the switch, the market, the account and the trade are fit
  -- for an order, and the trade is within the limits of the rate, over the pruned window, of the size
  -- and of the exposure.
  pub evaluate_approves :
      (is_approved (evaluate cfg now o r p ctx e).1 ≡ true)
      ↔ (IsFit cfg o r p ctx e.kill_switch.state × IsWithin cfg o p (prune now e.trade_timestamps))
  unfolding evaluate rejected approved update_conditions
  evaluate_approves =
      let k = update_conditions (current_conditions cfg p ctx e.kill_switch) e.kill_switch in
      ground (
        arith,
        first_checks_pass cfg o r p ctx k,
        last_checks_pass cfg o p (prune now e.trade_timestamps),
      )

  -- While the switch blocks, every trade is rejected for that reason, the trade window stays, and the
  -- switch goes on blocking.
  pub evaluate_blocked :
      allows_new_orders e.kill_switch ≡ false
      → let (e', d) = evaluate cfg now o r p ctx e in
        (d.status ≡ RiskDecisionStatus.rejected)
        × (d.rejection_reason ≡ some RiskRejectReason.kill_switch)
        × (e'.trade_timestamps ≡ e.trade_timestamps)
        × (allows_new_orders e'.kill_switch ≡ false)
  unfolding evaluate first_checks first_rejection kill_switch_gate update_conditions
      allows_new_orders rejected pause_for
  evaluate_blocked b = ground arith
