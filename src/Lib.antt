-- ===== src/Lib.antt =====
-- A verification development for the paper-trading core of moreney.
--
-- The program watches several exchanges, evaluates opportunities, and trades them on a simulated
-- account. The arbitrage strategy pairs the books of the exchanges. An opportunity passes the
-- profitability engine and the risk engine before it becomes an order request; the paper executor
-- reserves funds, simulates a fill against an order book, and books the fill on the paper
-- portfolio, whose snapshot the risk engine reads for the next opportunity.
--
-- The files, and the code that each of them models:
--   Prelude            lists, options, association lists, integers; shared tests and lemmas
--   Decimal            the decimal arithmetic that all parts compute with
--   Core               bot/core/enums.py, bot/core/models.py, bot/core/exchange_types.py
--   Portfolio.Models   bot/portfolio/models.py
--   Portfolio.Accounting   bot/portfolio/accounting.py: apply_fill, one helper for each of its parts
--   Portfolio.Paper    bot/portfolio/portfolio.py: reserve, release_reservation, apply_order_fill
--                      (`apply_fill`), drawdown_stats and update_drawdown (`_update_drawdown`),
--                      get_snapshot
--   Portfolio.Persistence  bot/portfolio/persistence.py, and `load_state` of the portfolio
--   Execution.Orders   bot/execution/order_manager.py
--   Execution.Tracker  bot/execution/fill_tracker.py
--   Execution.Executor bot/execution/paper_executor.py: Book walks the order book, Reserve computes
--                      reservations, Execute has `execute` and `cancel`
--   Profitability.Fees     bot/profitability/fee_calculator.py
--   Profitability.Slippage bot/profitability/slippage.py
--   Profitability.NetProfit    bot/profitability/net_profit.py (`estimate`) and
--                      bot/profitability/engine.py (`evaluate_profit` is its `evaluate`)
--   MarketData.LocalBook   bot/market_data/local_order_book.py, with `top_liquidity` in Liquidity
--   MarketData.Service     bot/market_data/service.py: its books and events; Reading has the reads
--   Strategies         bot/strategies/arbitrage.py: Depth has walk_book (`fill_depth`) and the ages,
--                      Scan the counters, Arbitrage the scan from the snapshots to the opportunities
--   Engine             bot/engine/orchestrator.py: Market reads the market data, Cycle is `run_once`
--                      and `execute_approved`
--   Exchanges.Retry    bot/exchanges/retry.py
--   Tracking           bot/paper/tracker.py and bot/paper/models.py: Tracker and Trades have the calls
--                      for detections, decisions and executions, Sync the days and `snapshot`
--   Risk.Models        bot/risk/models.py
--   Risk.KillSwitch    bot/risk/kill_switch.py
--   Risk.Limits        bot/risk/position_limits.py
--   Risk.Engine        bot/risk/risk_engine.py: Gates has one check of `evaluate` each, Evaluate
--                      puts them in order
-- The other files hold the proofs, and the files Tests concrete runs.
--
-- How the code is modelled. An object with attributes is a record, and a method that changes it is a
-- function from the record to a new one, with the answer of the method beside it. A dictionary is an
-- association list in order of insertion. An exception is `none` or the outcome `raised`, with the
-- state that it leaves. UUIDs are numbers; an id or a time that the code draws is an argument.
--
-- A `Decimal` is an integral number of units of 10^-28. Sums and differences are exact. A product or
-- a quotient is rounded half to even at 28 decimal places, where the context of Python's decimal
-- module rounds at 28 significant digits, so that the last places of a result may differ. A quotient
-- by zero, which raises in Python, is only computed behind the guards that the code has.
--
-- `KillSwitchState`, `OrderStatus` and the like are data types; a reason that the code formats is a
-- value of `Reason` with the numbers that it shows. Strings are lists of ASCII code points. All loops
-- are structural recursion, so no fuel is used.
--
-- Where a pydantic model refuses a value (a quantity or a price that is not positive), the code
-- raises: an order or a fill gives the outcome `raised`, a request gives `none`, and a pass of the
-- arbitrage scan sets `raised` in its counters and looks at no further pair.
--
-- Not modelled: log lines, messages, free-form metadata and times of update; the interleaving of
-- coroutines, since each modelled call runs to its end before the next; network, database, web
-- pages, settings files, the adapters of the exchanges, the executor's front, the bots on paper and
-- their records, the stub strategy and the in-memory portfolio service, which serve tests, the
-- export and import of the tracker, and of the market data service the health of an exchange, the
-- risk context, shared mode and all that it writes to caches and recorders. The numbers of a trade
-- are kept under the one key that `execute_approved` writes; the other keys that the tracker also
-- looks under are left out. The strategy, the market data and the profitability engine of a cycle
-- are parameters of the engine: a strategy is a state with a function from snapshots to
-- opportunities, so a strategy that raises inside a cycle is not covered there.
pub mod Core
pub mod Decimal
pub mod Engine
pub mod Exchanges
pub mod Execution
pub mod MarketData
pub mod Portfolio
pub mod Prelude
pub mod Profitability
pub mod Risk
pub mod Strategies
pub mod Tracking
