-- ===== src/Guard.antt =====
-- The guard of a trading decision: backend/app/decision_execution.py and backend/app/risk_calc.py.
-- `Sell` holds the plan and the rules of a sale, `Risk` the risk figures, `Buy` the rules of a
-- purchase. The rows are those of `Paper.Rows`, `Lease` and `Venue.Quote`.
pub mod Rules
pub mod Sell
pub mod Available
pub mod Sound
pub mod Closures
pub mod Risk
pub mod Exposure
pub mod Losses
pub mod Buy
pub mod Entry
pub mod Examples
