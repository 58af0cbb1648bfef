-- ===== src/Lib.antt =====
-- The trading core of Cresta, a personal intraday trading system, as executable definitions and
-- the theorems about them. Paths are those of the repository.
--
-- Base: tests on numbers and texts, lists, signed integers, and calls that raise.
-- Decimal: Python's Decimal as sign, digits and scale, with the roundings ROUND_HALF_EVEN (the
--   default of `quantize`) and ROUND_HALF_UP (backend/app/trading/paper.py).
-- Paper: the Paper Broker, backend/app/trading/paper.py, on the rows of backend/app/models.py. A
--   database is a record of tables; a call takes one and returns the next, or raises and commits
--   nothing. `create_paper_order` takes two: the one it reads and the one its flush meets, so that
--   a session which comes between is covered. `Create`, `Fills` and `Change` hold the operations,
--   each with its effects in a child module; `Steps` is the transition system of all calls, and
--   `Orders`, `Ledger`, `Replays`, `Coverage`, `Late` and `Evolution` what is proved of it.
--
-- Venue: `Dates` are Python's dates, `Calendar` is the trading day (backend/app/market_calendar.py,
--   and the active closure of backend/app/calendar_overrides.py, which `Closures` makes and revokes), `Session`, `Quote` and `Select`
--   the sessions, quotes and the choice of a venue (backend/app/venue_selection.py). `Openings`, `Select.Best` and
--   `Select.Tradable` hold what is proved of them. The loop for the last trading day of a
--   year is bounded by the 366 days of a year. The package holidays is a parameter.
--
-- Lease: the lease of the broker worker, backend/app/broker/worker_state.py. `Steps` is the
--   transition system of all workers' calls with the identities granted so far, `Fencing` and
--   `Holding` what is proved of it. The environment and the copied times of the status view are
--   left out.
--
-- Emergency: the pause of entries, backend/app/emergency_stop.py; `Steps` has its transition system.
-- Guard: the rules a trading decision must pass, backend/app/decision_execution.py, on the figures
--   of backend/app/risk_calc.py (`Risk`). `Sell` and `Buy` hold the rules, `Available`, `Sound` and
--   `Entry` what they ensure, `Exposure` and `Losses` what the figures mean, `Closures` how they
--   stand to the trading calendar. A loss percentage is kept as its numerator; its denominator is
--   positive by the bounds of the risk policy.
--
-- Orders: the creation of orders that the parts below share, backend/app/order_creation.py.
-- Desk: decisions on their way to an order. `Routing` is backend/app/decision_execution.py
--   (`Placing` its automatic orders, `Route` the whole), `Approvals` is backend/app/approvals.py
--   (`Reviewing`, `Granting`, `Closing`); `Steps` is the transition system of all their calls. The
--   creation of an order inside of them meets the tables that the call has read. Where a call
--   raises, it answers with the tables that it has committed before. The other modules hold what is
--   proved.
-- Fusion: an agent's advice on an open position, fused into a decision that is routed like any other
--   (backend/app/position_agent_fusion.py); `Escalation` holds what is proved. A JSON text is
--   read as what the code takes from it, and its hash is a number.
-- Recon: the account as the broker reports it. `Recon` replays the managed fills, `Positions`,
--   `Orders` and `Fills` project a report into the tables (backend/app/account_projection.py),
--   `Compare` compares them (backend/app/reconciliation.py); `Compared`, `Versions` and `Balanced`
--   hold what is proved. An average is an exact quotient, and what its column keeps of it a
--   parameter. The events of orders are left out.
--
-- Conventions. Quantities are naturals: a quantity below one is refused by the same test as zero.
-- Prices in rows are in ten-thousandths, as Numeric(18, 4) holds them. Row ids are numbers from a
-- counter, which stands for `uuid7`. SHA-256 and the table behind `str.isdigit` are parameters (`Platform`).
-- Decimal arithmetic is exact: the 28 digits of the default context, and special values, are left out.
-- The time stamps of events and the JSON text of their payloads are left out.
-- The HTTP layer, the database engine, the broker connections and the language model adapters are
-- not modelled: they are input and output.
pub mod Base
pub mod Decimal
pub mod Paper
pub mod Venue
pub mod Lease
pub mod Emergency
pub mod Guard
pub mod Orders
pub mod Desk
pub mod Recon
pub mod Fusion
