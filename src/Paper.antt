-- ===== src/Paper.antt =====
-- The Paper Broker, backend/app/trading/paper.py: its rows, its orders' state machine and its
-- operations. `Rows` holds the tables, `Store` the queries.
pub mod Rows
pub mod Store
pub mod Create
pub mod Fills
pub mod Change
pub mod Steps
pub mod Orders
pub mod Ledger
pub mod Replays
pub mod Coverage
pub mod Late
pub mod Evolution
mod Examples
