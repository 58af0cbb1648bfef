-- ===== src/Paper/Ledger.antt =====
-- The ledger of the Paper Broker as a whole: orders, fills and positions of
-- backend/app/trading/paper.py account for one another after any calls.
pub mod Accounts
pub mod Books
pub mod Steps
pub mod Keys
pub mod Closed
