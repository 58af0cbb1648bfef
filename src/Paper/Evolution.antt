-- ===== src/Paper/Evolution.antt =====
-- How one order row changes over the calls of backend/app/trading/paper.py, against the state
-- machine of docs/ORDER_STATE_MACHINE_SPEC.md.
pub mod Rows
pub mod Tables
pub mod Steps
