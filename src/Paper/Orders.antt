-- ===== src/Paper/Orders.antt =====
-- What holds of every order row of backend/app/trading/paper.py, whatever calls are made.
pub mod Sound
pub mod Tables
