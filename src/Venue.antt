-- ===== src/Venue.antt =====
-- Trading days, sessions and the choice of a market: backend/app/market_calendar.py and
-- backend/app/venue_selection.py.
pub mod Dates
pub mod Calendar
pub mod Openings
pub mod Closures
pub mod Session
pub mod Quote
pub mod Select
mod Examples
