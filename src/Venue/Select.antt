-- ===== src/Venue/Select.antt =====
-- The choice of a venue: `_choose_dual`, `select_venue` and the row that
-- `evaluate_and_store_venue_selection` stores, of backend/app/venue_selection.py.
pub mod Best
pub mod Tradable
use cresta.Base.{
  ℕ, ◌≡◌, ◌⊎◌, Bool, true, false, not, ◌&&◌, ◌||◌, Option, none, some, List, [], ◌∷◌, ◌++◌,
  if◌then◌else◌,
}
use mathlib.Core.Option.{map as map_option}
use cresta.Base.Int.{ℤ, ltb_ℤ}
use cresta.Venue.Calendar.{TradingDay, day_open, day_closed, day_unknown, DayStatus, DayReason}
use cresta.Venue.Session.{
  Session, closed, nxt_pre, krx_opening_auction, krx_only, dual_continuous, krx_closing_auction,
  nxt_after_auction, nxt_after, classify_session,
}
use cresta.Venue.Quote.{TradeSide, buying, selling, VenueQuote, price, quantity, quote_valid}

pub data Urgency : Type 0 where
  normal emergency : Urgency

pub data Environment : Type 0 where
  mock real : Environment

pub data Eligibility : Type 0 where
  verified ineligible unknown : Eligibility

pub data Venue : Type 0 where
  krx nxt sor wait_venue : Venue

pub data SelectionState : Type 0 where
  selected wait : SelectionState

pub data Reason : Type 0 where
  reason_calendar_unavailable session_closed auction_trading_disabled : Reason
  nxt_after_auction_disabled nxt_eligibility_unverified nxt_symbol_ineligible : Reason
  no_fresh_executable_nxt_quote nxt_only_session mock_nxt_execution_unavailable : Reason
  no_fresh_executable_krx_quote krx_only_session broker_sor_available : Reason
  emergency_liquidity better_executable_price greater_displayed_liquidity : Venue → Reason
  deterministic_krx_tie_break single_fresh_venue only_krx_quote_valid : Reason
  only_nxt_quote_valid no_fresh_executable_quote : Reason

pub record VenueSelectionResult : Type 0 where
  pub session : Session
  pub trading_day_status : DayStatus
  pub calendar_reason : DayReason
  pub selected_venue : Venue
  pub state : SelectionState
  pub reason_codes : List Reason
  pub krx_quote_valid : Bool
  pub nxt_quote_valid : Bool

abbrev pub differ : ℤ → ℤ → Bool
differ a b = ltb_ℤ a b || ltb_ℤ b a

abbrev pub krx_if : Bool → Venue
krx_if better = if better then krx else nxt

-- whether the first price is the better one for the side
abbrev pub better_price : TradeSide → ℤ → ℤ → Bool
better_price buying a b = ltb_ℤ a b
better_price selling a b = ltb_ℤ b a

abbrev pub is_emergency : Urgency → Bool
is_emergency emergency = true
is_emergency normal = false

-- `_choose_dual`, on the two prices and the two quantities
unfoldable pub choose_by : TradeSide → Urgency → ℤ → ℤ → ℤ → ℤ → Venue × Reason
choose_by side urgency krx_price nxt_price krx_quantity nxt_quantity =
    let more_liquid = krx_if (ltb_ℤ nxt_quantity krx_quantity) in
    let cheaper = krx_if (better_price side krx_price nxt_price) in
    if is_emergency urgency && differ krx_quantity nxt_quantity
    then (more_liquid, emergency_liquidity more_liquid)
    else if differ krx_price nxt_price
    then (cheaper, better_executable_price cheaper)
    else if differ krx_quantity nxt_quantity
    then (more_liquid, greater_displayed_liquidity more_liquid)
    else (krx, deterministic_krx_tie_break)

unfoldable pub choose_known :
    TradeSide → Urgency → Option ℤ → Option ℤ → Option ℤ → Option ℤ → Option (Venue × Reason)
choose_known side urgency (some kp) (some np) (some kq) (some nq) =
    some (choose_by side urgency kp np kq nq)
choose_known side urgency _ _ _ _ = none

-- `_choose_dual`; `none` where an assertion fails
unfoldable pub choose_dual : VenueQuote → VenueQuote → TradeSide → Urgency → Option (Venue × Reason)
unfolding choose_known
choose_dual k n side urgency =
    choose_known side urgency (price k side) (price n side) (quantity k side) (quantity n side)

abbrev pub mock_note : Environment → List Reason
mock_note mock = mock_nxt_execution_unavailable ∷ []
mock_note real = []

-- what `result` of `select_venue` is given
abbrev pub Choice : Type 0
Choice = Venue × SelectionState × List Reason

abbrev pub waiting : Reason → Choice
waiting r = (wait_venue, wait, r ∷ [])

-- the sessions before and after that of KRX
unfoldable pub choose_nxt : Environment → Eligibility → Bool → Choice
choose_nxt environment unknown nxt_valid = waiting nxt_eligibility_unverified
choose_nxt environment ineligible nxt_valid = waiting nxt_symbol_ineligible
choose_nxt environment verified nxt_valid =
    if nxt_valid
    then (nxt, selected, nxt_only_session ∷ mock_note environment)
    else waiting no_fresh_executable_nxt_quote

abbrev pub is_real : Environment → Bool
is_real real = true
is_real mock = false

abbrev pub select_one : Option (Venue × Reason) → Option Choice
select_one none = none
select_one (some (venue, reason)) = some (venue, selected, reason ∷ [])

abbrev pub choose_quotes :
    TradeSide → Urgency → Option VenueQuote → Option VenueQuote → Option Choice
choose_quotes side urgency (some k) (some n) = select_one (choose_dual k n side urgency)
choose_quotes side urgency _ _ = none

-- the continuous session of both venues; `none` where an assertion fails
unfoldable pub choose_continuous :
    TradeSide
    → Urgency
    → Environment
    → Bool
    → Option VenueQuote
    → Option VenueQuote
    → Bool
    → Bool
    → Option Choice
choose_continuous side urgency environment sor_supported krx_quote nxt_quote true true =
    if sor_supported && is_real environment
    then some (sor, selected, broker_sor_available ∷ [])
    else choose_quotes side urgency krx_quote nxt_quote
choose_continuous side urgency environment sor_supported krx_quote nxt_quote true false =
    some (krx, selected, single_fresh_venue ∷ only_krx_quote_valid ∷ [])
choose_continuous side urgency environment sor_supported krx_quote nxt_quote false true =
    some (nxt, selected, single_fresh_venue ∷ only_nxt_quote_valid ∷ mock_note environment)
choose_continuous side urgency environment sor_supported krx_quote nxt_quote false false =
    some (waiting no_fresh_executable_quote)

abbrev pub is_verified : Eligibility → Bool
is_verified verified = true
is_verified _ = false

pub record Request : Type 0 where
  pub side : TradeSide
  pub urgency : Urgency
  pub environment : Environment
  pub nxt_eligibility_status : Eligibility
  pub sor_supported : Bool
  pub krx_quote : Option VenueQuote
  pub nxt_quote : Option VenueQuote
  pub now : ℕ
  pub max_age_seconds : ℕ

abbrev pub krx_valid : Request → Bool
krx_valid r = quote_valid r.krx_quote r.side r.now r.max_age_seconds

abbrev pub nxt_valid : Request → Bool
nxt_valid r =
    is_verified r.nxt_eligibility_status && quote_valid r.nxt_quote r.side r.now r.max_age_seconds

-- the tests of `select_venue` on the session
unfoldable pub choose : Request → Session → Option Choice
unfolding choose_nxt choose_continuous
choose r closed = some (waiting session_closed)
choose r krx_opening_auction = some (waiting auction_trading_disabled)
choose r krx_closing_auction = some (waiting auction_trading_disabled)
choose r nxt_after_auction = some (waiting nxt_after_auction_disabled)
choose r nxt_pre = some (choose_nxt r.environment r.nxt_eligibility_status (nxt_valid r))
choose r nxt_after = some (choose_nxt r.environment r.nxt_eligibility_status (nxt_valid r))
choose r krx_only =
    if krx_valid r
    then some (krx, selected, krx_only_session ∷ [])
    else some (waiting no_fresh_executable_krx_quote)
choose r dual_continuous =
    choose_continuous r.side r.urgency r.environment r.sor_supported r.krx_quote r.nxt_quote
      (krx_valid r) (nxt_valid r)

abbrev pub result_of : Request → TradingDay → Session → Choice → VenueSelectionResult
result_of r day s (venue, state, reasons) = record {
  session = s;
  trading_day_status = day.status;
  calendar_reason = day.reason;
  selected_venue = venue;
  state = state;
  reason_codes = reasons;
  krx_quote_valid = krx_valid r;
  nxt_quote_valid = nxt_valid r;
}

-- the test for a calendar that is unavailable comes first
unfoldable pub choose_on : DayStatus → Request → Session → Option Choice
choose_on day_unknown r s = some (waiting reason_calendar_unavailable)
choose_on day_open r s = choose r s
choose_on day_closed r s = choose r s

-- `select_venue`; `none` where an assertion fails
unfoldable pub select_venue : Request → TradingDay → Option VenueSelectionResult
unfolding choose_on
select_venue r day =
    let s = classify_session r.now day in map_option (result_of r day s) (choose_on day.status r s)
