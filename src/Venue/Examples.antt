-- ===== src/Venue/Examples.antt =====
-- A March Tuesday and its quotes, and the theorems on the choice of a venue there.
use cresta.Base.{
  ◌-◌, ℕ, str_eq, if◌then◌else◌, ◌||◌, ◌+◌, ◌*◌, ◌≡◌, refl, ap, Bool, true, false, Option, none,
  some, [], ◌==◌, ◌&&◌,
}
use cresta.Base.Int.{pos}
use cresta.Venue.Calendar.{
  Holidays, TradingDay, day_open, evaluate_krx_trading_day, resolve_trading_day, year_end_closure,
  is_closed, weekday_open, active_calendar_override,
}
use cresta.Venue.Dates.{date_of_day, seoul_date, Date, weekday, previous_day}
use cresta.Venue.Openings.{resolve_trading_day_open}
use cresta.Venue.Session.{classify_session, clock}
use cresta.Venue.Quote.{buying, VenueQuote, quote_valid}
use cresta.Venue.Select.{
  Request, Reason, normal, real, verified, choose_dual, nxt, select_venue, choose, choose_by,
  choose_known, choose_continuous, Venue, VenueSelectionResult, SelectionState, selected,
}
use cresta.Venue.Select.Best.{choose_dual-IsBest}
use cresta.Venue.Select.Tradable.{select_venue-state}

abbrev on : ℕ → ℕ → ℕ → Date
on y m d = record { year = y; month = m; day = d }

-- the first of March is a public holiday; 1999 is not known
abbrev march_holidays : Holidays
march_holidays y =
    if y == 1999
    then none
    else some (λ d. (d.month == 3 && d.day == 1) || (d.month == 12 && d.day == 25))

weekday_example : weekday (on 2026 3 3) ≡ 1
unfolding weekday
weekday_example = refl

closure_example : year_end_closure march_holidays 2023 ≡ some (on 2023 12 29)
unfolding year_end_closure is_closed previous_day weekday
closure_example = refl

abbrev tuesday : TradingDay
tuesday = record { status = day_open; reason = weekday_open; override_id = none }

tuesday_example : resolve_trading_day march_holidays [] (on 2026 3 3) ≡ tuesday
unfolding resolve_trading_day active_calendar_override evaluate_krx_trading_day year_end_closure
    is_closed previous_day weekday
tuesday_example = refl

resolve_trading_day_open_example :
    (active_calendar_override [] (on 2026 3 3) ≡ none)
    × (h : Date → Bool) × (march_holidays 2026 ≡ some h)
    × (is_closed h (on 2026 3 3) ≡ false)
resolve_trading_day_open_example =
    let (none_active, _, h, _, known, is_open, _, _, _) =
      resolve_trading_day_open march_holidays [] (on 2026 3 3)
        (ap (λ (d : TradingDay). d.status) tuesday_example) in
    (none_active, h, known, is_open)

leap_day_example : date_of_day 19_782 ≡ on 2024 2 29
unfolding date_of_day
leap_day_example = refl

new_year_example : seoul_date (20_454 * 86_400_000_000 - 9 * 3_600_000_000) ≡ on 2026 1 1
unfolding seoul_date
new_year_example = refl

-- ten in the morning in Seoul on that Tuesday
abbrev ten : ℕ
ten = 20515 * clock 24 0 0 + clock 1 0 0

abbrev krx_offer : VenueQuote
krx_offer = record {
  market = "KRX";
  snapshot_id = 1;
  bid_price = some (pos 709000000);
  bid_quantity = some (pos 40);
  ask_price = some (pos 710000000);
  ask_quantity = some (pos 25);
  trading_status = "TRADING";
  quality = "NORMAL";
  event_at = 20515 * clock 24 0 0 + clock 0 59 58;
}

abbrev nxt_offer : VenueQuote
nxt_offer = record krx_offer { market = "NXT"; snapshot_id = 2; ask_price = some (pos 709500000) }

abbrev order : Request
order = record {
  side = buying;
  urgency = normal;
  environment = real;
  nxt_eligibility_status = verified;
  sor_supported = false;
  krx_quote = some krx_offer;
  nxt_quote = some nxt_offer;
  now = ten;
  max_age_seconds = 5;
}

valid_krx : quote_valid (some krx_offer) buying ten 5 ≡ true
unfolding quote_valid str_eq
valid_krx = refl

valid_nxt : quote_valid (some nxt_offer) buying ten 5 ≡ true
unfolding quote_valid str_eq
valid_nxt = refl

-- the venue and the state of a result
abbrev chosen : Option VenueSelectionResult → Option (Venue × SelectionState)
chosen none = none
chosen (some result) = some (result.selected_venue, result.state)

selected_example : chosen (select_venue order tuesday) ≡ some (nxt, selected)
unfolding select_venue choose choose_continuous choose_dual choose_known choose_by classify_session
    quote_valid str_eq
selected_example = refl

select_venue-state_example :
    (result : VenueSelectionResult) × (select_venue order tuesday ≡ some result)
select_venue-state_example =
    let (result, found, _, _) = select_venue-state order tuesday in (result, found)

choose_dual-IsBest_example :
    (venue : Venue) × (reason : Reason) × (choose_dual krx_offer nxt_offer buying normal
      ≡ some (venue, reason))
choose_dual-IsBest_example =
    let (_, _, _, _, _, _, _, _, venue, reason, picked, _) =
      choose_dual-IsBest krx_offer nxt_offer buying normal ten 5 valid_krx valid_nxt in
    (venue, reason, picked)
