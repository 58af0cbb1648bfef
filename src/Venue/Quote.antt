-- ===== src/Venue/Quote.antt =====
-- The quotes of the two venues: `VenueQuote`, `quote_from_snapshot`, `_quote_valid`, `_price` and
-- `_quantity` of backend/app/venue_selection.py. Prices are whole ten-thousandths, as their
-- columns hold them; times are microseconds.
use cresta.Base.{
  ℕ, zero, suc, ◌-◌, ◌+◌, ◌*◌, ◌≤◌, ◌≡◌, refl, Bool, true, false, not, ◌&&◌, ◌||◌, Option, none,
  some, String, str_eq, str_eq_iff, arith, ltb, if◌then◌else◌,
}
use cresta.Base.Int.{ℤ, pos, negsuc, ltb_ℤ}

pub data TradeSide : Type 0 where
  buying selling : TradeSide

pub record VenueQuote : Type 0 where
  pub market : String
  pub snapshot_id : ℕ
  pub bid_price : Option ℤ
  pub bid_quantity : Option ℤ
  pub ask_price : Option ℤ
  pub ask_quantity : Option ℤ
  pub trading_status : String
  pub quality : String
  pub event_at : ℕ

-- the columns of a row of `market_snapshots` that are read here
pub record MarketSnapshot : Type 0 where
  pub id : ℕ
  pub snapshot_market : String
  pub best_bid_price : Option ℤ
  pub best_bid_quantity : Option ℤ
  pub best_ask_price : Option ℤ
  pub best_ask_quantity : Option ℤ
  pub snapshot_trading_status : String
  pub snapshot_quality : String
  pub snapshot_event_at : ℕ
  pub received_at : ℕ
  pub last_price : ℕ

abbrev pub quote_from_snapshot : Option MarketSnapshot → Option VenueQuote
quote_from_snapshot none = none
quote_from_snapshot (some s) = some (record {
  market = s.snapshot_market;
  snapshot_id = s.id;
  bid_price = s.best_bid_price;
  bid_quantity = s.best_bid_quantity;
  ask_price = s.best_ask_price;
  ask_quantity = s.best_ask_quantity;
  trading_status = s.snapshot_trading_status;
  quality = s.snapshot_quality;
  event_at = s.snapshot_event_at;
})

-- `_price` without its assertion: `none` where it fails
abbrev pub price : VenueQuote → TradeSide → Option ℤ
price q buying = q.ask_price
price q selling = q.bid_price

-- `_quantity` without its assertion
abbrev pub quantity : VenueQuote → TradeSide → Option ℤ
quantity q buying = q.ask_quantity
quantity q selling = q.bid_quantity

-- `x is not None and x > 0`
abbrev pub given_positive : Option ℤ → Bool
given_positive none = false
given_positive (some x) = ltb_ℤ (pos 0) x

-- `_quote_valid`
unfoldable pub quote_valid : Option VenueQuote → TradeSide → ℕ → ℕ → Bool
quote_valid none side now max_age_seconds = false
quote_valid (some q) side now max_age_seconds =
    if not (str_eq q.quality "NORMAL") || not (str_eq q.trading_status "TRADING")
    then false
    else if ltb now q.event_at || ltb (max_age_seconds * 1_000_000) (now - q.event_at)
    then false
    else given_positive (price q side) && given_positive (quantity q side)

-- A quote that can be executed: normal, trading, of the recent past, with a price and a quantity
-- above 0 on the side that the order takes.
pub record IsExecutable (q : VenueQuote) (side : TradeSide) (now : ℕ) (max_age_seconds : ℕ)
    : Type 0 where
  pub normal : q.quality ≡ "NORMAL"
  pub trading : q.trading_status ≡ "TRADING"
  pub past : q.event_at ≤ now
  pub fresh : now ≤ q.event_at + max_age_seconds * 1_000_000
  pub paid : (n : ℕ) × (price q side ≡ some (pos (suc n)))
  pub offered : (n : ℕ) × (quantity q side ≡ some (pos (suc n)))

given_positive_lem : (o : Option ℤ) → given_positive o ≡ true → (n : ℕ) × (o ≡ some (pos (suc n)))
given_positive_lem none h = cc
given_positive_lem (some (pos zero)) h = ground arith
given_positive_lem (some (pos (suc n))) h = (n, refl)
given_positive_lem (some (negsuc n)) h = ground arith

pub quote_valid-IsExecutable :
    (o : Option VenueQuote) (side : TradeSide) (now : ℕ) (max_age_seconds : ℕ)
    → quote_valid o side now max_age_seconds ≡ true
    → (q : VenueQuote) × (o ≡ some q) × IsExecutable q side now max_age_seconds
unfolding quote_valid
quote_valid-IsExecutable none side now max_age_seconds h = cc
quote_valid-IsExecutable (some q) side now max_age_seconds h = (
  q,
  refl,
  record {
    normal = (str_eq_iff q.quality "NORMAL").0 (ground arith);
    trading = (str_eq_iff q.trading_status "TRADING").0 (ground arith);
    past = ground arith;
    fresh = ground arith;
    paid = given_positive_lem (price q side) (ground arith);
    offered = given_positive_lem (quantity q side) (ground arith);
  },
)

pub IsExecutable-quote_valid :
    (q : VenueQuote) (side : TradeSide) (now : ℕ) (max_age_seconds : ℕ)
    → IsExecutable q side now max_age_seconds
    → quote_valid (some q) side now max_age_seconds ≡ true
unfolding quote_valid
IsExecutable-quote_valid q side now max_age_seconds e =
    let (_, paid) = e.paid in
    let (_, offered) = e.offered in
    let normal = (str_eq_iff q.quality "NORMAL").1 e.normal in
    let trading = (str_eq_iff q.trading_status "TRADING").1 e.trading in
    let past = e.past in let fresh = e.fresh in ground arith

-- the offer of a valid quote
pub valid_offer :
    (q : VenueQuote) (side : TradeSide) (now : ℕ) (max_age_seconds : ℕ)
    → quote_valid (some q) side now max_age_seconds ≡ true
    → (p : ℕ) × (n : ℕ) × (price q side ≡ some (pos (suc p)))
      × (quantity q side ≡ some (pos (suc n)))
unfolding quote_valid
valid_offer q side now max_age_seconds h =
    let (p, paid) = given_positive_lem (price q side) (ground arith) in
    let (n, offered) = given_positive_lem (quantity q side) (ground arith) in (p, n, paid, offered)
