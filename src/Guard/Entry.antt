-- ===== src/Guard/Entry.antt =====
-- What the rules of a purchase ensure when none is blocked (backend/app/decision_execution.py).
use cresta.Base.{
  ℕ, ◌+◌, ◌≤◌, ◌<◌, ◌≡◌, refl, ltb→lt, true, not, Option, none, some, [], arith, leb→le,
}
use cresta.Paper.Store.{find_gate}
use cresta.Emergency.{Stops, active_pause_entry}
use cresta.Venue.Dates.{ordinal, seoul_date}
use cresta.Venue.Quote.{MarketSnapshot}
use cresta.Guard.Rules.{Decision, blocked, is_gate_ready}
use cresta.Guard.Sell.{account}
use cresta.Guard.Risk.{open_position_count, daily_entry_count, sell_fills, consecutive_loss_count}
use cresta.Guard.Exposure.{open_position_exposure_lem, all_values, symbol_values}
use cresta.Guard.Sound.{unblocked-AllPassed}
use cresta.Guard.Buy.{
  BuyContext, RiskPolicy, buy_guard_rules, won, is_some, is_paused, entry_amount,
}

unpaused : (stops : Stops) → not (is_paused stops) ≡ true → active_pause_entry stops ≡ none
unfolding is_paused
unpaused stops h = ground arith

sized : (o : Option ℕ) → is_some o ≡ true → (n : ℕ) × (o ≡ some n)
sized none h = cc
sized (some n) h = (n, refl)

entry_is :
    (p : RiskPolicy) (amount : ℕ) → p.entry_order_amount ≡ some amount → entry_amount p ≡ won amount
entry_is p amount e = rw e

-- If no rule blocks a purchase, entries are not paused, an order amount is configured and, with
-- it, the values of all open positions of the account stay within the total limit and those of the
-- symbol within the limit of a symbol; one more position and one more entry today are allowed,
-- fewer losses in a row than the limit are counted, the gate is READY and the decision has not
-- expired.
pub buy_guard_rules_safe :
    (c : BuyContext) (d : Decision) (snapshot : Option MarketSnapshot)
    → blocked (buy_guard_rules c d snapshot) ≡ []
    → (active_pause_entry c.stops ≡ none)
      × (amount : ℕ) × (c.policy.entry_order_amount ≡ some amount)
      × (all_values c.market_data account c.positions + won amount
          ≤ won c.policy.max_total_position_amount)
      × (symbol_values c.market_data account d.symbol c.positions + won amount
          ≤ won c.policy.max_position_amount_per_symbol)
      × (open_position_count account c.positions < c.policy.max_open_positions)
      × (daily_entry_count account (ordinal (seoul_date c.now)) c.orders
          < c.policy.max_daily_entries)
      × (consecutive_loss_count account c.positions (sell_fills account c.orders c.fills)
          < c.policy.max_consecutive_losses)
      × (is_gate_ready (find_gate account c.gates) ≡ true)
      × (c.now ≤ d.valid_until)
unfolding buy_guard_rules
buy_guard_rules_safe c d snapshot h =
    let (
      _,
      (
        time,
        (
          _,
          (
            _,
            (
              _,
              (gate, (calm, (size, (total, (symbol, (positions, (entries, (_, (losses, _))))))))),
            ),
          ),
        ),
      ),
    ) =
      unblocked-AllPassed (buy_guard_rules c d snapshot) h in
    let (whole, one, _) = open_position_exposure_lem c.market_data account c.positions d.symbol in
    let (amount, configured) = sized c.policy.entry_order_amount size in
    let entry = entry_is c.policy amount configured in
    let total_le = leb→le _ _ total in
    let symbol_le = leb→le _ _ symbol in
    (
      unpaused c.stops calm,
      amount,
      configured,
      omega arith,
      omega arith,
      ltb→lt _ _ positions,
      ltb→lt _ _ entries,
      ltb→lt _ _ losses,
      gate,
      leb→le _ _ time,
    )
