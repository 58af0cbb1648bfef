-- ===== src/Desk/Approvals/Reviewing.antt =====
-- The review of an approval: `_evaluate_approval` of backend/app/approvals.py, and
-- `persist_guard_evaluation` of backend/app/guard.py.
use cresta.Base.{
  ℕ, ◌+◌, ◌*◌, ◌^◌, Bool, true, false, ◌&&◌, Option, none, some, List, [], ◌∷◌, ◌++◌, ltb, leb,
  if◌then◌else◌,
}
use cresta.Base.Int.{ℤ, pos, ◌-ℤ◌, ltb_ℤ, pos_part, neg_part}
use cresta.Decimal.{Decimal}
use cresta.Paper.Rows.{Db}
use cresta.Venue.Quote.{MarketSnapshot}
use cresta.Guard.Rules.{
  buy_action, partial_sell, full_sell, Decision, Code, Rule, rule, find_stream,
  price_deviation_exceeded, action_not_implemented, order_size_not_configured,
}
use cresta.Guard.Sell.{sell_plan, sell_guard_rules, Expected}
use cresta.Guard.Risk.{current_id, look_up}
use cresta.Guard.Buy.{buy_guard_rules}
use cresta.Desk.{Execution, Approval, Scope, of_approval, Desk, Env}
use cresta.Desk.Reads.{
  buy_context, sell_context, skip_id, marketable_buy_price, marketable_sell_price, is_purchase,
  snapshot_id_of,
}

-- `_latest_snapshot_for_approval`
unfoldable pub latest_snapshot : Env → Decision → Option MarketSnapshot
latest_snapshot env d =
    look_up env.market_data.snapshots
      (current_id (find_stream d.market d.symbol env.market_data.streams))

-- `deviation <= max_deviation_pct`, multiplied by the reference, which is positive
abbrev pub is_within : Decimal → ℕ → ℕ → Bool
is_within most gap reference =
    leb (gap * 100 * 10 ^ most.scale) (if most.negative then 0 else most.coeff * reference)

-- `_price_deviation_ok`
unfoldable pub price_deviation_ok : Option ℤ → Option ℤ → Decimal → Bool
price_deviation_ok (some reference) (some current) most =
    let gap = current -ℤ reference in
    ltb_ℤ (pos 0) reference && is_within most (pos_part gap + neg_part gap) (pos_part reference)
price_deviation_ok _ _ most = false

abbrev pub expected_of : Scope → Expected
expected_of s = record {
  expected_position_id = s.position_id;
  expected_position_version = s.position_version;
  requested_quantity = some s.quantity;
}

pub record Review : Type 0 where
  pub rules : List Rule
  pub current_price : Option ℤ

-- the rules and the price of the action
unfoldable pub review_action : Env → Db → ℕ → Scope → Decision → Option MarketSnapshot → ℕ → Review
review_action env db user scope d snapshot now =
    let plan = sell_plan db.orders db.positions d snapshot in
    let purchase : Review = record {
      rules = buy_guard_rules (buy_context env db user now) d snapshot;
      current_price = marketable_buy_price snapshot;
    } in
    let sale : Review = record {
      rules = sell_guard_rules (sell_context env db now) d plan (expected_of scope);
      current_price = marketable_sell_price snapshot;
    } in
    let unknown : Review = record {
      rules = rule action_not_implemented false ∷ [];
      current_price = none;
    } in
    elim d.action [ buy_action ↦ purchase | partial_sell ↦ sale | full_sell ↦ sale | _ ↦ unknown ]

abbrev pub unless : Bool → Code → List Rule
unless true c = []
unless false c = rule c false ∷ []

-- `_evaluate_approval`
unfoldable pub evaluate_approval :
    Env → Db → ℕ → Scope → Decision → Option MarketSnapshot → ℕ → Review
unfolding review_action
evaluate_approval env db user scope d snapshot now =
    let review = review_action env db user scope d snapshot now in
    record review {
      rules =
          (review.rules
            ++ unless
                (price_deviation_ok scope.reference_price review.current_price
                  env.policy.max_price_deviation_pct)
                price_deviation_exceeded)
          ++ unless (ltb 0 scope.quantity) order_size_not_configured;
    }

-- `persist_guard_evaluation` with the arguments of `approve`: the id of the new row and the tables
unfoldable pub persist_review :
    Execution → Approval → Decision → Option MarketSnapshot → List Code → Desk → ℕ × Desk
persist_review x a d snapshot codes desk =
    let id = desk.book.db.next_id in
    (
      id,
      record desk {
        book = skip_id desk.book;
        guards =
            (record {
              id = id;
              execution_id = x.id;
              subject = of_approval;
              subject_id = a.id;
              blocked_codes = codes;
              halts_entries = elim codes [ [] ↦ false | _ ∷ _ ↦ is_purchase d.action ];
              snapshot_id = snapshot_id_of snapshot;
              position_version = a.scope.position_version;
            })
            ∷ desk.guards;
      },
    )
