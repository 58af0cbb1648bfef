-- ===== src/Fusion/Examples.antt =====
-- An advice to sell everything, where the basis sells half (backend/app/position_agent_fusion.py).
use cresta.Base.{◌+◌, ◌≡◌, ◌⊎◌, refl, true, false, none, some, [], ◌∷◌, String, returns, str_eq}
use cresta.Base.Tables.{find_row, save_row}
use cresta.Paper.Rows.{TradingOrder}
use cresta.Paper.Store.{find_position, find_gate, find_key, reserved_quantity, log_event}
use cresta.Paper.Create.{is_mock}
use cresta.Venue.Calendar.{evaluate_krx_trading_day, year_end_closure, is_closed, trading_day}
use cresta.Venue.Dates.{weekday, previous_day, seoul_date, ordinal}
use cresta.Venue.Session.{classify_session}
use cresta.Guard.Rules.{find_stream, blocked}
use cresta.Guard.Sell.{
  sell_plan, sell_guard_rules, sell_ratio, sellable_managed_quantity, planned_quantity,
  has_active_symbol_order, is_fresh, is_tradable,
}
use cresta.Guard.Risk.{find_snapshot}
use cresta.Guard.Examples.{ten, sale}
use cresta.Orders.{create_order, validate_order, add_order}
use cresta.Desk.Routing.Route.{
  route_trading_decision, route_new, decide, guarded, act_on, act, answer_route, record_route,
  add_execution,
}
use cresta.Desk.Routing.{
  find_by_key, execution_key_of, new_execution, mode_for, persist_rules, routing_rules,
}
use cresta.Desk.Routing.Placing.{create_sell_order, sell_request, place_order, ordered}
use cresta.Fusion.{
  PositionDecision, FusionRows, AgentRun, core_output, fusion_pending, escalated,
  llm_exit_risk_high, severity, all_succeeded, validate_frozen_input,
}
use cresta.Fusion.Finalize.{
  stronger_action, advise, find_request, fuse, conclude, finalize_pending,
  finalize_position_advisory, Fused,
}
use cresta.Fusion.{AgentStage, find_stage, find_input, exit_risk_high}
use cresta.Fusion.Escalation.{Stops, Escalates, finalize_position_advisory-Escalates}
use cresta.Desk.Examples.{env, desk}

abbrev basis : PositionDecision
basis = record {
  decision = sale;
  decision_input_id = 2;
  decision_kind = "POSITION";
  evaluation_request_id = 1;
}

abbrev rows : FusionRows
rows = record {
  inputs =
      record {
        id = 2;
        user_id = 7;
        market_snapshot_id = 5;
        position = some (record { position_id = 1; position_version = 3 });
        position_digest = 77;
      }
      ∷ [];
  active_users = 7 ∷ [];
  request_digest = λ run basis. 100 + run + basis;
}

abbrev stage : String → AgentStage
stage role = record { role = role; succeeded = true }

abbrev run : AgentRun
run = record {
  id = 4;
  owner_id = 7;
  purpose = "TRADING_ADVISORY";
  analysis_context = "POSITION";
  symbol = "005930";
  market = "KRX";
  market_snapshot_id = 5;
  basis_decision_id = 3;
  position_hash = 77;
  position_text_digest = 77;
  policy_version = "position-agent-fusion-v1";
  stages =
      stage "TECHNICAL_SCOUT"
      ∷ stage "NEWS_DISCLOSURE_SCOUT"
      ∷ stage "MARKET_SECTOR_SCOUT"
      ∷ stage "POSITION_RISK_SCOUT"
      ∷ stage "CORE"
      ∷ [];
  core = core_output (record {
    confidence = record { negative = false; coeff = 9; scale = 1 };
    has_incomplete_roles = false;
    assessment = exit_risk_high;
  });
  fusion_state = fusion_pending;
  fusion_reason = none;
  fusion_decision_id = none;
}

-- all eleven managed shares are sold
advice_followed :
    (fused : Fused) × (finalize_position_advisory env rows run "c" ten (basis ∷ []) desk
      ≡ returns fused)
    × (fused.run.fusion_state ≡ escalated)
    × (fused.run.fusion_reason ≡ some llm_exit_risk_high)
    × ((o : TradingOrder) × (fused.desk.book.db.orders ≡ o ∷ []) × (o.requested_quantity ≡ 11))
unfolding finalize_position_advisory finalize_pending conclude fuse find_request advise
    stronger_action severity all_succeeded find_stage validate_frozen_input find_input
    route_trading_decision route_new find_by_key execution_key_of new_execution mode_for decide
    guarded act_on act create_sell_order sell_request place_order ordered answer_route record_route
    add_execution persist_rules routing_rules create_order validate_order add_order log_event
    find_key find_row save_row blocked sell_guard_rules sell_plan sell_ratio planned_quantity
    sellable_managed_quantity find_position find_gate find_stream find_snapshot str_eq is_mock
    has_active_symbol_order is_fresh is_tradable classify_session trading_day seoul_date
    evaluate_krx_trading_day year_end_closure is_closed previous_day weekday reserved_quantity
    ordinal
advice_followed = (_, refl, refl, refl, (_, refl, refl))

finalize_position_advisory-Escalates_example :
    let result = finalize_position_advisory env rows run "c" ten (basis ∷ []) desk in
    Stops (basis ∷ []) desk result ⊎ Escalates env rows run "c" ten (basis ∷ []) desk result
unfolding str_eq
finalize_position_advisory-Escalates_example =
    finalize_position_advisory-Escalates env rows run "c" ten (basis ∷ []) desk refl refl
