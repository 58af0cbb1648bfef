-- ===== src/Paper/Examples/Witnesses.antt =====
-- The theorems on backend/app/trading/paper.py at the databases of the day.
use cresta.Base.{
  ◌+◌, ◌≤◌, ◌<◌, ◌≡◌, ◌⊎◌, refl, inl, true, false, some, arith, str_eq, returns, raises,
}
use cresta.Decimal.{ten_thousandths}
use cresta.Paper.Rows.{TradingOrder, Db, buy, ready, idempotency_conflict, invalid_order_transition}
use cresta.Paper.Store.{
  find_order, find_fill, find_child, find_position, has_locked, reserved_quantity,
}
use cresta.Paper.Create.{create_paper_order, request_payload}
use cresta.Paper.Fills.{apply_paper_fill, check_fill}
use cresta.Paper.Change.{confirm_paper_cancel}
use cresta.Paper.Steps.{Step, Reach, empty_db}
use cresta.Paper.Orders.Tables.{AllSound, Reach-AllSound}
use cresta.Paper.Ledger.Accounts.{Accounts}
use cresta.Paper.Ledger.Steps.{Reach-Accounts}
use cresta.Paper.Ledger.Keys.{Keys, Reach-Keys}
use cresta.Paper.Replays.{
  create_paper_order-again, create_paper_order-conflict, apply_paper_fill-again,
}
use cresta.Paper.Coverage.{IsCovered, create_paper_order-IsCovered, timely_fill-IsCovered}
use cresta.Paper.Late.{exposure, late_fill_exposure, late_fill-drops_cancel}
use cresta.Paper.Fills.Totality.{apply_paper_fill_total}
use cresta.Paper.Examples.{
  platform, settings, request, report, won, open_day, opening, buy_request, bought, bought_day,
  part_filled, part_day, asked, asked_day, replaced_order, replaced_day, original, child,
  late_filled, asked_cancel, cancel_day, pending_child, late_after_cancel, sell_request, sold_order,
  sell_day, sell_filled,
}

to_open : Reach platform settings empty_db open_day
to_open = Reach.next Reach.here (Step.set_gate ready "RECONCILED" opening)

to_bought : Reach platform settings empty_db bought_day
to_bought = Reach.next to_open (Step.create 739000 false buy_request open_day bought.0.0 bought.1)

to_part : Reach platform settings empty_db part_day
to_part =
    Reach.next to_bought
      (Step.fill (report "f-1" 2 4) part_filled.0.0 part_filled.0.1 part_filled.1)

to_asked : Reach platform settings empty_db asked_day
to_asked = Reach.next to_part (Step.ask_replace 2 asked.0.0 asked.1)

last-Step : Step platform settings asked_day replaced_day
last-Step = Step.replace 2 (won 70100) "order-1-r" replaced_order.0.0 replaced_order.1

to_replaced : Reach platform settings empty_db replaced_day
to_replaced = Reach.next to_asked last-Step

Reach-AllSound_example : AllSound replaced_day
Reach-AllSound_example = Reach-AllSound platform settings replaced_day to_replaced

Reach-Accounts_example : Accounts replaced_day
Reach-Accounts_example = Reach-Accounts platform settings replaced_day to_replaced

Reach-Keys_example : Keys replaced_day
Reach-Keys_example = Reach-Keys platform settings replaced_day to_replaced

create_paper_order-again_example :
    create_paper_order platform settings 739000 true buy_request bought_day bought_day
    ≡ returns bought.0
create_paper_order-again_example =
    create_paper_order-again platform settings settings 739000 false true buy_request open_day
      bought.1

create_paper_order-conflict_example :
    create_paper_order platform settings 739000 false
      (request "order-1" buy 11)
      bought_day
      bought_day
    ≡ raises idempotency_conflict
unfolding request_payload
create_paper_order-conflict_example =
    create_paper_order-conflict platform settings settings 739000 739000 false false buy_request
      (request "order-1" buy 11) open_day (λ h. absurd (omega arith)) bought.1 refl (λ h. cc)

apply_paper_fill-again_example :
    apply_paper_fill (report "f-1" 2 4) part_day ≡ returns (part_filled.0.0, false, part_day)
unfolding part_filled
apply_paper_fill-again_example =
    apply_paper_fill-again (report "f-1" 2 4) bought_day
      (Reach-Accounts platform settings bought_day to_bought) part_filled.1

create_paper_order-IsCovered_example : IsCovered "PAPER" "005930" sell_day
unfolding part_filled reserved_quantity find_position str_eq
create_paper_order-IsCovered_example =
    create_paper_order-IsCovered platform settings 739000 false sell_request "PAPER" "005930"
      part_day sold_order.1 (omega arith)

timely_fill-IsCovered_example : IsCovered "PAPER" "005930" sell_filled.0.2
unfolding sold_order reserved_quantity find_position find_order str_eq
timely_fill-IsCovered_example =
    timely_fill-IsCovered (report "f-3" sold_order.0.0.id 2) "PAPER" "005930" sold_order.0.0
      sell_day refl refl (inl refl) (omega arith) sell_filled.1 (omega arith)

late_fill_exposure_example :
    (c' : TradingOrder) × (find_order child.id late_filled.0.2.orders ≡ some c')
    × (find_order original.id late_filled.0.2.orders ≡ some late_filled.0.0)
    × (((3 ≤ child.remaining_quantity)
          × (exposure late_filled.0.0 + exposure c' ≡ exposure original + exposure child))
        ⊎ ((child.remaining_quantity < 3)
            × (c'.remaining_quantity ≡ 0)
            × (has_locked child.account_alias child.symbol late_filled.0.2.orders ≡ true)))
unfolding replaced_order find_order find_child
late_fill_exposure_example =
    late_fill_exposure (report "f-2" 2 3) original child replaced_day
      (Reach-Accounts platform settings replaced_day to_replaced) refl refl refl refl late_filled.1

to_cancel : Reach platform settings empty_db cancel_day
to_cancel = Reach.next to_replaced (Step.ask_cancel 6 asked_cancel.0.0 asked_cancel.1)

late_fill-drops_cancel_example :
    (x : TradingOrder × Db) × (confirm_paper_cancel pending_child.id cancel_day ≡ returns x)
    × (confirm_paper_cancel pending_child.id late_after_cancel.0.2
        ≡ raises invalid_order_transition)
unfolding asked_cancel find_order find_child
late_fill-drops_cancel_example =
    late_fill-drops_cancel (report "f-2" 2 3) original pending_child cancel_day
      (Reach-Accounts platform settings cancel_day to_cancel) refl refl refl refl refl (omega arith)
      (omega arith) late_after_cancel.1

apply_paper_fill_total_example :
    (o' : TradingOrder) × (db' : Db) × (apply_paper_fill (report "f-1" 2 4) bought_day
      ≡ returns (o', true, db'))
unfolding bought find_fill find_order check_fill ten_thousandths
apply_paper_fill_total_example =
    apply_paper_fill_total (report "f-1" 2 4) bought.0.0 bought_day refl refl (inl refl) refl
