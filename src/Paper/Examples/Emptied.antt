-- ===== src/Paper/Examples/Emptied.antt =====
-- The shares of the day are all sold at a loss, and the theorem on the losses that the guard sees.
use cresta.Base.{◌≡◌, refl, ap, Bool, false, [], str_eq, returns, sym}
use mathlib.Core.Option.{some-injective}
use cresta.Decimal.{quantize, ten_thousandths, half_up}
use cresta.Paper.Rows.{TradingOrder, sell, Position, Db}
use cresta.Paper.Store.{
  find_order, find_fill, save_order, save_position, find_key, find_gate, find_position, has_locked,
  reserved_quantity, log_event, fresh_id,
}
use cresta.Paper.Create.{
  create_paper_order, validate_request, is_mock, is_symbol, is_ready, insert_order, submit,
  set_status, request_hash,
}
use cresta.Paper.Fills.{
  FillReport, apply_paper_fill, check_fill, book_fill, record_fill, finish_fill, apply_position,
  change_position, take_fill, status_after_fill,
}
use cresta.Paper.Steps.{Step, Reach, empty_db}
use cresta.Paper.Examples.{
  platform, settings, won, request, report, succeeded, open_day, opening, buy_request, bought,
  part_filled, part_day,
}
use cresta.Guard.Risk.{daily_loss, realized_only, consecutive_loss_count, sell_fills}
use cresta.Guard.Losses.SoldOut.{closed_positions-no_loss}

sold_all :
    (x : TradingOrder × Db) × (create_paper_order platform settings 739000 false
        (request "order-3" sell 4)
        part_day
        part_day
      ≡ returns x)
unfolding part_filled create_paper_order find_key validate_request is_mock is_symbol is_ready
    find_gate has_locked find_position reserved_quantity insert_order submit set_status log_event
    fresh_id request_hash quantize str_eq
sold_all = succeeded _ refl

abbrev selling_day : Db
selling_day = sold_all.0.1

-- bought at 69,900 and sold at 60,000
abbrev loss_report : FillReport
loss_report = record (report "f-4" sold_all.0.0.id 4) { price = won 60000 }

emptied : (x : TradingOrder × Bool × Db) × (apply_paper_fill loss_report selling_day ≡ returns x)
unfolding sold_all apply_paper_fill find_fill find_order check_fill book_fill record_fill
    finish_fill apply_position change_position take_fill status_after_fill ten_thousandths half_up
    find_position save_position save_order set_status log_event fresh_id str_eq
emptied = succeeded _ refl

abbrev empty_day : Db
empty_day = emptied.0.2

to_emptied : Reach platform settings empty_db empty_day
to_emptied =
    Reach.next
      (Reach.next
        (Reach.next
          (Reach.next (Reach.next Reach.here (Step.set_gate _ _ opening))
            (Step.create 739000 false buy_request open_day bought.0.0 bought.1))
          (Step.fill _ _ _ part_filled.1))
        (Step.create 739000 false (request "order-3" sell 4) part_day sold_all.0.0 sold_all.1))
      (Step.fill loss_report emptied.0.0 emptied.0.1 emptied.1)

closed_positions-no_loss_example :
    (daily_loss
        (record { streams = []; snapshots = [] })
        "PAPER"
        realized_only
        739000
        empty_day.positions
        (sell_fills "PAPER" empty_day.orders empty_day.fills)
      ≡ 0)
    × (consecutive_loss_count "PAPER" empty_day.positions
          (sell_fills "PAPER" empty_day.orders empty_day.fills)
        ≡ 0)
unfolding emptied sell_fills find_position find_order str_eq
closed_positions-no_loss_example =
    closed_positions-no_loss platform settings (record { streams = []; snapshots = [] }) "PAPER"
      739000 empty_day to_emptied
      ((λ p found. ap (λ (q : Position). q.state) (sym (some-injective _ p found))), tt)
