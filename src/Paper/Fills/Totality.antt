-- ===== src/Paper/Fills/Totality.antt =====
-- The guards of `apply_paper_fill`, in backend/app/trading/paper.py, are all that a new fill needs:
-- what `_apply_position` checks again cannot fail after them.
use cresta.Base.{
  ◌≡◌, ◌⊎◌, refl, true, false, none, some, arith, returns, raises, returns_of_no_raises,
}
use cresta.Paper.Rows.{TradingOrder, Fill, Db, PaperError}
use cresta.Paper.Store.{find_order, find_fill, find_position, is_sell, is_buy, fresh_id}
use cresta.Paper.Create.{lacks_shares}
use cresta.Paper.Fills.{
  FillReport, fill_row, check_fill, change_position, apply_position, record_fill, finish_fill,
  book_fill, apply_paper_fill,
}
use cresta.Paper.Fills.Effects.{record_fill-orders}

-- an order of one of the two sides that `ck_orders_side` allows
abbrev pub HasSide : TradingOrder → Type 0
HasSide o = (is_buy o.side ≡ true) ⊎ (is_sell o.side ≡ true)

apply_position_raises_nothing :
    (o : TradingOrder) (f : Fill) (db : Db) (e : PaperError)
    → HasSide o
    → (is_sell o.side ≡ true
        → lacks_shares (find_position o.account_alias o.symbol db.positions) 0 f.quantity ≡ false)
    → ¬ (apply_position o f db ≡ raises e)
unfolding apply_position change_position fresh_id
apply_position_raises_nothing o f db e side covered = ground arith

check_fill_covered :
    (r : FillReport) (o : TradingOrder) (db : Db)
    → check_fill r o db ≡ returns tt
    → is_sell o.side ≡ true
    → lacks_shares (find_position o.account_alias o.symbol db.positions) 0 r.quantity ≡ false
unfolding check_fill
check_fill_covered r o db e sells = ground arith

-- A fill of a buy or sell order that passes the guards is booked.
check_fill-booked :
    (r : FillReport) (o : TradingOrder) (db : Db)
    → HasSide o
    → check_fill r o db ≡ returns tt
    → (o' : TradingOrder) × (db' : Db) × (book_fill r o db ≡ returns (o', true, db'))
unfolding book_fill finish_fill
check_fill-booked r o db side e =
    let f = fill_row db.next_id r o in
    let (db1, moved) = returns_of_no_raises (apply_position o f (record_fill r o db)) (λ x.
      apply_position_raises_nothing o f (record_fill r o db) x side
        (λ sells. rw ((record_fill-orders r o db).2) (check_fill_covered r o db e sells))) in
    let (o', _, db') = finish_fill f o db1 in (o', db', rw moved refl)

-- A report with a new source key, for a buy or sell order that is found and whose guards it passes,
-- succeeds as a new fill.
pub apply_paper_fill_total :
    (r : FillReport) (o : TradingOrder) (db : Db)
    → find_fill r.source_key db.fills ≡ none
    → find_order r.order_id db.orders ≡ some o
    → HasSide o
    → check_fill r o db ≡ returns tt
    → (o' : TradingOrder) × (db' : Db) × (apply_paper_fill r db ≡ returns (o', true, db'))
unfolding apply_paper_fill
apply_paper_fill_total r o db new found side e =
    let (o', db', booked) = check_fill-booked r o db side e in (o', db', ground arith)
