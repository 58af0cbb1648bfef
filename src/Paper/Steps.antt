-- ===== src/Paper/Steps.antt =====
-- The broker as a transition system: a step is one call of backend/app/trading/paper.py that
-- succeeds, with any arguments. A call that raises commits nothing.
use cresta.Base.{ℕ, ◌≡◌, Bool, [], String, some, returns}
use cresta.Decimal.{Decimal}
use cresta.Paper.Rows.{OrderRequest, TradingOrder, GateStatus, Db, Settings, Platform}
use cresta.Paper.Create.{create_paper_order, set_paper_gate}
use cresta.Paper.Fills.{FillReport, apply_paper_fill}
use cresta.Paper.Change.{
  request_paper_cancel, confirm_paper_cancel, request_paper_replace, replace_paper_order,
}

module _ (platform : Platform) (settings : Settings) where
  pub data Step (db db' : Db) : Type 0 where
    set_gate :
        (status : GateStatus) (reason : String)
        → set_paper_gate status reason db ≡ some db'
        → Step db db'
    create :
        (today : ℕ) (lost : Bool) (r : OrderRequest) (seen : Db) (o : TradingOrder)
        → create_paper_order platform settings today lost r seen db ≡ returns (o, db')
        → Step db db'
    fill :
        (r : FillReport) (o : TradingOrder) (new : Bool)
        → apply_paper_fill r db ≡ returns (o, new, db')
        → Step db db'
    ask_cancel :
        (id : ℕ) (o : TradingOrder) → request_paper_cancel id db ≡ returns (o, db') → Step db db'
    confirm_cancel :
        (id : ℕ) (o : TradingOrder) → confirm_paper_cancel id db ≡ returns (o, db') → Step db db'
    ask_replace :
        (id : ℕ) (o : TradingOrder) → request_paper_replace id db ≡ returns (o, db') → Step db db'
    replace :
        (id : ℕ) (price : Decimal) (key : String) (o : TradingOrder)
        → replace_paper_order platform id price key db ≡ returns (o, db')
        → Step db db'

  -- the tables that some sequence of successful calls leads to
  pub data Reach (start : Db) : Db → Type 0 where
    here : Reach start start
    next : {mid end : Db} → Reach start mid → Step mid end → Reach start end

-- the tables of a new database
abbrev pub empty_db : Db
empty_db = record {
  orders = [];
  intents = [];
  fills = [];
  positions = [];
  gates = [];
  order_events = [];
  position_events = [];
  next_id = 0;
}
