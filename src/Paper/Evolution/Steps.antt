-- ===== src/Paper/Evolution/Steps.antt =====
-- Every call of backend/app/trading/paper.py keeps every order row, and moves it as the call allows.
use cresta.Base.{ℕ}
use cresta.Decimal.{Decimal}
use cresta.Paper.Rows.{TradingOrder, Db, Settings, Platform}
use cresta.Paper.Steps.{Step}
use cresta.Paper.Ledger.Accounts.{Accounts}
use cresta.Paper.Evolution.Rows.{
  Cause, unconcerned, cancel_requested, cancel_confirmed, replace_requested, replacing, own_fill,
}
use cresta.Paper.Evolution.Tables.{concerning, child_cause}

module _ (platform : Platform) (settings : Settings) where
  -- what a call is to the row of an id
  abbrev pub cause_of : {db db' : Db} → ℕ → TradingOrder → Step platform settings db db' → Cause
  cause_of id q (Step.set_gate status reason e) = unconcerned
  cause_of id q (Step.create today lost r seen o e) = unconcerned
  cause_of id q (Step.fill r o new e) = concerning r.order_id id own_fill (child_cause r.order_id q)
  cause_of id q (Step.ask_cancel own o e) = concerning own id cancel_requested unconcerned
  cause_of id q (Step.confirm_cancel own o e) = concerning own id cancel_confirmed unconcerned
  cause_of id q (Step.ask_replace own o e) = concerning own id replace_requested unconcerned
  cause_of id q (Step.replace own price key o e) = concerning own id replacing unconcerned
