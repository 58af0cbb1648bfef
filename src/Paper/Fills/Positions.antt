-- ===== src/Paper/Fills/Positions.antt =====
-- The position after a fill: `_apply_position` of backend/app/trading/paper.py moves the shares of
-- the order's own account and symbol by the filled quantity, and those of no other.
use cresta.Base.{
  ℕ, suc, ◌+◌, ◌≡◌, refl, inl, inr, Bool, not, ◌&&◌, some, List, [], ◌∷◌, ◌++◌, String, arith,
  if◌then◌else◌, str_eq, str_eq_iff, str_eq_refl, Option-cases, returns, >>=-eq-returns,
}
use cresta.Paper.Rows.{TradingOrder, Fill, Position, Db}
use cresta.Paper.Store.{find_position, save_position, is_for, is_buy, fresh_id, log_event}
use cresta.Paper.Store.Totals.{
  shares, find_position-holds, find-save_position, find_position-append,
}
use cresta.Paper.Fills.{
  change_position, apply_position, new_position, settle, buy_into, sell_from, FillReport, fill_row,
  record_fill, finish_fill, book_fill,
}
use cresta.Paper.Fills.Effects.{record_fill-orders}
use cresta.Paper.Create.{set_status}

-- what a fill of an order brings into, or takes out of, the position of an account and symbol
abbrev pub brought : String → String → TradingOrder → ℕ → ℕ
brought a s o q = if is_for a s o && is_buy o.side then q else 0

abbrev pub taken : String → String → TradingOrder → ℕ → ℕ
taken a s o q = if is_for a s o && not (is_buy o.side) then q else 0

abbrev pub shares_at : String → String → Db → ℕ
shares_at a s db = shares (find_position a s db.positions)

-- The shares after one row was found and written back with another quantity.
saved_shares :
    (a s : String) (p q : Position) (ps : List Position)
    → find_position p.account_alias p.symbol ps ≡ some p
    → q.account_alias ≡ p.account_alias
    → q.symbol ≡ p.symbol
    → shares (find_position a s (save_position q ps))
        + (if str_eq p.account_alias a && str_eq p.symbol s then p.quantity else 0)
      ≡ shares (find_position a s ps)
        + (if str_eq p.account_alias a && str_eq p.symbol s then q.quantity else 0)
saved_shares a s p q ps found ea es = ground (
  arith,
  find-save_position a s q p ps (rw (ea, es) found),
  str_eq_iff p.account_alias a,
  str_eq_iff p.symbol s,
)

-- The row that the query finds is of the account and symbol that it asks for.
found-for :
    (o : TradingOrder) (p : Position) (ps : List Position)
    → find_position o.account_alias o.symbol ps ≡ some p
    → (p.account_alias ≡ o.account_alias) × (p.symbol ≡ o.symbol)
found-for o p ps e = ground (
  arith,
  find_position-holds o.account_alias o.symbol p ps e,
  str_eq_iff p.account_alias o.account_alias,
  str_eq_iff p.symbol o.symbol,
)

change_position-shares :
    (a s : String) (o : TradingOrder) (f : Fill) (p : Position) (db : Db) {db' : Db}
    → change_position o f p db ≡ returns db'
    → p.account_alias ≡ o.account_alias
    → p.symbol ≡ o.symbol
    → find_position p.account_alias p.symbol db.positions ≡ some p
    → shares_at a s db' + taken a s o f.quantity ≡ shares_at a s db + brought a s o f.quantity
unfolding change_position
change_position-shares a s o f p db e ea es found = ground (
  arith,
  saved_shares a s p (settle (buy_into f p)) db.positions found refl refl,
  saved_shares a s p (settle (sell_from f p)) db.positions found refl refl,
)

pub apply_position-shares :
    (a s : String) (o : TradingOrder) (f : Fill) (db : Db) {db' : Db}
    → apply_position o f db ≡ returns db'
    → shares_at a s db' + taken a s o f.quantity ≡ shares_at a s db + brought a s o f.quantity
unfolding apply_position fresh_id
apply_position-shares a s o f db {db'} e =
    elim (Option-cases (find_position o.account_alias o.symbol db.positions)) [
      | inl missing ↦
          let p = new_position db.next_id o.account_alias o.symbol in
          let db1 = record db { next_id = suc db.next_id; positions = db.positions ++ p ∷ [] } in
          ground (
            arith,
            find_position-append o.account_alias o.symbol p db.positions,
            find_position-append a s p db.positions,
            str_eq_refl o.account_alias,
            str_eq_refl o.symbol,
            λ (h : change_position o f p db1 ≡ returns db').
                change_position-shares a s o f p db1 h refl refl,
          )
      | inr (p, found) ↦
          let (ea, es) = found-for o p db.positions found in
          change_position-shares a s o f p db {db' = db'} (ground (arith)) ea es
            (simp (ea, es) found)
    ]

-- The same for a whole call that books a fill.
pub book_fill-shares :
    (a s : String) (r : FillReport) (o : TradingOrder) (db : Db) {o' : TradingOrder} {new : Bool}
    {db' : Db}
    → book_fill r o db ≡ returns (o', new, db')
    → shares_at a s db' + taken a s o r.quantity ≡ shares_at a s db + brought a s o r.quantity
unfolding book_fill finish_fill set_status log_event
book_fill-shares a s r o db e =
    let f = fill_row db.next_id r o in
    let (db1, moved, done) = >>=-eq-returns (apply_position o f (record_fill r o db)) _ e in
    ground
      (arith, apply_position-shares a s o f (record_fill r o db) moved, record_fill-orders r o db)
