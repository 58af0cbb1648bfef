-- ===== src/Paper/Late.antt =====
-- A fill that arrives for an order after its replacement: what backend/app/trading/paper.py takes
-- back from the replacement, and when it locks the symbol.
use cresta.Base.{
  ℕ, ◌+◌, ◌≤◌, ◌<◌, ◌≡◌, ◌⊎◌, refl, sym, ◌∙◌, ap, inl, inr, Bool-cases, Bool, true, some, List, [],
  ◌∷◌, String, arith, ltb, returns, raises, str_eq_refl,
}
use cresta.Paper.Rows.{
  TradingOrder, replaced, cancel_pending, cancelled_out, opened, invalid_order_transition, Db,
}
use cresta.Paper.Store.{find_order, save_order, find_child, has_locked, is_for, locks_symbol}
use cresta.Paper.Store.Laws.{OfSome-some, All-find_order}
use cresta.Paper.Store.Totals.{find_child-found, find_child-parent, find-save_other}
use cresta.Paper.Fills.{FillReport, absorb, adjusted_status, take_fill, is_replaced, book_fill}
use cresta.Paper.Fills.Effects.{adjusted, book_fill-Booked, filled_row, orders_after_adjust}
use cresta.Paper.Change.{confirm_paper_cancel, move_to, cancel_rest}
use cresta.Paper.Ledger.Accounts.{Accounts, IsAccounted}

-- the shares that an order has bought or sold, or may still
abbrev pub exposure : TradingOrder → ℕ
exposure o = o.filled_quantity + o.remaining_quantity

-- What the adjustment makes of the replacement's row.
exposure-adjusted :
    (late : ℕ) (c : TradingOrder)
    → late ≤ c.remaining_quantity
    → exposure (adjusted late c) + late ≡ exposure c
unfolding absorb
exposure-adjusted late c le = ground arith

adjusted_locks :
    (late : ℕ) (c : TradingOrder)
    → c.remaining_quantity < late
    → (locks_symbol (adjusted late c).status ≡ true) × ((adjusted late c).remaining_quantity ≡ 0)
unfolding absorb adjusted_status
adjusted_locks late c lt = ground arith

-- A row that locks its symbol is seen by the query for locked orders.
pub found-locks :
    (id : ℕ) (a s : String) (o : TradingOrder) (os : List TradingOrder)
    → find_order id os ≡ some o
    → is_for a s o ≡ true
    → locks_symbol o.status ≡ true
    → has_locked a s os ≡ true
unfolding find_order has_locked
found-locks id a s o [] found mine locks = cc
found-locks id a s o (x ∷ os) found mine locks = ground (arith, found-locks id a s o os)

saved_found :
    (id : ℕ) (o p : TradingOrder) (os : List TradingOrder)
    → find_order id os ≡ some p
    → o.id ≡ id
    → find_order id (save_order o os) ≡ some o
unfolding find_order save_order
saved_found id o p [] e same = cc
saved_found id o p (x ∷ os) e same = ground (arith, saved_found id o p os)

-- The rows of the original and of its replacement after a late fill of the original.
late_rows :
    (r : FillReport) (o c : TradingOrder) (db : Db) {o' : TradingOrder} {new : Bool} {db' : Db}
    → Accounts db
    → find_order o.id db.orders ≡ some o
    → o.status ≡ replaced
    → find_child o.id db.orders ≡ some c
    → book_fill r o db ≡ returns (o', new, db')
    → (o' ≡ filled_row r.quantity o)
      × (find_order o.id db'.orders ≡ some (filled_row r.quantity o))
      × (find_order c.id db'.orders ≡ some (adjusted r.quantity c))
unfolding take_fill absorb orders_after_adjust
late_rows r o c db {o'} {new} {db'} b own late child e =
    let (done, _) = book_fill-Booked r o db e in
    let q = r.quantity in
    let flag : is_replaced o.status ≡ true = ground arith in
    let c_own = find_child-found 0 o.id c db.orders b.ascending child in
    let acc =
      OfSome-some (IsAccounted db.fills db.next_id)
        (All-find_order (IsAccounted db.fills db.next_id) c.id db.orders b.rows) c_own in
    let older = acc.older_parent o.id (find_child-parent o.id c db.orders child) in
    let adjust : orders_after_adjust o.id q db.orders ≡ save_order (adjusted q c) db.orders =
      rw (child, orders_after_adjust) refl in
    let orders : db'.orders ≡ save_order (filled_row q o) (save_order (adjusted q c) db.orders) =
      done.orders ∙ ap (save_order (filled_row q o)) (rw flag adjust) in
    let o_there : find_order o.id (save_order (adjusted q c) db.orders) ≡ some o =
      find-save_other o.id (adjusted q c) db.orders (ground arith) ∙ own in
    (
      done.row,
      rw orders (saved_found o.id (filled_row q o) o _ o_there refl),
      rw orders (
          find-save_other c.id (filled_row q o) _ (ground arith)
          ∙ saved_found c.id (adjusted q c) c db.orders c_own refl),
    )

-- A fill of a replaced order, booked in consistent books where its replacement is found: if the
-- replacement still works that quantity, the exposure of the two orders together is what it was;
-- if not, the replacement works nothing any more and locks its account and symbol for new orders.
pub late_fill_exposure :
    (r : FillReport) (o c : TradingOrder) (db : Db) {o' : TradingOrder} {new : Bool} {db' : Db}
    → Accounts db
    → find_order o.id db.orders ≡ some o
    → o.status ≡ replaced
    → o.remaining_quantity ≡ 0
    → find_child o.id db.orders ≡ some c
    → book_fill r o db ≡ returns (o', new, db')
    → (c' : TradingOrder) × (find_order c.id db'.orders ≡ some c')
      × (find_order o.id db'.orders ≡ some o')
      × (((r.quantity ≤ c.remaining_quantity)
            × (exposure o' + exposure c' ≡ exposure o + exposure c))
          ⊎ ((c.remaining_quantity < r.quantity)
              × (c'.remaining_quantity ≡ 0)
              × (has_locked c.account_alias c.symbol db'.orders ≡ true)))
unfolding take_fill absorb
late_fill_exposure r o c db {o'} {new} {db'} b own late nothing child e =
    let (row, found_o, found_c) = late_rows r o c db b own late child e in
    let c' = adjusted r.quantity c in
    (
      c',
      found_c,
      found_o ∙ ap some (sym row),
      elim (Bool-cases (ltb c.remaining_quantity r.quantity)) [
        | inl short ↦ inr (
          ground arith,
          (adjusted_locks r.quantity c (ground arith)).1,
          found-locks c.id c.account_alias c.symbol c' db'.orders found_c
              (rw (str_eq_refl c.account_alias) (str_eq_refl c.symbol))
              (adjusted_locks r.quantity c (ground arith)).0,
        )
        | inr enough ↦ inl (ground arith, ground (arith, row, exposure-adjusted r.quantity c))
      ],
    )

-- what the adjustment makes of a replacement that awaits the confirmation of its cancel
dropped_cancel :
    (late : ℕ) (c : TradingOrder)
    → c.filled_quantity ≡ 0
    → late < c.remaining_quantity
    → 0 < c.requested_quantity
    → (adjusted late c).status ≡ opened
unfolding absorb adjusted_status
dropped_cancel late c unfilled less positive = ground arith

refused_confirm :
    (id : ℕ) (o : TradingOrder) (db : Db)
    → find_order id db.orders ≡ some o
    → o.status ≡ opened
    → confirm_paper_cancel id db ≡ raises invalid_order_transition
unfolding confirm_paper_cancel
refused_confirm id o db found is_open = ground arith

accepted_confirm :
    (id : ℕ) (o : TradingOrder) (db : Db)
    → find_order id db.orders ≡ some o
    → o.status ≡ cancel_pending
    → (x : TradingOrder × Db) × (confirm_paper_cancel id db ≡ returns x)
unfolding confirm_paper_cancel
accepted_confirm id o db found pending = (move_to cancelled_out (cancel_rest o) db, ground arith)

-- The adjustment forgets a cancel that was asked for: for a replacement that awaits the
-- confirmation of its cancel, has no fill and works more than the late quantity, the confirmation
-- is accepted before the late fill and refused after it.
pub late_fill-drops_cancel :
    (r : FillReport) (o c : TradingOrder) (db : Db) {o' : TradingOrder} {new : Bool} {db' : Db}
    → Accounts db
    → find_order o.id db.orders ≡ some o
    → o.status ≡ replaced
    → find_child o.id db.orders ≡ some c
    → c.status ≡ cancel_pending
    → c.filled_quantity ≡ 0
    → 0 < c.requested_quantity
    → r.quantity < c.remaining_quantity
    → book_fill r o db ≡ returns (o', new, db')
    → (x : TradingOrder × Db) × (confirm_paper_cancel c.id db ≡ returns x)
      × (confirm_paper_cancel c.id db' ≡ raises invalid_order_transition)
late_fill-drops_cancel r o c db {o'} {new} {db'} b own late child pending unfilled positive less e =
    let (row, found_o, found_c) = late_rows r o c db b own late child e in
    let before =
      accepted_confirm c.id c db (find_child-found 0 o.id c db.orders b.ascending child) pending in
    (
      before.0,
      before.1,
      refused_confirm c.id (adjusted r.quantity c) db' found_c
          (dropped_cancel r.quantity c unfilled less positive),
    )
