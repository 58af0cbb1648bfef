-- ===== src/Paper/Ledger/Closed.antt =====
-- Positions that are sold out keep no average price (`_apply_position` of
-- backend/app/trading/paper.py).
use cresta.Base.{
  suc, ◌<◌, ◌≡◌, ◌⊎◌, refl, sym, ap, ◌∙◌, inl, inr, Bool, some, List, [], ◌∷◌, ◌++◌, arith, subst,
  returns, >>=-eq-returns, All, Option-cases, String,
}
use cresta.Paper.Rows.{
  TradingOrder, Fill, Position, closed_position, GateStatus, Db, Settings, Platform,
}
use cresta.Paper.Store.{find_position, save_position, holds, fresh_id, log_event}
use cresta.Paper.Store.Laws.{if_both, All-append}
use cresta.Paper.Create.{set_status, set_paper_gate, date_of}
use cresta.Paper.Create.Effects.{create_paper_order-cases, insert_order-Inserted}
use cresta.Paper.Fills.{
  FillReport, settle, buy_into, sell_from, new_position, change_position, apply_position, fill_row,
  record_fill, finish_fill, book_fill,
}
use cresta.Paper.Fills.Effects.{record_fill-orders, apply_paper_fill-cases}
use cresta.Paper.Change.{request_paper_cancel, request_paper_replace}
use cresta.Paper.Change.Effects.{
  request_change-cases, confirm_paper_cancel-cases, replace_paper_order-cases,
  replace_order-Replaced,
}
use cresta.Paper.Orders.Tables.{check_fill_bounds}
use cresta.Paper.Steps.{Step, Reach, empty_db}

-- a closed position has an average price of 0
abbrev pub IsCleared : Position → Type 0
IsCleared p = p.state ≡ closed_position → p.average_price ≡ 0

abbrev pub AllCleared : Db → Type 0
AllCleared db = All IsCleared db.positions

All-save_position :
    (p : Position) (ps : List Position)
    → All IsCleared ps
    → IsCleared p
    → All IsCleared (save_position p ps)
unfolding save_position
All-save_position p [] h q = tt
All-save_position p (x ∷ ps) h q =
    if_both (All IsCleared) (holds p.account_alias p.symbol x) (q, h.1)
      (h.0, All-save_position p ps h.1 q)

settle-IsCleared :
    (f : Fill) (p : Position)
    → 0 < f.quantity
    → IsCleared (settle (buy_into f p)) × IsCleared (settle (sell_from f p))
settle-IsCleared f p some_shares = (λ shut. ground arith, λ shut. ground arith)

change_position-positions :
    (o : TradingOrder) (f : Fill) (p : Position) (db : Db) {db' : Db}
    → change_position o f p db ≡ returns db'
    → (db'.positions ≡ save_position (settle (buy_into f p)) db.positions)
      ⊎ (db'.positions ≡ save_position (settle (sell_from f p)) db.positions)
unfolding change_position
change_position-positions o f p db e = ground arith

change_position-AllCleared :
    (o : TradingOrder) (f : Fill) (p : Position) (db : Db) {db' : Db}
    → change_position o f p db ≡ returns db'
    → 0 < f.quantity
    → AllCleared db
    → AllCleared db'
change_position-AllCleared o f p db {db'} e some_shares cleared =
    let (after_buy, after_sale) = settle-IsCleared f p some_shares in
    elim (change_position-positions o f p db {db' = db'} e) [
      | inl buying ↦
          subst (All IsCleared) (sym buying)
            (All-save_position (settle (buy_into f p)) db.positions cleared after_buy)
      | inr selling ↦
          subst (All IsCleared) (sym selling)
            (All-save_position (settle (sell_from f p)) db.positions cleared after_sale)
    ]

-- the position that a fill changes, in the tables with a row for it
apply_position-cases :
    (o : TradingOrder) (f : Fill) (db : Db) {db' : Db}
    → apply_position o f db ≡ returns db'
    → (p : Position) × (before : Db) × (change_position o f p before ≡ returns db')
      × ((before.positions ≡ db.positions)
          ⊎ (before.positions
              ≡ db.positions ++ new_position db.next_id o.account_alias o.symbol ∷ []))
unfolding apply_position fresh_id
apply_position-cases o f db e =
    elim (Option-cases (find_position o.account_alias o.symbol db.positions)) [
      | inl missing ↦
          let p = new_position db.next_id o.account_alias o.symbol in
          (
            p,
            record db { next_id = suc db.next_id; positions = db.positions ++ p ∷ [] },
            ground arith,
            inr refl,
          )
      | inr (p, found) ↦ (p, db, ground arith, inl refl)
    ]

apply_position-AllCleared :
    (o : TradingOrder) (f : Fill) (db : Db) {db' : Db}
    → apply_position o f db ≡ returns db'
    → 0 < f.quantity
    → AllCleared db
    → AllCleared db'
apply_position-AllCleared o f db e some_shares cleared =
    let (p, before, changed, how) = apply_position-cases o f db e in
    change_position-AllCleared o f p before changed some_shares (elim how [
      | inl same ↦ subst (All IsCleared) (sym same) cleared
      | inr added ↦
          subst (All IsCleared) (sym added)
            (All-append IsCleared db.positions _ cleared (λ shut. refl))
    ])

book_fill-AllCleared :
    (r : FillReport) (o : TradingOrder) (db : Db) {o' : TradingOrder} {new : Bool} {db' : Db}
    → book_fill r o db ≡ returns (o', new, db')
    → 0 < r.quantity
    → AllCleared db
    → AllCleared db'
unfolding book_fill finish_fill set_status log_event
book_fill-AllCleared r o db {db' = db'} e some_shares cleared =
    let f = fill_row db.next_id r o in
    let (db1, moved, done) = >>=-eq-returns (apply_position o f (record_fill r o db)) _ e in
    let (_, _, kept, _) = record_fill-orders r o db in
    let after : AllCleared db1 =
      apply_position-AllCleared o f (record_fill r o db) moved some_shares
        (subst (All IsCleared) (sym kept) cleared) in
    let same : db'.positions ≡ db1.positions = ground arith in
    subst (All IsCleared) (sym same) after

gate-positions :
    (status : GateStatus) (reason : String) (db : Db) {db' : Db}
    → set_paper_gate status reason db ≡ some db'
    → db'.positions ≡ db.positions
unfolding set_paper_gate
gate-positions status reason db e = ground arith

module _ (platform : Platform) (settings : Settings) where
  -- every other call leaves the positions alone
  Step-AllCleared : (db db' : Db) → Step platform settings db db' → AllCleared db → AllCleared db'
  unfolding request_paper_cancel request_paper_replace
  Step-AllCleared db db' (Step.set_gate status reason e) cleared =
      subst (All IsCleared) (sym (gate-positions status reason db e)) cleared
  Step-AllCleared db db' (Step.create today lost r seen o e) cleared =
      elim (create_paper_order-cases platform settings today lost r seen db e) [
        | inl same ↦ subst AllCleared (sym same) cleared
        | inr (admitted, new, done) ↦
            let i = insert_order-Inserted platform r (date_of r today) lost db in
            subst (All IsCleared)
              (sym (ap (λ (x : TradingOrder × Db). x.1.positions) done ∙ i.positions)) cleared
      ]
  Step-AllCleared db db' (Step.fill r o new e) cleared = elim (apply_paper_fill-cases r db e) [
    | inl known ↦ subst AllCleared (sym known.1) cleared
    | inr (p, found, checked, booked) ↦
        book_fill-AllCleared r p db booked (check_fill_bounds r p db checked).0 cleared
  ]
  Step-AllCleared db db' (Step.ask_cancel id o e) cleared =
      let (_, _, _, moved) = request_change-cases _ id db e in
      subst (All IsCleared) (sym moved.positions) cleared
  Step-AllCleared db db' (Step.confirm_cancel id o e) cleared =
      let (_, _, how) = confirm_paper_cancel-cases id db e in
      elim how [
        | inl same ↦ subst AllCleared (sym same.2) cleared
        | inr (_, moved) ↦ subst (All IsCleared) (sym moved.positions) cleared
      ]
  Step-AllCleared db db' (Step.ask_replace id o e) cleared =
      let (_, _, _, moved) = request_change-cases _ id db e in
      subst (All IsCleared) (sym moved.positions) cleared
  Step-AllCleared db db' (Step.replace id price key o e) cleared =
      elim (replace_paper_order-cases platform id price key db e) [
        | inl same ↦ subst AllCleared (sym same) cleared
        | inr (p, _, _, _, _, _, done) ↦
            let r = replace_order-Replaced platform p price key db in
            subst (All IsCleared)
              (sym (ap (λ (x : TradingOrder × Db). x.1.positions) done ∙ r.positions)) cleared
      ]

  -- In every database that the broker's calls lead to from an empty one, closed positions have an
  -- average price of 0.
  pub Reach-AllCleared : (db : Db) → Reach platform settings empty_db db → AllCleared db
  Reach-AllCleared db Reach.here = tt
  Reach-AllCleared db (Reach.next {mid = mid} r s) =
      Step-AllCleared mid db s (Reach-AllCleared mid r)
