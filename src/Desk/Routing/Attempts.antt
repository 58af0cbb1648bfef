-- ===== src/Desk/Routing/Attempts.antt =====
-- What the attempt at an order or at an approval adds to the tables (backend/app/decision_execution.py).
use cresta.Base.{
  ℕ, ◌≡◌, ◌⊎◌, inl, inr, refl, sym, ap, ◌∙◌, subst, Bool, true, false, some, [], ◌∷◌, ◌++◌, String,
  Result, returns, raises, arith, Option-cases, Bool-cases, Result-cases, ◌==◌, if◌then◌else◌,
}
use cresta.Paper.Rows.{Db, TradingOrder, created}
use cresta.Venue.Dates.{ordinal, seoul_date}
use cresta.Guard.Rules.{Decision}
use cresta.Orders.{CreationRequest, new_order, create_order}
use cresta.Orders.Creation.{create_order-orders}
use cresta.Desk.{
  Mode, automatic, manual_approval, disabled, Execution, order_created, approval_pending, Approval,
  Scope, pending, Desk, Env,
}
use cresta.Desk.Reads.{buy_quantity, marketable_buy_price, is_purchase, side_of}
use cresta.Desk.Approvals.{
  ApprovalError, approval_action_not_implemented, approval_quantity_invalid, add_approval,
  create_approval, new_scope,
}
use cresta.Desk.Routing.{decision_snapshot, plan_of}
use cresta.Desk.Routing.Placing.{
  ordered, place_order, create_buy_order, create_sell_order, buy_request, sell_request,
}
use cresta.Desk.Routing.Route.{awaiting, act}

abbrev pub KeepsAll : Desk → Desk → Type 0
KeepsAll before after =
    (after.book.db.orders ≡ before.book.db.orders) × (after.approvals ≡ before.approvals)

-- the quantity of a purchase or of a sale
abbrev pub sized_quantity : Env → Db → Decision → ℕ
sized_quantity env db d =
    if is_purchase d.action
    then buy_quantity env.policy.entry_order_amount (marketable_buy_price (decision_snapshot env d))
    else (plan_of env db d).quantity

-- An order of the decision is added, and the execution says so.
abbrev pub AddsOrder : Env → Decision → Desk → Execution → Desk → Type 0
AddsOrder env d before x after =
    (o : TradingOrder) × (after.book.db.orders ≡ before.book.db.orders ++ o ∷ [])
    × (after.approvals ≡ before.approvals)
    × (x.state ≡ order_created)
    × (o.symbol ≡ d.symbol)
    × (o.side ≡ side_of d.action)
    × (o.status ≡ created)
    × (o.requested_quantity ≡ sized_quantity env before.book.db d)

abbrev pub AddsApproval : Decision → Desk → Execution → Desk → Type 0
AddsApproval d before x after =
    (a : Approval) × (after.approvals ≡ before.approvals ++ a ∷ [])
    × (after.book.db.orders ≡ before.book.db.orders)
    × (x.state ≡ approval_pending)
    × (x.approval_id ≡ some a.id)
    × (a.state ≡ pending)
    × (a.decision_id ≡ d.id)
    × (a.expires_at ≡ d.valid_until)

ordered-effect :
    (user : ℕ) (x : Execution) (r : CreationRequest) (audit_action : String) (now : ℕ) (desk : Desk)
    → let p = place_order user x r audit_action now desk in
      KeepsAll desk p.1
      ⊎ ((o : TradingOrder) × (p.1.book.db.orders ≡ desk.book.db.orders ++ o ∷ [])
          × (p.1.approvals ≡ desk.approvals)
          × (p.0.state ≡ order_created)
          × (o ≡ new_order desk.book.db.next_id r (ordinal (seoul_date now))))
unfolding place_order ordered
ordered-effect user x r audit_action now desk =
    elim (Result-cases
      (create_order user r audit_action (ordinal (seoul_date now)) desk.book.db.orders desk.book)) [
        | inr (e, failed) ↦ inl (rw (failed), rw (failed))
        | inl ((o, book), made) ↦
            elim (create_order-orders user r audit_action (ordinal (seoul_date now)) desk.book book
              o made) [
                | inl same ↦ inl (rw (made, same), rw (made))
                | inr (is_new, added) ↦ inr (o, rw (made, added), rw (made), rw (made), is_new)
              ]
      ]

-- what an attempt to order does
abbrev Attempts : Env → Decision → Desk → Execution × Desk → Type 0
Attempts env d desk p = KeepsAll desk p.1 ⊎ AddsOrder env d desk p.0 p.1

unless-Attempts :
    (env : Env) (d : Decision) (desk : Desk) (b : Bool) (p q : Execution × Desk)
    → KeepsAll desk p.1
    → Attempts env d desk q
    → Attempts env d desk (if b then p else q)
unless-Attempts env d desk true p q keeps attempts = inl keeps
unless-Attempts env d desk false p q keeps attempts = attempts

place_order-Attempts :
    (env : Env) (user : ℕ) (x : Execution) (d : Decision) (r : CreationRequest)
    (audit_action : String) (now : ℕ) (desk : Desk)
    → r.symbol ≡ d.symbol
    → r.side ≡ side_of d.action
    → r.quantity ≡ sized_quantity env desk.book.db d
    → Attempts env d desk (place_order user x r audit_action now desk)
place_order-Attempts env user x d r audit_action now desk symbol side sized =
    elim (ordered-effect user x r audit_action now desk) [
      | inl keeps ↦ inl keeps
      | inr (o, added, kept, is_created, is_new) ↦ inr (
        o,
        added,
        kept,
        is_created,
        ap (λ (x : TradingOrder). x.symbol) is_new ∙ symbol,
        ap (λ (x : TradingOrder). x.side) is_new ∙ side,
        ap (λ (x : TradingOrder). x.status) is_new,
        ap (λ (x : TradingOrder). x.requested_quantity) is_new ∙ sized,
      )
    ]

create_buy_order-Attempts :
    (env : Env) (user : ℕ) (x : Execution) (d : Decision) (correlation : String) (now : ℕ)
    (desk : Desk)
    → is_purchase d.action ≡ true
    → Attempts env d desk (create_buy_order env user x d correlation now desk)
unfolding create_buy_order buy_request
create_buy_order-Attempts env user x d correlation now desk buys =
    unless-Attempts env d desk _ _ _ (refl, refl)
      (place_order-Attempts env user x d _ _ now desk refl refl (rw buys))

create_sell_order-Attempts :
    (env : Env) (user : ℕ) (x : Execution) (d : Decision) (correlation : String) (now : ℕ)
    (desk : Desk)
    → is_purchase d.action ≡ false
    → Attempts env d desk
        (create_sell_order env user x d (plan_of env desk.book.db d) correlation now desk)
unfolding create_sell_order sell_request
create_sell_order-Attempts env user x d correlation now desk sells =
    unless-Attempts env d desk _ _ _ (refl, refl)
      (place_order-Attempts env user x d _ _ now desk refl refl (rw sells))

-- What a call is about, if it returns.
abbrev pub OnReturn : (Execution → Desk → Type 0) → Result ApprovalError (Execution × Desk) → Type 0
OnReturn P (raises e) = Unit
OnReturn P (returns (y, next)) = P y next

-- What an execution of a mode may add.
abbrev pub Acts : Env → Decision → Mode → Desk → Execution → Desk → Type 0
Acts env d m before y after =
    KeepsAll before after
    ⊎ (((m ≡ automatic) × AddsOrder env d before y after)
        ⊎ ((m ≡ manual_approval) × AddsApproval d before y after))

pub create_approval-cases :
    (env : Env) (user : ℕ) (x : Execution) (d : Decision) (desk : Desk)
    → ((e : ApprovalError) × (create_approval env user x d desk ≡ (raises e, desk)))
      ⊎ ((scope : Scope) × (new_scope env desk.book.db d ≡ some scope)
          × (create_approval env user x d desk ≡ (
            returns (add_approval user x d scope desk).0,
            (add_approval user x d scope desk).1,
          )))
unfolding create_approval
create_approval-cases env user x d desk = elim (Option-cases (new_scope env desk.book.db d)) [
  | inl unsupported ↦ inl (approval_action_not_implemented, ground arith)
  | inr (scope, captured) ↦ elim (Bool-cases (scope.quantity == 0)) [
    | inl nothing ↦ inl (approval_quantity_invalid, ground arith)
    | inr something ↦ inr (scope, captured, ground arith)
  ]
]

awaiting-Acts :
    (env : Env) (user : ℕ) (x : Execution) (d : Decision) (desk : Desk)
    → OnReturn (Acts env d manual_approval desk) (awaiting x (create_approval env user x d desk))
unfolding add_approval
awaiting-Acts env user x d desk = elim (create_approval-cases env user x d desk) [
  | inl (e, failed) ↦
      subst (λ z. OnReturn (Acts env d manual_approval desk) (awaiting x z)) (sym failed) tt
  | inr (scope, captured, made) ↦
      subst (λ z. OnReturn (Acts env d manual_approval desk) (awaiting x z)) (sym made)
        (inr (
          inr (
            refl,
            ((add_approval user x d scope desk).0, refl, refl, refl, refl, refl, refl, refl),
          )))
]

attempt-Acts :
    (env : Env) (d : Decision) (desk : Desk) (p : Execution × Desk)
    → Attempts env d desk p
    → Acts env d automatic desk p.0 p.1
attempt-Acts env d desk p (inl keeps) = inl keeps
attempt-Acts env d desk p (inr adds) = inr (inl (refl, adds))

branch-Attempts :
    (env : Env) (d : Decision) (desk : Desk) (b : Bool) (p q : Execution × Desk)
    → (b ≡ true → Attempts env d desk p)
    → (b ≡ false → Attempts env d desk q)
    → Attempts env d desk (if b then p else q)
branch-Attempts env d desk true p q buys sells = buys refl
branch-Attempts env d desk false p q buys sells = sells refl

pub act-Acts :
    (env : Env) (user : ℕ) (x : Execution) (d : Decision) (correlation : String) (now : ℕ)
    (desk : Desk) (m : Mode)
    → OnReturn
        (Acts env d m desk)
        (act env user x d (plan_of env desk.book.db d) correlation now desk m)
unfolding act
act-Acts env user x d correlation now desk manual_approval = awaiting-Acts env user x d desk
act-Acts env user x d correlation now desk disabled = inl (refl, refl)
act-Acts env user x d correlation now desk automatic =
    attempt-Acts env d desk
      (if is_purchase d.action
        then create_buy_order env user x d correlation now desk
        else create_sell_order env user x d (plan_of env desk.book.db d) correlation now desk)
      (branch-Attempts env d desk (is_purchase d.action)
        (create_buy_order env user x d correlation now desk)
        (create_sell_order env user x d (plan_of env desk.book.db d) correlation now desk)
        (create_buy_order-Attempts env user x d correlation now desk)
        (create_sell_order-Attempts env user x d correlation now desk))
