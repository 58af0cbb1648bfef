-- ===== src/Desk/Routing/Orders.antt =====
-- What the routing of a decision adds to the tables (backend/app/decision_execution.py).
use cresta.Base.{
  ℕ, ◌≡◌, ◌≢◌, ◌⊎◌, inl, inr, refl, sym, ap, ◌∙◌, subst, Bool, true, false, ◌||◌, ◌&&◌, none, some,
  List, [], ◌∷◌, String, Result, returns, raises, arith, Option-cases, Bool-cases, if◌then◌else◌,
  str_eq, str_eq_iff,
}
use cresta.Guard.Rules.{
  Action, buy_action, partial_sell, full_sell, fixed_stop, no_action, other_action, Decision, Code,
  blocked,
}
use cresta.Orders.{by_text}
use cresta.Desk.{
  Mode, automatic, manual_approval, disabled, Execution, mode_disabled, took_no_action, Desk, Env,
}
use cresta.Desk.Reads.{is_purchase, is_sale, position_version_of}
use cresta.Desk.Approvals.{ApprovalError}
use cresta.Desk.Routing.Route.{
  enables_orders, record_shadow, Routed, act, act_on, guarded, decide, add_execution, record_route,
  answer_route, route_new, route_trading_decision,
}
use cresta.Desk.Routing.{
  plan_of, routing_rules, mode_for, ended, find_by_key, execution_key_of, persist_rules,
  new_execution,
}
use cresta.Desk.Routing.Attempts.{KeepsAll, AddsOrder, AddsApproval, OnReturn, Acts, act-Acts}

-- What the routing of a decision may add: an order or an approval, each only if no rule blocks,
-- the stage enables orders and the mode is the one for it.
abbrev pub Routes : Env → ℕ → Decision → ℕ → Desk → Execution → Desk → Type 0
Routes env user d now before y after =
    KeepsAll before after
    ⊎ ((blocked (routing_rules env before.book.db user d now) ≡ [])
        × (enables_orders env.stage ≡ true)
        × ((is_purchase d.action || is_sale d.action) ≡ true)
        × (((mode_for d.action env.modes ≡ automatic) × AddsOrder env d before y after)
            ⊎ ((mode_for d.action env.modes ≡ manual_approval) × AddsApproval d before y after)))

pub branch-OnReturn :
    (P : Execution → Desk → Type 0) (b : Bool) (p q : Result ApprovalError (Execution × Desk))
    → (b ≡ true → OnReturn P p)
    → OnReturn P q
    → OnReturn P (if b then p else q)
branch-OnReturn P true p q first second = first refl
branch-OnReturn P false p q first second = second

Acts-Routes :
    (env : Env) (user : ℕ) (d : Decision) (now : ℕ) (desk : Desk) (m : Mode)
    (answer : Result ApprovalError (Execution × Desk))
    → blocked (routing_rules env desk.book.db user d now) ≡ []
    → enables_orders env.stage ≡ true
    → (is_purchase d.action || is_sale d.action) ≡ true
    → m ≡ mode_for d.action env.modes
    → OnReturn (Acts env d m desk) answer
    → OnReturn (Routes env user d now desk) answer
Acts-Routes env user d now desk m (raises e) clear stage supported moded h = tt
Acts-Routes env user d now desk m (returns (y, next)) clear stage supported moded (inl keeps) =
    inl keeps
Acts-Routes env user d now desk m (returns (y, next)) clear stage supported moded
      (inr (inl (is_m, adds))) =
    inr (clear, stage, supported, inl (sym moded ∙ is_m, adds))
Acts-Routes env user d now desk m (returns (y, next)) clear stage supported moded
      (inr (inr (is_m, adds))) =
    inr (clear, stage, supported, inr (sym moded ∙ is_m, adds))

act_on-Routes :
    (env : Env) (user : ℕ) (x : Execution) (d : Decision) (correlation : String) (now : ℕ)
    (desk : Desk) (codes : List Code)
    → codes ≡ blocked (routing_rules env desk.book.db user d now)
    → x.mode ≡ mode_for d.action env.modes
    → OnReturn
        (Routes env user d now desk)
        (act_on env user x d (plan_of env desk.book.db d) correlation now desk codes)
unfolding act_on
act_on-Routes env user x d correlation now desk (code ∷ rest) evaluated moded = inl (refl, refl)
act_on-Routes env user x d correlation now desk [] evaluated moded =
    branch-OnReturn (Routes env user d now desk)
      ((is_purchase d.action || is_sale d.action) && enables_orders env.stage)
      (act env user x d (plan_of env desk.book.db d) correlation now desk x.mode)
      (record_shadow x desk)
      (λ enabled.
        Acts-Routes env user d now desk x.mode
          (act env user x d (plan_of env desk.book.db d) correlation now desk x.mode)
          (sym evaluated) (ground arith) (ground arith) moded
          (act-Acts env user x d correlation now desk x.mode))
      (inl (refl, refl))

guarded-Routes :
    (env : Env) (user : ℕ) (x : Execution) (d : Decision) (correlation : String) (now : ℕ)
    (desk : Desk)
    → x.mode ≡ mode_for d.action env.modes
    → OnReturn (Routes env user d now desk) (guarded env user x d correlation now desk)
unfolding guarded persist_rules routing_rules
guarded-Routes env user x d correlation now desk moded =
    act_on-Routes env user (record x { guard_evaluation_id = some desk.book.db.next_id }) d
      correlation now
      (persist_rules x d
        (if is_sale d.action
          then position_version_of (plan_of env desk.book.db d).position
          else none)
        (blocked (routing_rules env desk.book.db user d now)) desk).1
      (blocked (routing_rules env desk.book.db user d now)) refl moded

enabled-Routes :
    (env : Env) (user : ℕ) (x : Execution) (d : Decision) (correlation : String) (now : ℕ)
    (desk : Desk) (m : Mode)
    → x.mode ≡ mode_for d.action env.modes
    → OnReturn (Routes env user d now desk) (elim m [
      | disabled ↦ returns (ended mode_disabled (by_text "ACTION_DISABLED") x, desk)
      | _ ↦ guarded env user x d correlation now desk
    ])
enabled-Routes env user x d correlation now desk disabled moded = inl (refl, refl)
enabled-Routes env user x d correlation now desk automatic moded =
    guarded-Routes env user x d correlation now desk moded
enabled-Routes env user x d correlation now desk manual_approval moded =
    guarded-Routes env user x d correlation now desk moded

pub pick_action-OnReturn :
    (P : Execution → Desk → Type 0) (a : Action)
    (done : String → Result ApprovalError (Execution × Desk))
    (rest : Result ApprovalError (Execution × Desk))
    → ((s : String) → OnReturn P (done s))
    → OnReturn P rest
    → OnReturn P (elim a [ no_action s ↦ done s | _ ↦ rest ])
pick_action-OnReturn P (no_action s) done rest h k = h s
pick_action-OnReturn P (other_action s) done rest h k = k
pick_action-OnReturn P buy_action done rest h k = k
pick_action-OnReturn P partial_sell done rest h k = k
pick_action-OnReturn P full_sell done rest h k = k
pick_action-OnReturn P fixed_stop done rest h k = k

decide-Routes :
    (env : Env) (user : ℕ) (x : Execution) (d : Decision) (correlation : String) (now : ℕ)
    (desk : Desk)
    → x.mode ≡ mode_for d.action env.modes
    → OnReturn (Routes env user d now desk) (decide env user x d correlation now desk)
unfolding decide
decide-Routes env user x d correlation now desk moded =
    pick_action-OnReturn (Routes env user d now desk) d.action
      (λ s. returns (ended took_no_action (by_text s) x, desk))
      (elim x.mode [
        | disabled ↦ returns (ended mode_disabled (by_text "ACTION_DISABLED") x, desk)
        | _ ↦ guarded env user x d correlation now desk
      ])
      (λ s. inl (refl, refl)) (enabled-Routes env user x d correlation now desk x.mode moded)

-- If a call returns, what was said of it holds.
pub answer_route-OnReturn :
    (P : Execution → Desk → Type 0) (user : ℕ) (before after : Desk) (y : Execution)
    (answer : Result ApprovalError (Execution × Desk))
    → OnReturn P answer
    → answer_route user before answer ≡ (returns (some y), after)
    → (next : Desk) × P y next × (after ≡ record_route user y next)
unfolding answer_route
answer_route-OnReturn P user before after y (raises e) h is = cc
answer_route-OnReturn P user before after y (returns (z, next)) h is =
    let same : z ≡ y = cc in
    let stored : record_route user z next ≡ after = ap (λ (x : Routed). x.1) is in
    (next, subst (λ w. P w next) same h, sym stored ∙ ap (λ w. record_route user w next) same)

-- the tables before and after the row of the new execution are of the same orders
pub route_new-Routes :
    (env : Env) (user : ℕ) (d : Decision) (correlation : String) (now : ℕ) (desk after : Desk)
    (y : Execution)
    → route_new env user d correlation now desk ≡ (returns (some y), after)
    → Routes env user d now desk y after
unfolding route_new record_route add_execution routing_rules new_execution
route_new-Routes env user d correlation now desk after y is =
    let x = new_execution env user d correlation desk.book.db.next_id in
    let (next, routes, stored) =
      answer_route-OnReturn (Routes env user d now desk) user desk after y
        (decide env user x d correlation now (add_execution x desk))
        (decide-Routes env user x d correlation now (add_execution x desk) refl) is in
    subst (λ z. Routes env user d now desk y z) (sym stored) routes

-- What the routing did: the decision is not for trading, its key has an execution already, or a
-- new one is routed.
pub route_trading_decision-cases :
    (env : Env) (user : ℕ) (d : Decision) (correlation : String) (now : ℕ) (desk : Desk)
    → ((d.purpose ≢ "TRADING")
        × (route_trading_decision env user d correlation now desk ≡ (returns none, desk)))
      ⊎ (((x : Execution) × (d.purpose ≡ "TRADING")
            × (find_by_key (execution_key_of env d) desk.executions ≡ some x)
            × (route_trading_decision env user d correlation now desk ≡ (returns (some x), desk)))
          ⊎ ((d.purpose ≡ "TRADING")
              × (find_by_key (execution_key_of env d) desk.executions ≡ none)
              × (route_trading_decision env user d correlation now desk
                  ≡ route_new env user d correlation now desk)))
unfolding route_trading_decision
route_trading_decision-cases env user d correlation now desk =
    elim (Bool-cases (str_eq d.purpose "TRADING")) [
      | inr other ↦
          inl
            ((λ same. let is_trading = (str_eq_iff d.purpose "TRADING").1 same in cc), ground arith)
      | inl trading ↦ elim (Option-cases (find_by_key (execution_key_of env d) desk.executions)) [
        | inl new ↦ inr (inr ((str_eq_iff d.purpose "TRADING").0 trading, new, ground arith))
        | inr (x, old) ↦
            inr (inl (x, (str_eq_iff d.purpose "TRADING").0 trading, old, ground arith))
      ]
    ]

-- Routing a decision adds no order and no approval unless it is a purchase or a sale that no rule
-- blocks, in a stage that enables orders. Then it may add one: in the mode AUTOMATIC an order of
-- the decision's symbol and side, created and not sent, of the quantity for the configured amount
-- or of the planned sale, and the execution ends in ORDER_CREATED; in the mode MANUAL_APPROVAL a
-- pending approval that expires with the decision, and the execution ends in APPROVAL_PENDING.
pub route_trading_decision-Routes :
    (env : Env) (user : ℕ) (d : Decision) (correlation : String) (now : ℕ) (desk after : Desk)
    (y : Execution)
    → route_trading_decision env user d correlation now desk ≡ (returns (some y), after)
    → Routes env user d now desk y after
route_trading_decision-Routes env user d correlation now desk after y is =
    elim (route_trading_decision-cases env user d correlation now desk) [
      | inl (_, other) ↦ inl (cc, cc)
      | inr (inl (x, trading, old, routed)) ↦
          let same : after ≡ desk = ap (λ (z : Routed). z.1) (sym is ∙ routed) in
          inl (ap (λ (z : Desk). z.book.db.orders) same, ap (λ (z : Desk). z.approvals) same)
      | inr (inr (trading, new, routed)) ↦
          route_new-Routes env user d correlation now desk after y (sym routed ∙ is)
    ]
