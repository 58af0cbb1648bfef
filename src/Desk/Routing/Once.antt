-- ===== src/Desk/Routing/Once.antt =====
-- One execution for each key (backend/app/decision_execution.py).
use cresta.Desk.Routing.Again.{Settles, decide-Settles}
use cresta.Base.{
  ℕ, ◌≡◌, ◌≢◌, ◌⊎◌, inl, inr, sym, ap, ◌∙◌, none, some, List, [], ◌∷◌, ◌++◌, String, returns, arith,
  str_eq_iff,
}
use cresta.Base.Tables.{save_row-append}
use cresta.Guard.Rules.{Decision}
use cresta.Desk.{Execution, routing, Desk, Env}
use cresta.Desk.Reads.{find_execution, save_execution}
use cresta.Desk.Routing.{ended, find_by_key, execution_key_of, new_execution}
use cresta.Desk.Routing.Route.{
  Routed, decide, add_execution, record_route, route_new, route_trading_decision,
}
use cresta.Desk.Routing.Orders.{answer_route-OnReturn, route_trading_decision-cases}

find_by_key-append :
    (key : ℕ) (y : Execution) (xs : List Execution)
    → find_by_key key xs ≡ none
    → y.execution_key ≡ key
    → find_by_key key (xs ++ y ∷ []) ≡ some y
unfolding find_by_key
find_by_key-append key y [] free same = ground arith
find_by_key-append key y (x ∷ xs) free same = ground (arith, find_by_key-append key y xs)

-- the table after the row has been written back once more
settled_table :
    (x y : Execution) (rows after : List Execution)
    → find_execution x.id rows ≡ none
    → y.id ≡ x.id
    → ((after ≡ rows ++ x ∷ [])
        ⊎ ((z : Execution) × (z.id ≡ x.id) × (after ≡ save_execution z (rows ++ x ∷ []))))
    → save_execution y after ≡ rows ++ y ∷ []
settled_table x y rows after free same (inl kept) =
    ap (λ t. save_execution y t) kept
    ∙ save_row-append (λ (w : Execution). w.id) x y rows
        (ap (λ i. find_execution i rows) same ∙ free) (sym same)
settled_table x y rows after free same (inr (z, is_id, written)) =
    let once =
      written
      ∙ save_row-append (λ (w : Execution). w.id) x z rows
          (ap (λ i. find_execution i rows) is_id ∙ free) (sym is_id) in
    ap (λ t. save_execution y t) once
    ∙ save_row-append (λ (w : Execution). w.id) z y rows
        (ap (λ i. find_execution i rows) same ∙ free) (is_id ∙ sym same)

-- A new execution is the one row that routing adds to the executions, with the key of the decision
-- and in a state other than ROUTING, if its id is new.
pub route_new-Settles :
    (env : Env) (user : ℕ) (d : Decision) (correlation : String) (now : ℕ) (desk after : Desk)
    (y : Execution)
    → find_execution desk.book.db.next_id desk.executions ≡ none
    → route_new env user d correlation now desk ≡ (returns (some y), after)
    → (after.executions ≡ desk.executions ++ y ∷ [])
      × (y.execution_key ≡ execution_key_of env d)
      × (y.state ≢ routing)
unfolding route_new record_route add_execution new_execution
route_new-Settles env user d correlation now desk after y free is =
    let x = new_execution env user d correlation desk.book.db.next_id in
    let (next, (is_id, is_key, ended, table), stored) =
      answer_route-OnReturn (Settles x (add_execution x desk)) user desk after y
        (decide env user x d correlation now (add_execution x desk))
        (decide-Settles env user x d correlation now (add_execution x desk)) is in
    (
      ap (λ (z : Desk). z.executions) stored
          ∙ settled_table x y desk.executions next.executions free is_id table,
      is_key,
      ended,
    )

route_found :
    (env : Env) (user : ℕ) (d : Decision) (correlation : String) (now : ℕ) (desk : Desk)
    (y : Execution)
    → d.purpose ≡ "TRADING"
    → find_by_key (execution_key_of env d) desk.executions ≡ some y
    → route_trading_decision env user d correlation now desk ≡ (returns (some y), desk)
unfolding route_trading_decision
route_found env user d correlation now desk y trading found =
    let is_trading = (str_eq_iff d.purpose "TRADING").1 trading in ground arith

-- A decision that has been routed and is routed again, by any user, at any time and under policies
-- of the same versions, gets the same execution and changes nothing, if the id of its execution
-- was new.
pub route_trading_decision-again :
    (env env' : Env) (user user' : ℕ) (d : Decision) (correlation correlation' : String)
    (now now' : ℕ) (desk after : Desk) (y : Execution)
    → find_execution desk.book.db.next_id desk.executions ≡ none
    → execution_key_of env' d ≡ execution_key_of env d
    → route_trading_decision env user d correlation now desk ≡ (returns (some y), after)
    → route_trading_decision env' user' d correlation' now' after ≡ (returns (some y), after)
route_trading_decision-again env env' user user' d correlation correlation' now now' desk after y
      free same is =
    elim (route_trading_decision-cases env user d correlation now desk) [
      | inl (_, other) ↦ cc
      | inr (inl (x, trading, old, routed)) ↦
          let both = sym is ∙ routed in
          let at_after : find_by_key (execution_key_of env' d) after.executions ≡ some y =
            ap (λ k. find_by_key k after.executions) same
            ∙ ap (λ (z : Desk). find_by_key (execution_key_of env d) z.executions)
                (ap (λ (z : Routed). z.1) both)
            ∙ old
            ∙ cc in
          route_found env' user' d correlation' now' after y trading at_after
      | inr (inr (trading, new, routed)) ↦
          let (table, keyed, settled) =
            route_new-Settles env user d correlation now desk after y free (sym routed ∙ is) in
          route_found env' user' d correlation' now' after y trading (
            ap (λ k. find_by_key k after.executions) same
            ∙ ap (λ rows. find_by_key (execution_key_of env d) rows) table
            ∙ find_by_key-append (execution_key_of env d) y desk.executions new keyed)
    ]
