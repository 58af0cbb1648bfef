-- ===== src/Desk/Approvals/Granted.antt =====
-- What an approval that is granted is known of (backend/app/approvals.py).
use cresta.Base.{
  ℕ, ◌≡◌, ◌<◌, ◌⊎◌, inl, inr, refl, sym, ap, ◌∙◌, subst, Bool, true, false, some, List, [], ◌∷◌,
  ◌++◌, String, Result, returns, raises, arith, ltb→lt,
}
use cresta.Paper.Rows.{Db, TradingOrder}
use cresta.Paper.Store.{find_key}
use cresta.Venue.Dates.{ordinal, seoul_date}
use cresta.Guard.Rules.{Decision, Code, Rule, blocked, price_deviation_exceeded}
use cresta.Orders.{Book, OrderError, CreationRequest, create_order}
use cresta.Orders.Creation.{created_found, create_order-orders}
use cresta.Desk.{Execution, Approval, pending, approved, Scope, Desk, Env}
use cresta.Desk.Reads.{find_approval, find_execution, find_decision}
use cresta.Desk.Approvals.{ApprovalError, Answer}
use cresta.Desk.Approvals.Reviewing.{
  latest_snapshot, price_deviation_ok, review_action, unless, evaluate_approval, persist_review,
}
use cresta.Desk.Approvals.Granting.{
  invalidate, approval_request, fail_approval, grant, answer_order, answer_review, review_timely,
  approve,
}
use cresta.Desk.Approvals.Settled.{approve_pending-cases, approve-is}

blocked-append :
    (rs ss : List Rule) → blocked (rs ++ ss) ≡ [] → (blocked rs ≡ []) × (blocked ss ≡ [])
unfolding blocked
blocked-append [] ss h = (refl, h)
blocked-append (r ∷ rs) ss h = ground (arith, blocked-append rs ss)

unless_lem : (b : Bool) (c : Code) → blocked (unless b c) ≡ [] → b ≡ true
unfolding blocked
unless_lem true c h = refl
unless_lem false c h = cc

-- a review that blocks nothing
evaluate_approval_lem :
    (env : Env) (db : Db) (user : ℕ) (s : Scope) (d : Decision) (now : ℕ)
    → let review = review_action env db user s d (latest_snapshot env d) now in
      blocked (evaluate_approval env db user s d (latest_snapshot env d) now).rules ≡ []
      → (blocked review.rules ≡ [])
        × (price_deviation_ok s.reference_price review.current_price
              env.policy.max_price_deviation_pct
            ≡ true)
        × (0 < s.quantity)
unfolding evaluate_approval
evaluate_approval_lem env db user s d now h =
    let review = review_action env db user s d (latest_snapshot env d) now in
    let near =
      unless
        (price_deviation_ok s.reference_price review.current_price
          env.policy.max_price_deviation_pct)
        price_deviation_exceeded in
    let (both, sized) = blocked-append (review.rules ++ near) _ h in
    let (clear, is_near) = blocked-append review.rules near both in
    (clear, unless_lem _ _ is_near, ltb→lt _ _ (unless_lem _ _ sized))

-- the order of a granted approval
abbrev pub IsPlaced :
    CreationRequest → List TradingOrder → List TradingOrder → TradingOrder → Type 0
IsPlaced r before after o =
    (find_key r.idempotency_key after ≡ some o)
    × (o.request_hash ≡ r.fingerprint)
    × ((after ≡ before)
        ⊎ ((after ≡ before ++ o ∷ [])
            × (o.requested_quantity ≡ r.quantity)
            × (o.limit_price ≡ r.limit_price)))

answer_order-granted :
    (user : ℕ) (a : Approval) (x : Execution) (guard : ℕ) (desk after : Desk) (done : Approval)
    (answer : Result OrderError (TradingOrder × Book))
    → answer_order user a x guard desk answer ≡ (returns done, after)
    → (o : TradingOrder) × (book : Book) × (answer ≡ returns (o, book))
      × (after.book.db.orders ≡ book.db.orders)
      × (done.order_id ≡ some o.id)
      × (done.state ≡ approved)
unfolding answer_order grant fail_approval
answer_order-granted user a x guard desk after done (raises e) is = cc
answer_order-granted user a x guard desk after done (returns (o, book)) is =
    (o, book, refl, cc, cc, cc)

answer_order-IsPlaced :
    (user : ℕ) (a : Approval) (x : Execution) (guard : ℕ) (r : CreationRequest) (now : ℕ)
    (desk after : Desk) (done : Approval)
    → answer_order user a x guard desk (
        create_order user r "APPROVAL_ORDER_CREATED"
          (ordinal (seoul_date now))
          desk.book.db.orders
          desk.book)
      ≡ (returns done, after)
    → (o : TradingOrder) × IsPlaced r desk.book.db.orders after.book.db.orders o
      × (done.order_id ≡ some o.id)
      × (done.state ≡ approved)
answer_order-IsPlaced user a x guard r now desk after done is =
    let today = ordinal (seoul_date now) in
    let (o, book, made, kept, is_order, is_approved) =
      answer_order-granted user a x guard desk after done _ is in
    let (found, hash) = created_found user r "APPROVAL_ORDER_CREATED" today desk.book book o made in
    let placed : IsPlaced r desk.book.db.orders book.db.orders o = (
      found,
      hash,
      elim (create_order-orders user r "APPROVAL_ORDER_CREATED" today desk.book book o made) [
        | inl same ↦ inl same
        | inr (is_new, added) ↦ inr (
          added,
          ap (λ (x : TradingOrder). x.requested_quantity) is_new,
          ap (λ (x : TradingOrder). x.limit_price) is_new,
        )
      ],
    ) in
    (
      o,
      subst (λ rows. IsPlaced r desk.book.db.orders rows o) (sym kept) placed,
      is_order,
      is_approved,
    )

answer_review-clear :
    (user : ℕ) (a : Approval) (x : Execution) (guard : ℕ) (r : CreationRequest) (now : ℕ)
    (desk after : Desk) (done : Approval) (codes : List Code)
    → answer_review user a x guard r now desk codes ≡ (returns done, after)
    → (codes ≡ [])
      × (answer_order user a x guard desk (
            create_order user r "APPROVAL_ORDER_CREATED"
              (ordinal (seoul_date now))
              desk.book.db.orders
              desk.book)
          ≡ (returns done, after))
unfolding answer_review invalidate
answer_review-clear user a x guard r now desk after done [] is = (refl, is)
answer_review-clear user a x guard r now desk after done (code ∷ rest) is = cc

raised :
    {e : ApprovalError} {before after : Desk} {done : Approval} (x : Answer)
    → x ≡ (raises e, before)
    → ¬ (x ≡ (returns done, after))
raised x failed is = cc

-- what a granted approval is known of
abbrev pub IsGranted :
    Env → ℕ → Approval → Decision → String → String → ℕ → Desk → Desk → Approval → Type 0
IsGranted env user a d correlation key now before after done =
    let snapshot = latest_snapshot env d in
    let review = review_action env before.book.db user a.scope d snapshot now in
    (blocked review.rules ≡ [])
    × (price_deviation_ok a.scope.reference_price review.current_price
          env.policy.max_price_deviation_pct
        ≡ true)
    × (0 < a.scope.quantity)
    × (done.state ≡ approved)
    × (o : TradingOrder) × (done.order_id ≡ some o.id)
    × IsPlaced (approval_request env a d snapshot review.current_price correlation key)
        before.book.db.orders after.book.db.orders o

review_timely-IsGranted :
    (env : Env) (user : ℕ) (a : Approval) (d : Decision) (x : Execution) (correlation key : String)
    (now : ℕ) (desk after : Desk) (done : Approval)
    → review_timely env user a d x correlation key now desk ≡ (returns done, after)
    → IsGranted env user a d correlation key now desk after done
unfolding review_timely persist_review evaluate_approval
review_timely-IsGranted env user a d x correlation key now desk after done is =
    let snapshot = latest_snapshot env d in
    let review = evaluate_approval env desk.book.db user a.scope d snapshot now in
    let codes = blocked review.rules in
    let (guard, next) = persist_review x a d snapshot codes desk in
    let r = approval_request env a d snapshot review.current_price correlation key in
    let (clear, ordered) = answer_review-clear user a x guard r now next after done codes is in
    let (passed, near, sized) = evaluate_approval_lem env desk.book.db user a.scope d now clear in
    let (o, placed, is_order, is_approved) =
      answer_order-IsPlaced user a x guard r now next after done ordered in
    (passed, near, sized, is_approved, o, is_order, placed)

-- If a pending approval is granted, it had not expired, its decision and its execution are there,
-- no rule of the purchase or sale blocks at the time, by the newest quote and for the quantity and
-- the position that the approval captured, the price is within the allowed deviation from the one
-- captured, and the order that the approval names is in the table under the given key, either from
-- an earlier call with the same hash, or as the one row added, of the captured quantity and the
-- present price.
pub approve-IsGranted :
    (env : Env) (user id : ℕ) (correlation key : String) (now : ℕ) (desk after : Desk)
    (a done : Approval)
    → find_approval id desk.approvals ≡ some a
    → a.state ≡ pending
    → approve env user id correlation key now desk ≡ (returns done, after)
    → (now < a.expires_at)
      × (d : Decision) × (x : Execution) × (find_decision a.decision_id desk.decisions ≡ some d)
      × (find_execution a.execution_id desk.executions ≡ some x)
      × IsGranted env user a d correlation key now desk after done
approve-IsGranted env user id correlation key now desk after a done found waits is =
    let pend = sym (approve-is env user id correlation key now desk a found waits) ∙ is in
    elim (approve_pending-cases env user a correlation key now desk) [
      | inl late ↦ absurd (raised _ late pend)
      | inr (inl (e, failed)) ↦ absurd (raised _ failed pend)
      | inr (inr (d, x, timely, decided, routed, settled)) ↦ (
        timely,
        d,
        x,
        decided,
        routed,
        review_timely-IsGranted env user a d x correlation key now desk after done
            (sym settled ∙ pend),
      )
    ]
