-- ===== src/Venue/Select/Tradable.antt =====
-- When `select_venue` selects a venue, and which.
use mathlib.Core.Option.{map as map_option}
use cresta.Base.{
  ℕ, suc, [], ◌∷◌, ◌≡◌, ◌≢◌, ◌⊎◌, inl, inr, refl, sym, ap, ◌∙◌, Bool, true, false, ◌&&◌, ◌||◌,
  Option, some, arith, if◌then◌else◌,
}
use cresta.Base.Int.{ℤ, pos}
use cresta.Venue.Calendar.{DayStatus, TradingDay, day_open, day_closed, day_unknown}
use cresta.Venue.Session.{
  Session, closed, nxt_pre, krx_opening_auction, krx_only, dual_continuous, krx_closing_auction,
  nxt_after_auction, nxt_after, classify_session, unopened_session,
}
use cresta.Venue.Quote.{
  TradeSide, buying, selling, VenueQuote, quote_valid, quote_valid-IsExecutable, price, quantity,
}
use cresta.Venue.Select.{
  Request, Venue, krx, nxt, sor, wait_venue, SelectionState, selected, wait, choose_dual, choose_by,
  choose_quotes, select_one, choose_nxt, choose_continuous, choose, choose_on, Choice, select_venue,
  krx_valid, nxt_valid, VenueSelectionResult, Reason, broker_sor_available, krx_only_session,
  no_fresh_executable_krx_quote, waiting, result_of, real, is_real, Urgency,
}

-- The requests that a session can serve, by the venues that trade in it.
abbrev pub is_served : Session → Bool → Bool → Bool
is_served krx_only k n = k
is_served nxt_pre k n = n
is_served nxt_after k n = n
is_served dual_continuous k n = k || n
is_served _ k n = false

-- What holds of a request that is sent to a venue in a session.
abbrev pub Serves : Venue → Session → Request → Type 0
Serves krx s r = (krx_valid r ≡ true) × ((s ≡ krx_only) ⊎ (s ≡ dual_continuous))
Serves nxt s r = (nxt_valid r ≡ true) × ((s ≡ nxt_pre) ⊎ ((s ≡ nxt_after) ⊎ (s ≡ dual_continuous)))
Serves sor s r =
    (krx_valid r ≡ true)
    × (nxt_valid r ≡ true)
    × (s ≡ dual_continuous)
    × (r.sor_supported ≡ true)
    × (r.environment ≡ real)
Serves wait_venue s r = ⊥

abbrev pub is_open_day : DayStatus → Bool
is_open_day day_open = true
is_open_day _ = false

abbrev pub state_if : Bool → SelectionState
state_if served = if served then selected else wait

-- a choice that selects exactly when a venue serves the request, and then such a venue
abbrev IsRight : Request → Session → Choice → Type 0
IsRight r s (venue, state, reasons) =
    (state ≡ state_if (is_served s (krx_valid r) (nxt_valid r)))
    × (state ≡ selected → Serves venue s r)

choose_by-venue :
    (side : TradeSide) (urgency : Urgency) (kp np kq nq : ℤ)
    → (venue : Venue) × (reason : Reason) × (choose_by side urgency kp np kq nq ≡ (venue, reason))
      × ((venue ≡ krx) ⊎ (venue ≡ nxt))
unfolding choose_by
choose_by-venue buying urgency kp np kq nq = (_, _, refl, ground arith)
choose_by-venue selling urgency kp np kq nq = (_, _, refl, ground arith)

compared :
    (k n : Option VenueQuote) (side : TradeSide) (urgency : Urgency) (kq nq : VenueQuote)
    (kp np ko no_offer : ℤ)
    → k ≡ some kq
    → n ≡ some nq
    → price kq side ≡ some kp
    → price nq side ≡ some np
    → quantity kq side ≡ some ko
    → quantity nq side ≡ some no_offer
    → choose_quotes side urgency k n ≡ select_one (some (choose_by side urgency kp np ko no_offer))
unfolding choose_dual
compared k n side urgency kq nq kp np ko no_offer a b c d e f = rw (a, b, c, d, e, f)

-- two executable quotes are compared without a failing assertion
choose_quotes_total :
    (k n : Option VenueQuote) (side : TradeSide) (urgency : Urgency) (now : ℕ) (age : ℕ)
    → quote_valid k side now age ≡ true
    → quote_valid n side now age ≡ true
    → (venue : Venue) × (reason : Reason) × (choose_quotes side urgency k n
        ≡ some (venue, selected, reason ∷ []))
      × ((venue ≡ krx) ⊎ (venue ≡ nxt))
unfolding choose_dual
choose_quotes_total k n side urgency now age kv nv =
    let (kq, k_is, k_runs) = quote_valid-IsExecutable k side now age kv in
    let (nq, n_is, n_runs) = quote_valid-IsExecutable n side now age nv in
    let (kp, k_paid) = k_runs.paid in
    let (np, n_paid) = n_runs.paid in
    let (ko, k_offered) = k_runs.offered in
    let (nt, n_offered) = n_runs.offered in
    let (venue, reason, chosen, which) =
      choose_by-venue side urgency (pos (suc kp)) (pos (suc np)) (pos (suc ko)) (pos (suc nt)) in
    let comparison =
      compared k n side urgency kq nq _ _ _ _ k_is n_is k_paid n_paid k_offered n_offered in
    (venue, reason, comparison ∙ ap (λ x. select_one (some x)) chosen, which)

verified_quote_valid :
    (r : Request)
    → nxt_valid r ≡ true
    → quote_valid r.nxt_quote r.side r.now r.max_age_seconds ≡ true
verified_quote_valid r nv = ground arith

served_nxt :
    (r : Request) (s : Session)
    → ((s ≡ nxt_pre) ⊎ ((s ≡ nxt_after) ⊎ (s ≡ dual_continuous)))
    → is_served s (krx_valid r) (nxt_valid r) ≡ nxt_valid r
    → IsRight r s (choose_nxt r.environment r.nxt_eligibility_status (nxt_valid r))
unfolding choose_nxt
served_nxt r s session served = ground arith

which-Serves :
    (r : Request) (venue : Venue)
    → krx_valid r ≡ true
    → nxt_valid r ≡ true
    → (venue ≡ krx) ⊎ (venue ≡ nxt)
    → Serves venue dual_continuous r
which-Serves r krx kv nv which = (kv, inr refl)
which-Serves r nxt kv nv which = (nv, inr (inr refl))
which-Serves r sor kv nv which = ground arith
which-Serves r wait_venue kv nv which = ground arith

both-IsRight :
    (r : Request) (routed : Bool)
    → (r.sor_supported && is_real r.environment) ≡ routed
    → krx_valid r ≡ true
    → nxt_valid r ≡ true
    → (c : Choice) × ((if routed
          then some (sor, selected, broker_sor_available ∷ [])
          else choose_quotes r.side r.urgency r.krx_quote r.nxt_quote)
        ≡ some c)
      × ((c.1 ≡ selected) × (c.1 ≡ selected → Serves c.0 dual_continuous r))
both-IsRight r true to_broker kv nv =
    let supported : (r.sor_supported ≡ true) × (r.environment ≡ real) = ground arith in
    (_, refl, (refl, λ _. (kv, nv, refl, supported.0, supported.1)))
both-IsRight r false to_broker kv nv =
    let (venue, reason, chosen, which) =
      choose_quotes_total r.krx_quote r.nxt_quote r.side r.urgency r.now r.max_age_seconds kv
        (verified_quote_valid r nv) in
    (_, chosen, (refl, λ _. which-Serves r venue kv nv which))

continuous-IsRight :
    (r : Request) (k n : Bool)
    → krx_valid r ≡ k
    → nxt_valid r ≡ n
    → (c : Choice) × (choose_continuous r.side r.urgency r.environment r.sor_supported r.krx_quote
          r.nxt_quote k n
        ≡ some c)
      × ((c.1 ≡ state_if (k || n)) × (c.1 ≡ selected → Serves c.0 dual_continuous r))
unfolding choose_continuous
continuous-IsRight r true true kv nv =
    both-IsRight r (r.sor_supported && is_real r.environment) refl kv nv
continuous-IsRight r true false kv nv = (_, refl, (refl, λ _. (kv, inr refl)))
continuous-IsRight r false true kv nv = (_, refl, (refl, λ _. (nv, inr (inr refl))))
continuous-IsRight r false false kv nv = (_, refl, (refl, λ e. cc))

krx_only-IsRight :
    (r : Request) (k : Bool)
    → krx_valid r ≡ k
    → (c : Choice) × ((if k
          then some (krx, selected, krx_only_session ∷ [])
          else some (waiting no_fresh_executable_krx_quote))
        ≡ some c)
      × ((c.1 ≡ state_if k) × (c.1 ≡ selected → Serves c.0 krx_only r))
krx_only-IsRight r true kv = (_, refl, (refl, λ _. (kv, inl refl)))
krx_only-IsRight r false kv = (_, refl, (refl, λ e. cc))

choose-IsRight : (r : Request) (s : Session) → (c : Choice) × (choose r s ≡ some c) × IsRight r s c
unfolding choose
choose-IsRight r closed = (_, refl, ground arith)
choose-IsRight r krx_opening_auction = (_, refl, ground arith)
choose-IsRight r krx_closing_auction = (_, refl, ground arith)
choose-IsRight r nxt_after_auction = (_, refl, ground arith)
choose-IsRight r nxt_pre = (_, refl, served_nxt r nxt_pre (inl refl) refl)
choose-IsRight r nxt_after = (_, refl, served_nxt r nxt_after (inr (inl refl)) refl)
choose-IsRight r krx_only = krx_only-IsRight r (krx_valid r) refl
choose-IsRight r dual_continuous = continuous-IsRight r (krx_valid r) (nxt_valid r) refl refl

and_true : (b : Bool) → b ≡ (b && true)
and_true b = ground arith

and_false : (b : Bool) → (b && false) ≡ false
and_false b = ground arith

choose_on-right :
    (status : DayStatus) (r : Request) (s : Session)
    → (status ≢ day_open → s ≡ closed)
    → (c : Choice) × (choose_on status r s ≡ some c)
      × ((c.1 ≡ state_if (is_served s (krx_valid r) (nxt_valid r) && is_open_day status))
          × (c.1 ≡ selected → Serves c.0 s r))
unfolding choose_on choose
choose_on-right day_open r s h =
    let (c, chosen, (state, serves)) = choose-IsRight r s in
    (c, chosen, (state ∙ ap state_if (and_true _), serves))
choose_on-right day_closed r s h =
    (_, ap (choose r) (h (λ e. cc)), (ap state_if (sym (and_false _)), λ e. cc))
choose_on-right day_unknown r s h = (_, refl, (ap state_if (sym (and_false _)), λ e. cc))

-- a choice whose state follows the test on the venues, as two cases
state_cases :
    (served : Bool) (state : SelectionState) (Target : Type 0)
    → state ≡ state_if served
    → (state ≡ selected → Target)
    → ((served ≡ true) × (state ≡ selected) × Target) ⊎ ((served ≡ false) × (state ≡ wait))
state_cases true state Target e serves = inl (refl, e, serves e)
state_cases false state Target e serves = inr (refl, e)

-- For every request and trading day a result is returned, so that no assertion fails. On an open
-- day with a valid quote of a venue that trades in the session, a venue is selected that trades in
-- the session and has a valid quote (for NXT the symbol's eligibility is verified, too); smart
-- routing is selected only with both quotes valid, the broker's support and the environment REAL.
-- In all other cases the state is WAIT.
pub select_venue-state :
    (r : Request) (day : TradingDay)
    → (result : VenueSelectionResult) × (select_venue r day ≡ some result)
      × (result.session ≡ classify_session r.now day)
      × ((((is_served (classify_session r.now day) (krx_valid r) (nxt_valid r)
                && is_open_day day.status)
              ≡ true)
            × (result.state ≡ selected)
            × Serves result.selected_venue (classify_session r.now day) r)
          ⊎ (((is_served (classify_session r.now day) (krx_valid r) (nxt_valid r)
                  && is_open_day day.status)
                ≡ false)
              × (result.state ≡ wait)))
unfolding select_venue
select_venue-state r day =
    let s = classify_session r.now day in
    let (c, chosen, (state, serves)) =
      choose_on-right day.status r s (unopened_session r.now day) in
    (
      result_of r day s c,
      ap (map_option (result_of r day s)) chosen,
      refl,
      state_cases (is_served s (krx_valid r) (nxt_valid r) && is_open_day day.status) c.1
          (Serves c.0 s r) state serves,
    )
