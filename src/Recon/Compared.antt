-- ===== src/Recon/Compared.antt =====
-- After the projection of backend/app/account_projection.py the comparison of
-- backend/app/reconciliation.py finds the positions as they are reported.
use cresta.Recon.Matches.{reported_first, reported_later, project_reported-Shows}
use cresta.Base.{
  ℕ, zero, suc, ◌<◌, ◌≡◌, refl, ap, ◌∙◌, inl, inr, true, false, some, List, [], ◌∷◌, ◌++◌, String,
  returns, ◌>>=◌, All, str_eq, str_eq_iff, arith, Bool-cases,
}
use cresta.Paper.Rows.{Position, open_position}
use cresta.Paper.Store.{find_position}
use cresta.Guard.Sell.{account}
use cresta.Recon.{BrokerPosition}
use cresta.Recon.Positions.{
  Ledger, Projection, state_of, is_reported, is_gone, close_gone, close_positions,
  project_positions,
}
use cresta.Recon.Compare.{
  compare_found, find_held, compare_reported, compare_internal, compare_positions,
}
use cresta.Recon.Matches.{Shows, Distinct}

gone_other :
    (reported : List BrokerPosition) (symbol : String) (p : Position)
    → is_reported reported symbol ≡ true
    → is_gone reported p ≡ true
    → str_eq p.symbol symbol ≡ false
gone_other reported symbol p h gone = elim (Bool-cases (str_eq p.symbol symbol)) [
  | inr apart ↦ apart
  | inl same ↦
      let equal = ap (λ z. is_reported reported z) ((str_eq_iff p.symbol symbol).0 same) in
      ground arith
]

close_gone-reported :
    (reported : List BrokerPosition) (symbol : String) (rows : List Position)
    → is_reported reported symbol ≡ true
    → find_position account symbol (close_gone reported rows).0 ≡ find_position account symbol rows
unfolding close_gone find_position
close_gone-reported reported symbol [] h = refl
close_gone-reported reported symbol (p ∷ rows) h =
    let rest = close_gone-reported reported symbol rows h in
    elim (Bool-cases (is_gone reported p)) [
      | inl gone ↦ let apart = gone_other reported symbol p h gone in ground arith
      | inr kept ↦ ground arith
    ]

close_gone-none :
    (reported : List BrokerPosition) (rows : List Position)
    → compare_internal reported (close_gone reported rows).0 ≡ []
unfolding close_gone compare_internal
close_gone-none reported [] = refl
close_gone-none reported (p ∷ rows) =
    let rest = close_gone-none reported rows in
    elim (Bool-cases (is_gone reported p)) [ inl gone ↦ ground arith | inr kept ↦ ground arith ]

find_held_lem :
    (symbol : String) (p : Position) (rows : List Position)
    → find_position account symbol rows ≡ some p
    → p.state ≡ open_position
    → find_held symbol rows ≡ some p
unfolding find_position find_held
find_held_lem symbol p [] found is = cc
find_held_lem symbol p (x ∷ rows) found is = ground (arith, find_held_lem symbol p rows)

open_of : (n : ℕ) → 0 < n → state_of n ≡ open_position
open_of zero h = absurd (omega arith)
open_of (suc n) h = refl

compare_found_lem :
    (b : BrokerPosition) (p : Position)
    → p.quantity ≡ b.quantity
    → p.average_price ≡ b.average_price
    → compare_found b (some p) ≡ []
compare_found_lem b p quantity price = ground arith

compare_reported-none :
    (bs : List BrokerPosition) (rows : List Position)
    → All (λ (b : BrokerPosition). 0 < b.quantity) bs
    → All (Shows rows) bs
    → compare_reported bs rows ≡ []
unfolding compare_reported
compare_reported-none [] rows positive shows = refl
compare_reported-none (b ∷ bs) rows (positive, more) ((p, found, shown), shows) =
    let (of_account, of_symbol, quantity, available, price, state, managed) = shown in
    let is_open : p.state ≡ open_position = state ∙ open_of b.quantity positive in
    let held = find_held_lem b.symbol p rows found is_open in
    ap (λ o. compare_found b o ++ compare_reported bs rows) held
    ∙ ap (λ z. z ++ compare_reported bs rows) (compare_found_lem b p quantity price)
    ∙ compare_reported-none bs rows more shows

Shows-closed :
    (reported bs : List BrokerPosition) (rows : List Position)
    → All (λ (b : BrokerPosition). is_reported reported b.symbol ≡ true) bs
    → All (Shows rows) bs
    → All (Shows (close_gone reported rows).0) bs
Shows-closed reported [] rows within shows = tt
Shows-closed reported (b ∷ bs) rows (here, within) ((p, found, shown), shows) = (
  (p, close_gone-reported reported b.symbol rows here ∙ found, shown),
  Shows-closed reported bs rows within shows,
)

each_reported_from :
    (b : BrokerPosition) (reported bs : List BrokerPosition)
    → All (λ (c : BrokerPosition). is_reported reported c.symbol ≡ true) bs
    → All (λ (c : BrokerPosition). is_reported (b ∷ reported) c.symbol ≡ true) bs
each_reported_from b reported [] h = tt
each_reported_from b reported (c ∷ bs) (here, h) =
    (reported_later b c.symbol reported here, each_reported_from b reported bs h)

each_reported :
    (bs : List BrokerPosition) → All (λ (c : BrokerPosition). is_reported bs c.symbol ≡ true) bs
each_reported [] = tt
each_reported (b ∷ bs) = (reported_first b bs, each_reported_from b bs bs (each_reported bs))

-- The projection of a report that has each symbol once, with positive quantities, returns. After
-- it the table has for each reported symbol the reported quantity, sellable quantity and average
-- price, OPEN and with no more managed than there is, and the comparison of the positions finds no
-- mismatch, so that no open position is left that is not reported.
pub project_positions-matches :
    (l : Ledger) (reported : List BrokerPosition) (s : Projection)
    → Distinct reported
    → All (λ (b : BrokerPosition). 0 < b.quantity) reported
    → (t : Projection) × (project_positions l reported s ≡ returns t)
      × All (Shows t.positions) reported
      × (compare_positions reported t.positions ≡ [])
unfolding project_positions close_positions compare_positions
project_positions-matches l reported s distinct positive =
    let (u, made, shows, others) =
      project_reported-Shows l s.positions reported s distinct (λ symbol h. refl) in
    let closed = Shows-closed reported reported u.positions (each_reported reported) shows in
    (
      close_positions reported u,
      ap (λ z. z >>= λ v. returns (close_positions reported v)) made,
      closed,
      ap (λ z. z ++ compare_internal reported (close_gone reported u.positions).0)
            (compare_reported-none reported (close_gone reported u.positions).0 positive closed)
          ∙ close_gone-none reported u.positions,
    )
