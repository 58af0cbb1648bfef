-- ===== src/Recon/Matches.antt =====
-- The rows that the projection of the reported positions writes
-- (backend/app/account_projection.py).
use cresta.Base.{
  ℕ, ◌≤◌, ◌≡◌, refl, sym, ap, ◌∙◌, inl, inr, Bool, true, false, ◌&&◌, none, some, List, [], ◌∷◌,
  String, returns, ◌>>=◌, All, str_eq, str_eq_refl, str_eq_iff, if◌then◌else◌, arith, Option-cases,
  Bool-cases,
}
use cresta.Paper.Rows.{Position}
use cresta.Paper.Store.{find_position, save_position}
use cresta.Paper.Store.Totals.{find_position-holds, find-save_position, find_position-append}
use cresta.Guard.Sell.{account}
use cresta.Recon.{BrokerPosition, managed_projection-le}
use cresta.Recon.Positions.{
  Ledger, Projection, state_of, projected, is_unchanged, reported_position, holding_of,
  import_position, versioned, updated_position, update_position, project_found, project_reported,
  is_reported,
}

-- a row with what the broker reports, of which Cresta manages no more than there is
abbrev pub IsAsReported : BrokerPosition → Position → Type 0
IsAsReported b p =
    (p.account_alias ≡ account)
    × (p.symbol ≡ b.symbol)
    × (p.quantity ≡ b.quantity)
    × (p.available_quantity ≡ b.available_quantity)
    × (p.average_price ≡ b.average_price)
    × (p.state ≡ state_of b.quantity)
    × (p.managed_quantity ≤ p.quantity)

abbrev pub Shows : List Position → BrokerPosition → Type 0
Shows rows b = (p : Position) × (find_position account b.symbol rows ≡ some p) × IsAsReported b p

reported_position-IsAsReported :
    (l : Ledger) (b : BrokerPosition) (id : ℕ)
    → IsAsReported b (reported_position l b (holding_of l b none) id)
unfolding holding_of
reported_position-IsAsReported l b id =
    (refl, refl, refl, refl, refl, refl, managed_projection-le none b.quantity _)

versioned-IsAsReported :
    (b : BrokerPosition) (same : Bool) (q : Position)
    → IsAsReported b q
    → IsAsReported b (versioned same q)
versioned-IsAsReported b true q h = h
versioned-IsAsReported b false q h = h

updated_position-IsAsReported :
    (l : Ledger) (b : BrokerPosition) (p : Position)
    → p.account_alias ≡ account
    → p.symbol ≡ b.symbol
    → IsAsReported b (updated_position l b p)
unfolding updated_position projected holding_of
updated_position-IsAsReported l b p of_account of_symbol =
    let h = holding_of l b (some p) in
    versioned-IsAsReported b (is_unchanged b h p) (projected l b h p)
      (of_account, of_symbol, refl, refl, refl, refl, managed_projection-le (some p) b.quantity _)

-- What the projection of one position does to the lookups.
abbrev Projects : BrokerPosition → List Position → List Position → Type 0
Projects b before after =
    (q : Position) × IsAsReported b q
    × ((symbol : String)
        → find_position account symbol after
          ≡ (if str_eq b.symbol symbol then some q else find_position account symbol before))

import_position-Projects :
    (l : Ledger) (b : BrokerPosition) (s : Projection)
    → find_position account b.symbol s.positions ≡ none
    → Projects b s.positions (import_position l b s).positions
unfolding import_position
import_position-Projects l b s free = (
  reported_position l b (holding_of l b none) s.next_id,
  reported_position-IsAsReported l b s.next_id,
  λ symbol.
      let added =
        find_position-append account symbol (reported_position l b (holding_of l b none) s.next_id)
          s.positions in
      let alias = str_eq_refl account in
      elim (Bool-cases (str_eq b.symbol symbol)) [
        | inl same ↦
            let missing =
              ap (λ z. find_position account z s.positions)
                (sym ((str_eq_iff b.symbol symbol).0 same))
              ∙ free in
            ground arith
        | inr other ↦ ground arith
      ],
)

update_position-rows :
    (l : Ledger) (b : BrokerPosition) (p : Position) (s : Projection)
    → (update_position l b p s).positions ≡ save_position (updated_position l b p) s.positions
unfolding update_position
update_position-rows l b p s = elim (Bool-cases (is_unchanged b (holding_of l b (some p)) p)) [
  | inl same ↦ rw same refl
  | inr other ↦ rw other refl
]

update_position-Projects :
    (l : Ledger) (b : BrokerPosition) (p : Position) (s : Projection)
    → find_position account b.symbol s.positions ≡ some p
    → Projects b s.positions (update_position l b p s).positions
update_position-Projects l b p s found =
    let q = updated_position l b p in
    let held = find_position-holds account b.symbol p s.positions found in
    let of_account = (str_eq_iff p.account_alias account).0 (ground arith) in
    let of_symbol = (str_eq_iff p.symbol b.symbol).0 (ground arith) in
    let shown = updated_position-IsAsReported l b p of_account of_symbol in
    let own : find_position q.account_alias q.symbol s.positions ≡ some p =
      ap (λ z. find_position z q.symbol s.positions) shown.0
      ∙ ap (λ z. find_position account z s.positions) shown.1
      ∙ found in
    (
      q,
      shown,
      λ symbol.
          ap (λ rows. find_position account symbol rows) (update_position-rows l b p s)
          ∙ find-save_position account symbol q p s.positions own
          ∙ ap
              (λ z.
                if str_eq z account && str_eq q.symbol symbol
                then some q
                else find_position account symbol s.positions)
              shown.0
          ∙ ap
              (λ c.
                if c && str_eq q.symbol symbol
                then some q
                else find_position account symbol s.positions)
              (str_eq_refl account)
          ∙ ap (λ z. if str_eq z symbol then some q else find_position account symbol s.positions)
              shown.1,
    )

-- no symbol is reported twice
abbrev pub Distinct : List BrokerPosition → Type 0
Distinct [] = Unit
Distinct (b ∷ bs) = (is_reported bs b.symbol ≡ false) × Distinct bs

-- a projection that is of one position
project_found-Projects :
    (l : Ledger) (b : BrokerPosition) (internal : List Position) (s : Projection)
    → find_position account b.symbol s.positions ≡ find_position account b.symbol internal
    → (t : Projection) × (project_found l b
          (find_position account b.symbol internal)
          (find_position account b.symbol s.positions)
          s
        ≡ returns t)
      × Projects b s.positions t.positions
unfolding project_found
project_found-Projects l b internal s same =
    elim (Option-cases (find_position account b.symbol s.positions)) [
      | inl free ↦ (import_position l b s, rw free refl, import_position-Projects l b s free)
      | inr (p, found) ↦ (
        update_position l b p s,
        rw (sym same, found) refl,
        update_position-Projects l b p s found,
      )
    ]

pub reported_first :
    (b : BrokerPosition) (bs : List BrokerPosition) → is_reported (b ∷ bs) b.symbol ≡ true
reported_first b bs = let own = str_eq_refl b.symbol in ground arith

pub reported_later :
    (b : BrokerPosition) (symbol : String) (bs : List BrokerPosition)
    → is_reported bs symbol ≡ true
    → is_reported (b ∷ bs) symbol ≡ true
reported_later b symbol bs h = ground arith

reported_neither :
    (b : BrokerPosition) (symbol : String) (bs : List BrokerPosition)
    → is_reported (b ∷ bs) symbol ≡ false
    → (str_eq b.symbol symbol ≡ false) × (is_reported bs symbol ≡ false)
reported_neither b symbol bs h = ground arith

other_symbol :
    (b : BrokerPosition) (symbol : String) (bs : List BrokerPosition)
    → is_reported bs b.symbol ≡ false
    → is_reported bs symbol ≡ true
    → str_eq b.symbol symbol ≡ false
other_symbol b symbol bs fresh h = elim (Bool-cases (str_eq b.symbol symbol)) [
  | inr apart ↦ apart
  | inl same ↦ let equal = ap (λ z. is_reported bs z) ((str_eq_iff b.symbol symbol).0 same) in cc
]

-- A loop over the positions returns; each that it is of is shown by the table, and no other
-- symbol is touched.
pub project_reported-Shows :
    (l : Ledger) (internal : List Position) (bs : List BrokerPosition) (s : Projection)
    → Distinct bs
    → ((symbol : String)
        → is_reported bs symbol ≡ true
        → find_position account symbol s.positions ≡ find_position account symbol internal)
    → (t : Projection) × (project_reported l internal bs s ≡ returns t)
      × All (Shows t.positions) bs
      × ((symbol : String)
          → is_reported bs symbol ≡ false
          → find_position account symbol t.positions ≡ find_position account symbol s.positions)
unfolding project_reported
project_reported-Shows l internal [] s distinct same = (s, refl, tt, λ symbol h. refl)
project_reported-Shows l internal (b ∷ bs) s (fresh, distinct) same =
    let own = str_eq_refl b.symbol in
    let (u, first, (q, shown, looks)) =
      project_found-Projects l b internal s (same b.symbol (reported_first b bs)) in
    let (t, rest, shows, others) = project_reported-Shows l internal bs u distinct (λ symbol h.
      looks symbol
      ∙ ap (λ c. if c then some q else find_position account symbol s.positions)
          (other_symbol b symbol bs fresh h)
      ∙ same symbol (reported_later b symbol bs h)) in
    (
      t,
      ap (λ z. z >>= λ v. project_reported l internal bs v) first ∙ rest,
      (
        (
          q,
          others b.symbol fresh
              ∙ looks b.symbol
              ∙ ap (λ c. if c then some q else find_position account b.symbol s.positions) own,
          shown,
        ),
        shows,
      ),
      λ symbol h.
          let (apart, later) = reported_neither b symbol bs h in
          others symbol later
          ∙ looks symbol
          ∙ ap (λ c. if c then some q else find_position account symbol s.positions) apart,
    )
