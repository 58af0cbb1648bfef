-- ===== src/Recon/Versions.antt =====
-- When a projection counts as a change: the version of a position in `_project_positions` of
-- backend/app/account_projection.py.
use cresta.Base.{
  ℕ, suc, ◌<◌, ◌≡◌, ◌≢◌, ◌*◌, refl, sym, ap, ◌∙◌, Bool, true, false, Option, some, arith,
  Bool-cases, inl, inr,
}
use cresta.Paper.Rows.{
  Position, PositionState, open_position, closed_position, Origin, cresta_managed, external, mixed,
}
use cresta.Recon.{
  BrokerPosition, Average, Holding, equals_price, managed_projection, replay_managed_position,
}
use cresta.Recon.Positions.{
  Ledger, versioned, projected, is_unchanged, holding_of, updated_position, same_state, same_origin,
  state_of, origin_of,
}

-- the managed part of a replayed holding
managed_average :
    (l : Ledger) (b : BrokerPosition) (o : Option Position) (r : Holding)
    → replay_managed_position l.intents l.orders l.fills b.symbol ≡ some r
    → 0 < r.held
    → 0 < b.quantity
    → (holding_of l b o).average ≡ r.average
unfolding holding_of managed_projection
managed_average l b o r replayed some_held some_quantity = ground arith

uneven :
    (b : BrokerPosition) (h : Holding) (p : Position)
    → equals_price h.average p.managed_average_price ≡ false
    → is_unchanged b h p ≡ false
unfolding is_unchanged
uneven b h p differs = ground arith

unequal : (a : Average) (price : ℕ) → a.amount ≢ price * a.shares → equals_price a price ≡ false
unequal a price differs = elim (Bool-cases (equals_price a price)) [
  | inr apart ↦ apart
  | inl same ↦ absurd (differs (ground arith))
]

-- If shares are managed by the retained fills and their average price is no whole number of
-- ten-thousandths, as no column can hold it, every projection of the position counts as a change:
-- whatever the row is, also the one that a projection of the same report has left, its version
-- goes up by one.
pub uneven_average-bumps :
    (l : Ledger) (b : BrokerPosition) (p : Position) (r : Holding)
    → replay_managed_position l.intents l.orders l.fills b.symbol ≡ some r
    → 0 < r.held
    → 0 < b.quantity
    → ((price : ℕ) → r.average.amount ≢ price * r.average.shares)
    → (updated_position l b p).version ≡ suc p.version
unfolding updated_position projected
uneven_average-bumps l b p r replayed some_held some_quantity no_price =
    let h = holding_of l b (some p) in
    let average = managed_average l b (some p) r replayed some_held some_quantity in
    let differs : equals_price h.average p.managed_average_price ≡ false =
      ap (λ a. equals_price a p.managed_average_price) average
      ∙ unequal r.average p.managed_average_price (no_price p.managed_average_price) in
    ap (λ c. (versioned c (projected l b h p)).version) (uneven b h p differs)

same_holding :
    (l : Ledger) (b : BrokerPosition) (o o' : Option Position) (r : Holding)
    → replay_managed_position l.intents l.orders l.fills b.symbol ≡ some r
    → holding_of l b o ≡ holding_of l b o'
unfolding holding_of managed_projection
same_holding l b o o' r replayed =
    ap (λ z. managed_projection o b.quantity z) replayed
    ∙ sym (ap (λ z. managed_projection o' b.quantity z) replayed)

same_origin_refl : (o : Origin) → same_origin o o ≡ true
same_origin_refl cresta_managed = refl
same_origin_refl external = refl
same_origin_refl mixed = refl

same_state_refl : (o : PositionState) → same_state o o ≡ true
same_state_refl open_position = refl
same_state_refl closed_position = refl

origin_of-again :
    (quantity managed : ℕ) (old : Origin)
    → origin_of quantity managed (origin_of quantity managed old) ≡ origin_of quantity managed old
origin_of-again quantity managed old = ground arith

projected-again :
    (l : Ledger) (b : BrokerPosition) (h : Holding) (p : Position) (c : Bool)
    → projected l b h (versioned c (projected l b h p)) ≡ versioned c (projected l b h p)
unfolding projected
projected-again l b h p true =
    ap (λ o. record (projected l b h p) { origin = o }) (origin_of-again b.quantity h.held p.origin)
projected-again l b h p false =
    ap (λ o. record (projected l b h p) { origin = o; version = suc p.version })
      (origin_of-again b.quantity h.held p.origin)

unchanged-again :
    (l : Ledger) (b : BrokerPosition) (h : Holding) (p : Position) (c : Bool)
    → h.average.amount ≡ l.keep_price h.average * h.average.shares
    → is_unchanged b h (versioned c (projected l b h p)) ≡ true
unfolding projected is_unchanged
unchanged-again l b h p true exact =
    let s = same_state_refl (state_of b.quantity) in
    let again = origin_of-again b.quantity h.held p.origin in
    let o = same_origin_refl (origin_of b.quantity h.held p.origin) in ground arith
unchanged-again l b h p false exact =
    let s = same_state_refl (state_of b.quantity) in
    let again = origin_of-again b.quantity h.held p.origin in
    let o = same_origin_refl (origin_of b.quantity h.held p.origin) in ground arith

-- the same row, projected once more
pub even_average-stable :
    (l : Ledger) (b : BrokerPosition) (p : Position) (r : Holding)
    → replay_managed_position l.intents l.orders l.fills b.symbol ≡ some r
    → (holding_of l b (some p)).average.amount
      ≡ l.keep_price (holding_of l b (some p)).average * (holding_of l b (some p)).average.shares
    → updated_position l b (updated_position l b p) ≡ updated_position l b p
unfolding updated_position projected is_unchanged
even_average-stable l b p r replayed exact =
    let h = holding_of l b (some p) in
    let u = updated_position l b p in
    let c = is_unchanged b h p in
    let same = same_holding l b (some u) (some p) r replayed in
    ap (λ k. versioned (is_unchanged b k u) (projected l b k u)) same
    ∙ ap (λ d. versioned d (projected l b h u)) (unchanged-again l b h p c exact)
    ∙ projected-again l b h p c
