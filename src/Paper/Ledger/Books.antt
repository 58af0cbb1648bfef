-- ===== src/Paper/Ledger/Books.antt =====
-- The books under each way in which backend/app/trading/paper.py writes its tables.
use cresta.Base.{
  ℕ, ◌+◌, ◌≤◌, ◌<◌, ◌≡◌, refl, sym, ◌∙◌, Option-cases, inl, inr, some, List, [], ◌∷◌, ◌++◌, String,
  arith, All,
}
use cresta.Paper.Rows.{TradingOrder, Fill, Position}
use cresta.Paper.Store.{find_order, find_position, save_order, find_child}
use cresta.Paper.Store.Laws.{OfSome-some, All-append, All-save_order, All-find_order}
use cresta.Paper.Store.Totals.{
  shares, total-append, total-save_order, Ascending-save_order, Ascending-append, find-save_other,
  find_child-parent, find_child-found,
}
use cresta.Paper.Fills.{absorb, take_fill}
use cresta.Paper.Fills.Effects.{adjusted, orders_after_adjust, filled_row}
use cresta.Paper.Fills.Positions.{brought, taken}
use cresta.Paper.Ledger.Accounts.{
  filled_total-append, filled_total-none, bought, sold, IsAccounted, Books, rows-more_ids,
  fills-more_ids, rows-save_filled,
}

-- A row that stands for the same order as far as the books go.
pub record SameBooks (o p : TradingOrder) : Type 0 where
  pub same_id : o.id ≡ p.id
  pub same_parent : o.parent_order_id ≡ p.parent_order_id
  pub same_terms : o.terms ≡ p.terms
  pub same_filled : o.filled_quantity ≡ p.filled_quantity

IsAccounted-same :
    (fs : List Fill) (n : ℕ) (o p : TradingOrder)
    → SameBooks o p
    → IsAccounted fs n p
    → IsAccounted fs n o
IsAccounted-same fs n o p s h = record {
  known = rw s.same_id h.known;
  older_parent = rw (s.same_id, s.same_parent) h.older_parent;
  filled = rw (s.same_id, s.same_filled) h.filled;
}

known_rows :
    (fs : List Fill) (n : ℕ) (os : List TradingOrder)
    → All (IsAccounted fs n) os
    → All (λ o. o.id < n) os
known_rows fs n [] h = tt
known_rows fs n (x ∷ os) h = (h.0.known, known_rows fs n os h.1)

-- A row written back for the same order.
pub Books-save :
    (os : List TradingOrder) (fs : List Fill) (ps : List Position) (n : ℕ) (o p : TradingOrder)
    → Books os fs ps n
    → find_order p.id os ≡ some p
    → SameBooks o p
    → Books (save_order o os) fs ps n
Books-save os fs ps n o p b found s = record {
  ascending = Ascending-save_order 0 o os b.ascending;
  rows = All-save_order (IsAccounted fs n) o os b.rows (
      IsAccounted-same fs n o p s
        (OfSome-some (IsAccounted fs n) (All-find_order (IsAccounted fs n) p.id os b.rows) found));
  fills_known = b.fills_known;
  positions = λ a t.
      let w = bought a t in
      ground (
        arith,
        b.positions a t,
        s.same_terms,
        s.same_filled,
        total-save_order (sold a t) p o p.id os found s.same_id,
        total-save_order (bought a t) p o p.id os found s.same_id,
      );
}

-- A new row that has no fill yet.
pub Books-append :
    (os : List TradingOrder) (fs : List Fill) (ps : List Position) (n m : ℕ) (o : TradingOrder)
    → Books os fs ps n
    → n ≤ o.id
    → o.id < m
    → o.filled_quantity ≡ 0
    → ((p : ℕ) → o.parent_order_id ≡ some p → p < o.id)
    → Books (os ++ o ∷ []) fs ps m
Books-append os fs ps n m o b le lt unfilled older = record {
  ascending = Ascending-append 0 n o os b.ascending (known_rows fs n os b.rows) (omega arith) le;
  rows = All-append (IsAccounted fs m) os o (rows-more_ids fs n m os b.rows (omega arith)) (record {
    known = lt;
    older_parent = older;
    filled =
        rw unfilled (sym (filled_total-none o.id fs (fills-more_ids n o.id fs b.fills_known le)));
  });
  fills_known = fills-more_ids n m fs b.fills_known (omega arith);
  positions = λ a t. ground (
    arith,
    b.positions a t,
    unfilled,
    total-append (sold a t) os o,
    total-append (bought a t) os o,
  );
}

-- The replacement of a late-filled original.
pub Books-adjust :
    (os : List TradingOrder) (fs : List Fill) (ps : List Position) (n id late : ℕ)
    → Books os fs ps n
    → Books (orders_after_adjust id late os) fs ps n
unfolding orders_after_adjust absorb
Books-adjust os fs ps n id late b = elim (Option-cases (find_child id os)) [
  | inl missing ↦ rw (missing, orders_after_adjust) b
  | inr (c, found) ↦
      rw (found, orders_after_adjust)
        (Books-save os fs ps n (adjusted late c) c b (find_child-found 0 id c os b.ascending found)
          (ground arith))
]

-- The adjustment does not touch the original's own row.
pub find-adjust :
    (os : List TradingOrder) (fs : List Fill) (ps : List Position) (n late : ℕ) (o : TradingOrder)
    → Books os fs ps n
    → find_order o.id os ≡ some o
    → find_order o.id (orders_after_adjust o.id late os) ≡ some o
unfolding orders_after_adjust absorb
find-adjust os fs ps n late o b found = elim (Option-cases (find_child o.id os)) [
  | inl missing ↦ rw (missing, orders_after_adjust) found
  | inr (c, child) ↦
      let own = find_child-found 0 o.id c os b.ascending child in
      let acc =
        OfSome-some (IsAccounted fs n) (All-find_order (IsAccounted fs n) c.id os b.rows) own in
      let older = acc.older_parent o.id (find_child-parent o.id c os child) in
      rw (child, orders_after_adjust)
        (find-save_other o.id (adjusted late c) os (ground arith) ∙ found)
]

-- A fill of an order, with its row written back and its shares moved.
pub Books-fill :
    (os : List TradingOrder) (fs : List Fill) (ps ps' : List Position) (n m q : ℕ)
    (o : TradingOrder) (f : Fill)
    → Books os fs ps n
    → find_order o.id os ≡ some o
    → f.order_id ≡ o.id
    → f.quantity ≡ q
    → n ≤ m
    → ((a s : String)
        → shares (find_position a s ps') + taken a s o q
          ≡ shares (find_position a s ps) + brought a s o q)
    → Books (save_order (filled_row q o) os) (fs ++ f ∷ []) ps' m
unfolding take_fill
Books-fill os fs ps ps' n m q o f b found own quantity le moved =
    let acc =
      OfSome-some (IsAccounted fs n) (All-find_order (IsAccounted fs n) o.id os b.rows) found in
    record {
      ascending = Ascending-save_order 0 (filled_row q o) os b.ascending;
      rows = rows-save_filled fs f (filled_row q o) n m 0 os b.rows b.ascending le own (record {
        known = omega (arith, acc.known);
        older_parent = acc.older_parent;
        filled = ground (arith, acc.filled, filled_total-append o.id fs f);
      });
      fills_known =
          All-append (λ g. g.order_id < m) fs f (fills-more_ids n m fs b.fills_known le)
            (rw own (omega (arith, acc.known)));
      positions = λ a t. ground (
        arith,
        b.positions a t,
        moved a t,
        total-save_order (sold a t) o (filled_row q o) o.id os found refl,
        total-save_order (bought a t) o (filled_row q o) o.id os found refl,
      );
    }
