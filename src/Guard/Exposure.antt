-- ===== src/Guard/Exposure.antt =====
-- The exposure figures add up (backend/app/risk_calc.py).
use cresta.Base.{
  ℕ, ◌+◌, ◌≤◌, ◌≡◌, inl, inr, sym, ap, ◌∙◌, true, false, ◌&&◌, List, [], ◌∷◌, String, str_eq,
  str_eq_iff, arith, if◌then◌else◌, Bool-cases,
}
use cresta.Paper.Rows.{Position}
use cresta.Guard.Risk.{
  Market, is_counted, position_value, add_value, value_of, exposure_from, open_position_exposure,
}

-- the values of the open positions of an account, all of them and those of one symbol
unfoldable pub all_values : Market → String → List Position → ℕ
all_values m account [] = 0
all_values m account (p ∷ ps) =
    (if is_counted account p then position_value m p else 0) + all_values m account ps

unfoldable pub symbol_values : Market → String → String → List Position → ℕ
symbol_values m account symbol [] = 0
symbol_values m account symbol (p ∷ ps) =
    (if is_counted account p && str_eq p.symbol symbol then position_value m p else 0)
    + symbol_values m account symbol ps

first_row :
    (symbol k key : String) (value old : ℕ) (rest : List (String × ℕ))
    → str_eq k key ≡ true
    → str_eq key symbol ≡ str_eq k symbol
    → value_of symbol (add_value key value ((k, old) ∷ rest))
      ≡ (if str_eq key symbol then value else 0) + value_of symbol ((k, old) ∷ rest)
unfolding add_value value_of
first_row symbol k key value old rest same swap = ground arith

apart :
    (symbol k key : String)
    → str_eq k key ≡ false
    → str_eq k symbol ≡ true
    → str_eq key symbol ≡ false
apart symbol k key other here = elim (Bool-cases (str_eq key symbol)) [
  | inl both ↦
      let k_symbol = (str_eq_iff k symbol).0 here in
      let key_symbol = (str_eq_iff key symbol).0 both in
      let same = (str_eq_iff k key).1 (k_symbol ∙ sym key_symbol) in ground arith
  | inr e ↦ e
]

later_row :
    (symbol k key : String) (value old : ℕ) (rest : List (String × ℕ))
    → str_eq k key ≡ false
    → value_of symbol (add_value key value rest)
      ≡ (if str_eq key symbol then value else 0) + value_of symbol rest
    → value_of symbol (add_value key value ((k, old) ∷ rest))
      ≡ (if str_eq key symbol then value else 0) + value_of symbol ((k, old) ∷ rest)
unfolding add_value value_of
later_row symbol k key value old rest other later = rw other (elim (Bool-cases (str_eq k symbol)) [
  | inl here ↦ rw (here, apart symbol k key other here) (omega arith)
  | inr elsewhere ↦ rw elsewhere later
])

value_of-add_value :
    (symbol key : String) (value : ℕ) (table : List (String × ℕ))
    → value_of symbol (add_value key value table)
      ≡ (if str_eq key symbol then value else 0) + value_of symbol table
unfolding add_value value_of
value_of-add_value symbol key value [] = ground arith
value_of-add_value symbol key value ((k, old) ∷ rest) =
    let later = value_of-add_value symbol key value rest in
    elim (Bool-cases (str_eq k key)) [
      | inl same ↦
          let swap : str_eq key symbol ≡ str_eq k symbol =
            ap (λ x. str_eq x symbol) (sym ((str_eq_iff k key).0 same)) in
          first_row symbol k key value old rest same swap
      | inr other ↦ later_row symbol k key value old rest other later
    ]

total_from :
    (m : Market) (account : String) (table : List (String × ℕ)) (total : ℕ) (ps : List Position)
    → (exposure_from m account table total ps).1 ≡ total + all_values m account ps
unfolding exposure_from all_values
total_from m account table total [] = omega arith
total_from m account table total (p ∷ ps) =
    let value = position_value m p in
    ground (
      arith,
      total_from m account (add_value p.symbol value table) (total + value) ps,
      total_from m account table total ps,
    )

symbol_from :
    (m : Market) (account symbol : String) (table : List (String × ℕ)) (total : ℕ)
    (ps : List Position)
    → value_of symbol (exposure_from m account table total ps).0
      ≡ value_of symbol table + symbol_values m account symbol ps
unfolding exposure_from symbol_values
symbol_from m account symbol table total [] = omega arith
symbol_from m account symbol table total (p ∷ ps) =
    let value = position_value m p in
    ground (
      arith,
      symbol_from m account symbol (add_value p.symbol value table) (total + value) ps,
      symbol_from m account symbol table total ps,
      value_of-add_value symbol p.symbol value table,
    )

symbol-le-all :
    (m : Market) (account symbol : String) (ps : List Position)
    → symbol_values m account symbol ps ≤ all_values m account ps
unfolding symbol_values all_values
symbol-le-all m account symbol [] = omega arith
symbol-le-all m account symbol (p ∷ ps) = ground (arith, symbol-le-all m account symbol ps)

-- The total exposure of an account is the sum of the values of its open positions, and the
-- exposure of each symbol the sum of those of that symbol; so none is above the total.
pub open_position_exposure_lem :
    (m : Market) (account : String) (positions : List Position) (symbol : String)
    → ((open_position_exposure m account positions).1 ≡ all_values m account positions)
      × (value_of symbol (open_position_exposure m account positions).0
          ≡ symbol_values m account symbol positions)
      × (value_of symbol (open_position_exposure m account positions).0
          ≤ (open_position_exposure m account positions).1)
unfolding open_position_exposure value_of
open_position_exposure_lem m account positions symbol =
    let whole = total_from m account [] 0 positions in
    let one = symbol_from m account symbol [] 0 positions in
    let below = symbol-le-all m account symbol positions in (omega arith, omega arith, omega arith)
