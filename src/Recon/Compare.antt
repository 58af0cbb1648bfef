-- ===== src/Recon/Compare.antt =====
-- The comparison of the reported positions with the table, the part of `compare_snapshot` of
-- backend/app/reconciliation.py that is about positions.
use cresta.Base.{
  Bool, ◌&&◌, Option, none, some, List, [], ◌∷◌, ◌++◌, String, ◌==◌, str_eq, if◌then◌else◌,
}
use cresta.Paper.Rows.{Position}
use cresta.Guard.Sell.{account, is_open}
use cresta.Recon.{BrokerPosition}
use cresta.Recon.Positions.{is_gone}

pub data PositionMismatch : Type 0 where
  unknown_external_position position_quantity_mismatch average_price_mismatch :
      String → PositionMismatch

abbrev pub compare_found : BrokerPosition → Option Position → List PositionMismatch
compare_found b none = unknown_external_position b.symbol ∷ []
compare_found b (some p) =
    if p.quantity == b.quantity
    then if p.average_price == b.average_price then [] else average_price_mismatch b.symbol ∷ []
    else position_quantity_mismatch b.symbol ∷ []

abbrev pub is_held : Position → Bool
is_held p = str_eq p.account_alias account && is_open p.state

-- `internal_positions_by_symbol.get(symbol)`
unfoldable pub find_held : String → List Position → Option Position
find_held symbol [] = none
find_held symbol (p ∷ ps) =
    if is_held p && str_eq p.symbol symbol then some p else find_held symbol ps

unfoldable pub compare_reported : List BrokerPosition → List Position → List PositionMismatch
unfolding find_held
compare_reported [] rows = []
compare_reported (b ∷ bs) rows =
    compare_found b (find_held b.symbol rows) ++ compare_reported bs rows

unfoldable pub compare_internal : List BrokerPosition → List Position → List PositionMismatch
compare_internal reported [] = []
compare_internal reported (p ∷ ps) =
    if is_gone reported p
    then position_quantity_mismatch p.symbol ∷ compare_internal reported ps
    else compare_internal reported ps

-- the part of `compare_snapshot` that is about positions
unfoldable pub compare_positions : List BrokerPosition → List Position → List PositionMismatch
unfolding compare_reported compare_internal
compare_positions reported rows = compare_reported reported rows ++ compare_internal reported rows
