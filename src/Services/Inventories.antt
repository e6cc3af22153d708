-- ===== src/Services/Inventories.antt =====
-- What the server answers about transactions: `TxPoints2TxInventory`, `TxPoints2AddrInventory` and
-- the queries that use them.
pub mod Totals
pub mod Recorded
use touchstone.Base.{
  ◌+◌, ℤ, pos, negsuc, Str, str_eq, codes, Bool, List, [], ◌∷◌, ◌++◌, Action, fail, pure, ◌>>=◌,
  ◌==◌, length, ltb, if◌then◌else◌, ◌+64◌,
}
use touchstone.Models.TxPoints.{
  TxPoint, get_tx_points, get_tx_points_by_addr, tx_point_type_vin, tx_point_state_all,
}
use touchstone.Services.Env.{Env}
use touchstone.Services.Validate.{TxInventory, new_code_error}
use touchstone.Services.Utxos.{get_user_tx_points}

-- util/error.go: `ERR_UNKNOW_TX_CODE`, -5.
abbrev pub err_unknow_tx_code : ℤ
err_unknow_tx_code = negsuc 4

-- The loop of `TxPoints2TxInventory`.
unfoldable pub sort_out : TxInventory → List TxPoint → TxInventory
sort_out i [] = i
sort_out i (p ∷ ps) =
    sort_out
      (if p.kind == tx_point_type_vin
        then record i { vins = i.vins ++ (p ∷ []) }
        else record i { vouts = i.vouts ++ (p ∷ []) })
      ps

unfoldable pub tx_points2_tx_inventory : List TxPoint → TxInventory
unfolding sort_out
tx_points2_tx_inventory ps = sort_out (record { vins = []; vouts = [] }) ps

-- `AddrInventory`
pub record AddrInventory : Type 0 where
  pub addr : Str
  pub txid : Str
  pub timestamp : ℤ
  pub value : ℤ

-- One round of `TxPoints2AddrInventory`. The map holds pointers into the slice, with the same
-- entries, so both are one list: the entry of the point's transaction grows, or is appended.
unfoldable pub add_to_inventory : TxPoint → List AddrInventory → List AddrInventory
add_to_inventory p [] =
    record { addr = p.addr; txid = p.txid; timestamp = p.timestamp; value = pos 0 +64 p.value } ∷ []
add_to_inventory p (i ∷ is) =
    let rest = add_to_inventory p is in
    if str_eq i.txid p.txid then record i { value = i.value +64 p.value } ∷ is else i ∷ rest

unfoldable pub inventories_from : List AddrInventory → List TxPoint → List AddrInventory
inventories_from is [] = is
inventories_from is (p ∷ ps) = inventories_from (add_to_inventory p is) ps

unfoldable pub tx_points2_addr_inventory : List TxPoint → List AddrInventory
unfolding inventories_from
tx_points2_addr_inventory ps = inventories_from [] ps

module _ {S : Type 0} (env : Env S) where
  open env use {tx_points}

  unfoldable pub get_transaction_inventory : Str → Action S TxInventory
  get_transaction_inventory txid = do
    ps ← get_tx_points tx_points txid
    if length ps == 0
        then fail (new_code_error err_unknow_tx_code (codes "unknow tx"))
        else pure (tx_points2_tx_inventory ps)

  unfoldable pub get_all_addr_inventorys : Str → Str → Action S (List AddrInventory)
  get_all_addr_inventorys addr badge_code = do
    ps ← get_tx_points_by_addr tx_points addr badge_code tx_point_state_all
    pure (tx_points2_addr_inventory ps)

  unfoldable pub get_user_addr_inventorys : Str → ℤ → ℤ → Str → Action S (List AddrInventory)
  get_user_addr_inventorys appid user_id user_index badge_code = do
    ps ← get_user_tx_points env appid user_id user_index badge_code tx_point_state_all
    pure (tx_points2_addr_inventory ps)
