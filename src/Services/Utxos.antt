-- ===== src/Services/Utxos.antt =====
-- Unspent outputs, their sum and their pages: `CalculateUtxos`, `SumTxPoints`, `PageTxPoints` and
-- the queries on an address or a user.
pub mod Unspent
pub mod Spent
pub mod Balances
use touchstone.Base.{
  ℕ, zero, suc, ◌+◌, ◌-◌, ℤ, pos, negsuc, Str, str_eq, Bool, true, false, not, List, [], ◌∷◌, ◌++◌,
  Option, none, some, any, select, length, take, drop, Action, Outcome, ok, err, panic, pure, lift,
  bind, ◌>>=◌, ◌==◌, ◌==ℤ◌, ltb_ℤ, leb_ℤ, ◌&&◌, ◌||◌, if◌then◌else◌, ◌+64◌, ◌-64◌,
}
use touchstone.Util.Common.{generate_str_from_str_int}
use touchstone.Models.TxPoints.{
  TxPoint, get_tx_points_by_addr, tx_point_type_vin, tx_point_type_vout,
  tx_point_state_may_be_unspent, tx_point_state_all,
}
use touchstone.Models.AddrInfos.{AddrInfo}
use touchstone.Services.Env.{Env}

-- The first loop: the keys of the outputs that the inputs among the points spend, as a set.
unfoldable pub spent_utxo_set : List TxPoint → List Str
spent_utxo_set [] = []
spent_utxo_set (p ∷ ps) =
    let rest = spent_utxo_set ps in
    if not (p.kind == tx_point_type_vin)
    then rest
    else generate_str_from_str_int p.pre_txid p.pre_index ∷ rest

-- `_, ok := SpentUtxoSet[key]`
unfoldable pub in_set : Str → List Str → Bool
in_set key = any (λ k. str_eq k key)

-- The second loop: the outputs whose keys are not in the set.
unfoldable pub unspent_outputs : List Str → List TxPoint → List TxPoint
unfolding in_set
unspent_outputs spent [] = []
unspent_outputs spent (p ∷ ps) =
    let rest = unspent_outputs spent ps in
    if not (p.kind == tx_point_type_vout)
    then rest
    else if in_set (generate_str_from_str_int p.txid p.index) spent
    then rest
    else p ∷ rest

unfoldable pub calculate_utxos : List TxPoint → List TxPoint
unfolding unspent_outputs spent_utxo_set
calculate_utxos ps = unspent_outputs (spent_utxo_set ps) ps

unfoldable pub sum_from : ℤ → List TxPoint → ℤ
sum_from sum [] = sum
sum_from sum (p ∷ ps) = sum_from (sum +64 p.value) ps

unfoldable pub sum_tx_points : List TxPoint → ℤ
unfolding sum_from
sum_tx_points ps = sum_from (pos 0) ps

-- The condition of `AddrInfoRepository.GetUserTxPoints` on address documents, and on points.
abbrev pub is_of_user : Str → ℤ → ℤ → AddrInfo → Bool
is_of_user appid user_id user_index a =
    str_eq a.appid appid && (a.user_id ==ℤ user_id && a.user_index ==ℤ user_index)

abbrev pub is_of_badge : Str → ℕ → TxPoint → Bool
is_of_badge badge_code state p =
    str_eq p.badge_code badge_code
    && (if state == tx_point_state_all then true else p.state == state)

module _ {S : Type 0} (env : Env S) where
  open env use {tx_points, aggregate_tx_points}

  unfoldable pub get_user_tx_points : Str → ℤ → ℤ → Str → ℕ → Action S (List TxPoint)
  get_user_tx_points appid user_id user_index badge_code state =
      aggregate_tx_points (is_of_user appid user_id user_index) (is_of_badge badge_code state)

  unfoldable pub get_all_addr_utxos : Str → Str → Action S (List TxPoint)
  get_all_addr_utxos addr badge_code = do
    ps ← get_tx_points_by_addr tx_points addr badge_code tx_point_state_may_be_unspent
    pure (calculate_utxos ps)

  unfoldable pub get_all_user_utxos : Str → ℤ → ℤ → Str → Action S (List TxPoint)
  unfolding get_user_tx_points
  get_all_user_utxos appid user_id user_index badge_code = do
    ps ← get_user_tx_points appid user_id user_index badge_code tx_point_state_may_be_unspent
    pure (calculate_utxos ps)

  unfoldable pub get_addr_balance : Str → Str → Action S ℤ
  unfolding get_all_addr_utxos
  get_addr_balance addr badge_code = do
    utxos ← get_all_addr_utxos addr badge_code
    pure (sum_tx_points utxos)

  unfoldable pub get_user_balance : Str → ℤ → ℤ → Str → Action S ℤ
  unfolding get_all_user_utxos
  get_user_balance appid user_id user_index badge_code = do
    utxos ← get_all_user_utxos appid user_id user_index badge_code
    pure (sum_tx_points utxos)
