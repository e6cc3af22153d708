-- ===== src/Services/Utxos/Balances.antt =====
-- A balance is the sum of the unspent outputs.
use touchstone.Base.{ℤ, Str, List, ok, ◌≡◌, ap, ◌∙◌, select, >>=_ok, pure}
use touchstone.Models.TxPoints.{TxPoint, get_tx_points_by_addr, tx_point_state_may_be_unspent}
use touchstone.Services.Env.{Env}
use touchstone.Services.Utxos.{
  calculate_utxos, sum_tx_points, get_all_addr_utxos, get_addr_balance, get_user_tx_points,
  get_all_user_utxos, get_user_balance,
}
use touchstone.Services.Utxos.Unspent.{is_unspent, calculate_utxos-select}

module _ {S : Type 0} (env : Env S) (badge_code : Str) (s s' : S) (ps : List TxPoint) where
  -- If the points of an address are read, then its balance is the sum of the values of those
  -- outputs that none of them spends, in 64 bits.
  pub get_addr_balance-unspent :
      (addr : Str)
      → get_tx_points_by_addr env.tx_points addr badge_code tx_point_state_may_be_unspent s
        ≡ (ok ps, s')
      → get_addr_balance env addr badge_code s
        ≡ (ok (sum_tx_points (select (is_unspent ps) ps)), s')
  unfolding get_addr_balance get_all_addr_utxos
  get_addr_balance-unspent addr h =
      >>=_ok (get_all_addr_utxos env addr badge_code) (λ utxos. pure (sum_tx_points utxos)) s
        (>>=_ok (get_tx_points_by_addr env.tx_points addr badge_code tx_point_state_may_be_unspent)
          (λ ps. pure (calculate_utxos ps)) s h)
      ∙ ap (λ us. (ok (sum_tx_points us), s')) (calculate_utxos-select ps)

  -- If the points of the addresses of a user are read, then the user's balance is the sum of the
  -- values of those outputs that none of them spends, in 64 bits.
  pub get_user_balance-unspent :
      (appid : Str) (user_id user_index : ℤ)
      → get_user_tx_points env appid user_id user_index badge_code tx_point_state_may_be_unspent s
        ≡ (ok ps, s')
      → get_user_balance env appid user_id user_index badge_code s
        ≡ (ok (sum_tx_points (select (is_unspent ps) ps)), s')
  unfolding get_user_balance get_all_user_utxos
  get_user_balance-unspent appid user_id user_index h =
      >>=_ok (get_all_user_utxos env appid user_id user_index badge_code)
        (λ utxos. pure (sum_tx_points utxos)) s
        (>>=_ok
          (get_user_tx_points env appid user_id user_index badge_code tx_point_state_may_be_unspent)
          (λ ps. pure (calculate_utxos ps)) s h)
      ∙ ap (λ us. (ok (sum_tx_points us), s')) (calculate_utxos-select ps)
