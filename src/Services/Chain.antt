-- ===== src/Services/Chain.antt =====
-- What the server's loops do as the chain grows: `ClearMsgTx`, `CheckTxState`, `SetSpent`; and
-- `SetAddrInfo`.
pub mod Moved
pub mod Cleared
use touchstone.Base.{
  ℤ, pos, negsuc, Str, str_eq, codes, contains, Bool, List, [], ◌∷◌, Action, pure, ◌>>=◌, ◌>>◌,
  ◌==ℤ◌, leb_ℤ, ◌||◌, true, not, ◌+64◌, ◌-64◌, if◌then◌else◌,
}
use touchstone.Models.TxPoints.{
  TxPoint, delete_tx_points, set_tx_point_state, tx_point_type_vin, tx_point_type_vout,
  tx_point_state_pretty_sure_spent, foreach_unspent_vin_tx_point,
}
use touchstone.Models.TxInfos.{
  MsgTxBriefInfo, delete_msg_tx, get_msg_tx_brief_info, get_msg_tx_brief_info_by_height_range,
  set_msg_tx_height_hash, unconfirm_tx_height,
}
use touchstone.Models.AddrInfos.{add_or_update_addr_info}
use touchstone.Services.Env.{Env, TxState}
use touchstone.Services.PartitionHash.{add_need_recomputehash_partition_by_height}

-- `strings.Contains(txState.Payload.ResultDescription, "No such mempool or …")`
abbrev pub is_gone : TxState → Bool
is_gone t = contains t.result_description (codes "No such mempool or blockchain transaction")

-- `currentheight`
abbrev pub current_height : TxState → ℤ
current_height t = if t.block_height ==ℤ pos 0 then unconfirm_tx_height else t.block_height

-- Whether the chain has the transaction where the server has it.
abbrev pub is_moved : MsgTxBriefInfo → TxState → Bool
is_moved i t = not (str_eq i.block_hash t.block_hash) || not (i.height ==ℤ current_height t)

module _ {S : Type 0} (env : Env S) where
  open env use {tx_points, tx_infos, addr_infos, get_tx_state, get_fee_quote, now}

  unfoldable pub clear_msg_tx : Str → Action S (Unit {0})
  clear_msg_tx txid = delete_tx_points tx_points txid >> delete_msg_tx tx_infos txid

  -- The body of the loop of `CheckTxState` once the state of the transaction is known.
  unfoldable pub update_tx_state : MsgTxBriefInfo → TxState → Action S (Unit {0})
  unfolding clear_msg_tx
  update_tx_state i t =
      if is_gone t
      then clear_msg_tx i.txid
      else if is_moved i t
      then set_msg_tx_height_hash tx_infos i.txid t.block_height t.block_hash
        >> add_need_recomputehash_partition_by_height env i.height
      else pure tt

  unfoldable pub check_tx_states : List MsgTxBriefInfo → Action S (Unit {0})
  unfolding update_tx_state
  check_tx_states [] = pure tt
  check_tx_states (i ∷ is) = do t ← get_tx_state i.txid; _ ← update_tx_state i t; check_tx_states is

  unfoldable pub check_tx_state : Action S (Unit {0})
  unfolding check_tx_states
  check_tx_state = do
    highest ← get_fee_quote
    is ← get_msg_tx_brief_info_by_height_range tx_infos (highest -64 pos 8) (highest +64 pos 1) true
    check_tx_states is

  -- The function `f` of `SetSpent`, with the point that the iteration has read.
  unfoldable pub set_spent_point : ℤ → TxPoint → Action S (Unit {0})
  set_spent_point highest p = do
    i ← get_msg_tx_brief_info tx_infos p.txid
    if i.height ==ℤ negsuc 0 || leb_ℤ (highest -64 i.height) (pos 20)
        then pure tt
        else set_tx_point_state tx_points p.pre_txid p.pre_index tx_point_type_vout
            tx_point_state_pretty_sure_spent
          >> set_tx_point_state tx_points p.txid p.index tx_point_type_vin
              tx_point_state_pretty_sure_spent

  unfoldable pub set_spent : Action S (Unit {0})
  unfolding set_spent_point
  set_spent = do
    highest ← get_fee_quote
    time ← now
    foreach_unspent_vin_tx_point tx_points (time -64 pos 3600) (set_spent_point highest)

  unfoldable pub set_addr_info : Str → ℤ → ℤ → Str → Action S (Unit {0})
  set_addr_info appid user_id user_index addr = do
    time ← now
    add_or_update_addr_info addr_infos (record {
      appid = appid;
      user_id = user_id;
      user_index = user_index;
      addr = addr;
      timestamp = time;
    })
