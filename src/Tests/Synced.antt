-- ===== src/Tests/Synced.antt =====
-- Transactions fetched and taken in: one that is closed, one that is given, and one that is not.
use touchstone.Base.{
  ◌≡◌, refl, pos, negsuc, Bytes, codes, List, [], ◌∷◌, ok, none, pure, contains, has_prefix,
  index_of, str_eq,
}
use mathlib.Core.List.{Memᴰ}
use touchstone.Models.TxInfos.{RawTxInfo, get_msg_tx_brief_info, add_msg_tx_info, set_msg_tx_state}
use touchstone.Services.Env.{Env, TxState}
use touchstone.Services.PartitionHash.{
  add_need_recomputehash_partition, add_need_recomputehash_partition_by_height,
}
use touchstone.Services.Validate.{
  parse_msg_tx, parse_vins, parse_outputs, outputs_within, parse_vouts,
}
use touchstone.Services.Process.{
  process_msg_txs, process_all, process_msg_tx, parse_and_add_tx_points, add_tx_points,
}
use touchstone.Services.Sync.{
  TxSource, SyncTxsResult, sync_txs, look_up, add_fetched, add_all_fetched, lookup_state,
  not_found_errors,
}
use touchstone.Services.Sync.Answered.{IsAnswered, sync_txs-IsAnswered}
use touchstone.Util.Common.{split_string}
use touchstone.Util.Hex.{encode_to_string, decode_string}
use touchstone.Util.Sort.{sort_msg_tx, sort_from, init_in_result, find_ready}
use touchstone.Tests.Store.{State, test_env}

abbrev closed_info : RawTxInfo
closed_info = record {
  txid = codes "00";
  index = negsuc 0;
  text = [];
  height = none;
  block_hash = [];
  timestamp = none;
  state = 3;
  hash = none;
}

abbrev accepted : TxState
accepted = record {
  return_result = codes "success";
  result_description = [];
  block_hash = [];
  block_height = pos 0;
}

abbrev env : Env State
env = record (test_env [] (closed_info ∷ [])) { get_tx_state = λ txid s. (ok accepted, s) }

abbrev txids : List Bytes
txids = (0 ∷ []) ∷ (1 ∷ []) ∷ (7 ∷ []) ∷ []

abbrev source : TxSource State
source ids = pure ((1 ∷ []) ∷ [])

abbrev result : SyncTxsResult
result = record {
  tx_inventorys = record { vins = []; vouts = [] } ∷ [];
  err_txs = record { txid = codes "07"; msg = codes "transaction not found" } ∷ [];
  already_closed_txs = codes "00" ∷ [];
}

run : (sync_txs env 3 txids source tt).0 ≡ ok result
unfolding sync_txs look_up get_msg_tx_brief_info add_all_fetched add_fetched lookup_state
    not_found_errors add_msg_tx_info add_need_recomputehash_partition
    add_need_recomputehash_partition_by_height process_msg_txs process_all process_msg_tx
    parse_and_add_tx_points add_tx_points parse_msg_tx parse_vins parse_outputs outputs_within
    parse_vouts set_msg_tx_state sort_msg_tx sort_from init_in_result find_ready str_eq
    encode_to_string decode_string contains has_prefix index_of split_string
run = refl

-- The id that was not given.
sync_txs-IsAnswered_example : ∥ IsAnswered env 3 result (7 ∷ []) ∥₁
sync_txs-IsAnswered_example =
    sync_txs-IsAnswered env 3 txids source result tt run (7 ∷ [])
      (Memᴰ.tail (Memᴰ.tail (Memᴰ.head refl)))
