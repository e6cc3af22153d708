-- ===== src/Tests/Batches.antt =====
-- Sorting and processing batches; pages and partitions.
use touchstone.Base.{
  ◌↔◌, ◌⊎◌, true, ltb_ℤ, ◌^◌, ◌-◌, ℕ, ◌+◌, ◌≡◌, refl, pos, ◌≤ℤ◌, ◌<ℤ◌, ◌+64◌, Str, codes, str_eq,
  List, [], ◌∷◌, Outcome, ok, err, panic, hang, length, arith, reverse, if◌then◌else◌,
}
use mathlib.Core.List.{Perm}
use touchstone.Wire.{MsgTx}
use touchstone.Util.Sort.{sort_msg_tx, sort_from, init_in_result, find_ready}
use touchstone.Util.Sort.Order.{ids, IsOrdered, IsAcyclic}
use touchstone.Util.Sort.Perms.{sort_msg_tx-perm}
use touchstone.Util.Sort.Topological.{sort_msg_tx-IsOrdered}
use touchstone.Util.Dfs.{
  map_txs, pre_txs, visit, visit_all, collect_txs, dfs_sort_and_distinct_msg_txs,
}
use touchstone.Util.Dfs.Result.{Exceeds, IsCost, distinct}
use touchstone.Util.Dfs.Distinct.{dfs_sort_and_distinct_msg_txs-distinct}
use touchstone.Services.Env.{Env}
use touchstone.Services.Process.{
  ProcessMsgTxsResult, no_results, process_msg_txs, process_all, process_msg_tx,
  parse_and_add_tx_points, add_tx_points,
}
use touchstone.Services.Validate.{
  has_badge_flag, add_badge_value, parse_msg_tx, parse_vins, parse_vin, server_get_tx_point,
  use_point, parse_outputs, outputs_within, parse_vouts,
}
use touchstone.Models.TxPoints.{get_tx_point, add_tx_point}
use touchstone.Models.TxInfos.{set_msg_tx_state}
use touchstone.Util.Hex.{encode_to_string}
use touchstone.Services.Sync.Rounds.{sync_offsets}
use touchstone.Services.Sync.Ends.{visited, sync_offsets-visited}
use touchstone.Services.Pages.{page_of}
use touchstone.Services.Pages.Bounds.{page_of-panic_iff}
use touchstone.Services.PartitionHash.{partition_of, first_height, partition_block_count}
use touchstone.Services.PartitionHash.Range.{partition_of-range}
use touchstone.Tests.Store.{State, test_wire, test_env, parent_tx, child_tx, out_100}

abbrev batch : List MsgTx
batch = child_tx ∷ parent_tx ∷ []

abbrev test_hash : MsgTx → Str
test_hash tx = test_wire.tx_hash tx

-- The parent's rank is 0.
abbrev rank : Str → ℕ
rank h = if str_eq h (codes "00") then 0 else 1

sort_msg_tx-perm_example : Perm batch (sort_msg_tx test_hash batch)
sort_msg_tx-perm_example = sort_msg_tx-perm test_hash batch

batch-IsAcyclic : IsAcyclic test_hash rank (ids test_hash batch) batch
unfolding str_eq encode_to_string
batch-IsAcyclic = ((λ among. omega arith, tt), (tt, tt))

sort_msg_tx-IsOrdered_example :
    IsOrdered test_hash (ids test_hash batch) [] (sort_msg_tx test_hash batch)
sort_msg_tx-IsOrdered_example = sort_msg_tx-IsOrdered test_hash rank batch batch-IsAcyclic

abbrev cost : MsgTx → ℕ
cost tx = 1 + length tx.tx_in

dfs_sort_and_distinct_msg_txs-distinct_example :
    dfs_sort_and_distinct_msg_txs test_hash 3 (parent_tx ∷ child_tx ∷ [])
    ≡ ok (distinct test_hash [] (reverse (parent_tx ∷ child_tx ∷ [])))
unfolding IsCost Exceeds map_txs pre_txs str_eq encode_to_string
dfs_sort_and_distinct_msg_txs-distinct_example =
    dfs_sort_and_distinct_msg_txs-distinct test_hash cost 3 (parent_tx ∷ child_tx ∷ [])
      (omega arith, (omega arith, tt)) (omega arith)

-- The child comes before its parent.
dfs_run :
    dfs_sort_and_distinct_msg_txs test_hash 3 (parent_tx ∷ child_tx ∷ [])
    ≡ ok (child_tx ∷ parent_tx ∷ [])
unfolding dfs_sort_and_distinct_msg_txs map_txs visit_all visit pre_txs collect_txs str_eq
    encode_to_string
dfs_run = refl

page_of-panic_iff_example : page_of {A = ℕ} (4 ∷ 5 ∷ []) (pos 1) (pos (2 ^ 63 - 1)) ≡ panic ↔ (
    (ltb_ℤ (pos 1) (pos 0) ≡ true)
    ⊎ ((ltb_ℤ (pos 1) (pos 2) ≡ true) × (ltb_ℤ (pos (2 ^ 63 - 1) +64 pos 1) (pos 1) ≡ true)))
page_of-panic_iff_example = page_of-panic_iff {A = ℕ} (4 ∷ 5 ∷ []) (pos 1) (pos (2 ^ 63 - 1))

abbrev env : Env State
env = test_env (out_100 ∷ []) []

partition_of-range_example :
    (first_height env (partition_of env (pos 650027)) ≤ℤ pos 650027)
    × (pos 650027
        <ℤ (first_height env (partition_of env (pos 650027)) +64 pos partition_block_count))
partition_of-range_example = partition_of-range env 650000 650027 refl (omega arith) (omega arith)

-- Offsets 0 and 10.
sync_offsets-visited_example : sync_offsets env 2 5 (pos 0) (pos 13) tt ≡ visited env 2 2 0 tt
sync_offsets-visited_example =
    sync_offsets-visited env 2 2 5 0 13 tt (omega arith) (omega arith) (λ some. omega arith)
      (omega arith)

abbrev result_of : Outcome ProcessMsgTxsResult → ProcessMsgTxsResult
result_of (ok r) = r
result_of (err e) = no_results
result_of panic = no_results
result_of hang = no_results

abbrev answered : ProcessMsgTxsResult
unfolding process_msg_txs
answered = result_of (process_msg_txs env batch (pos 2) tt).0

run : (process_msg_txs env batch (pos 2) tt).0 ≡ ok answered
unfolding process_msg_txs process_all process_msg_tx parse_and_add_tx_points add_tx_points
    parse_msg_tx parse_vins parse_vin server_get_tx_point get_tx_point add_tx_point set_msg_tx_state
    has_badge_flag parse_outputs outputs_within parse_vouts sort_msg_tx sort_from init_in_result
    find_ready str_eq encode_to_string use_point add_badge_value
run = refl
