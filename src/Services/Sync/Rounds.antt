-- ===== src/Services/Sync/Rounds.antt =====
-- `SyncPatitions`, `SyncUnconfirmTx` and `SyncState`.
use touchstone.Base.{
  ℕ, zero, suc, ℤ, pos, Bytes, str_eq, Bool, List, [], ◌∷◌, none, some, hang, Error, Action, pure,
  handle, ◌>>=◌, ◌>>◌, ltb_ℤ, leb_ℤ, ◌||◌, ◌+64◌, ◌-64◌, if◌then◌else◌,
}
use touchstone.Util.Hex.{decode_string}
use touchstone.Models.Partitions.{PartitionInfo, get_partition_infos, get_partitions_count}
use touchstone.Services.Env.{Env, Peer}
use touchstone.Services.PartitionHash.{
  quotient, partition_block_count, clear_cache_and_set_hash, add_need_recomputehash_partition,
}
use touchstone.Services.Sync.{sync_txs, node_get_tx_bytes}

abbrev pub compare_partitions_count : ℤ
compare_partitions_count = pos 10

abbrev pub re_conpute_partition_count : ℤ
re_conpute_partition_count = pos 1

-- The loop over partitions: the ids of those whose hashes differ from the peer's. A hash that
-- cannot be decoded is passed over.
unfoldable pub different_ids : List PartitionInfo → List Bytes → List ℤ
different_ids [] hashes = []
different_ids (p ∷ ps) [] = []
different_ids (p ∷ ps) (peer_hash ∷ hashes) =
    let rest = different_ids ps hashes in
    elim (decode_string p.hash) [
      | none ↦ rest
      | some hash ↦ if str_eq hash peer_hash then rest else p.id ∷ rest
    ]

module _ {S : Type 0} (env : Env S) where
  -- The loop that notes the partitions from `i` on, for some number of rounds.
  unfoldable pub note_partitions : ℕ → ℤ → ℤ → Action S (Unit {0})
  note_partitions zero i end s = (hang, s)
  note_partitions (suc rounds) i end s =
      let more = note_partitions rounds (i +64 pos 1) end in
      (if ltb_ℤ i end then add_need_recomputehash_partition env i >> more else pure tt) s

module _ {S : Type 0} (env : Env S) (fuel : ℕ) where
  open env use {partitions, peers, get_fee_quote, start_height}

  -- `continue` on an error.
  abbrev skip : Error → Action S (Unit {0})
  skip e = pure tt

  abbrev fetch : Peer S → List Bytes → Action S (Unit {0})
  fetch peer txids =
      handle (sync_txs env fuel txids (node_get_tx_bytes peer)) (λ _. clear_cache_and_set_hash env)
        skip

  -- The body of the loop over the peers, from the hashes of the peer on.
  unfoldable pub compare_hashes : Peer S → ℤ → List Bytes → Action S (Unit {0})
  compare_hashes peer offset hashes = do
    infos ← get_partition_infos partitions offset compare_partitions_count
    elim (different_ids infos hashes) [
      | [] ↦ pure tt
      | id ∷ ids ↦ handle (peer.get_txids_by_partitions (id ∷ ids)) (fetch peer) skip
    ]

  unfoldable pub sync_peers : ℤ → List (Peer S) → Action S (Unit {0})
  unfolding compare_hashes
  sync_peers offset [] = pure tt
  sync_peers offset (peer ∷ rest) =
      handle (peer.get_partitions_hash offset compare_partitions_count) (compare_hashes peer offset)
        skip
      >> sync_peers offset rest

  -- The loop over offsets, for some number of rounds.
  unfoldable pub sync_offsets : ℕ → ℤ → ℤ → Action S (Unit {0})
  unfolding sync_peers
  sync_offsets zero offset end s = (hang, s)
  sync_offsets (suc rounds) offset end s =
      let more = sync_offsets rounds (offset +64 compare_partitions_count) end in
      (if leb_ℤ offset end
          then clear_cache_and_set_hash env >> (sync_peers offset peers >> more)
          else pure tt)
        s

  unfoldable pub sync_unconfirm_tx : List (Peer S) → Action S (Unit {0})
  sync_unconfirm_tx [] = pure tt
  sync_unconfirm_tx (peer ∷ rest) =
      handle peer.get_unconfirm_txids
        (λ txids. handle (sync_txs env fuel txids (node_get_tx_bytes peer)) (λ _. pure tt) skip)
        skip
      >> sync_unconfirm_tx rest

  -- `start`
  abbrev pub first_partition : Bool → ℤ → ℤ
  first_partition sync_all count =
      if ltb_ℤ (count -64 re_conpute_partition_count) (pos 0) || sync_all
      then pos 0
      else count -64 re_conpute_partition_count

  unfoldable pub sync_state : Bool → Action S (Unit {0})
  unfolding sync_offsets sync_unconfirm_tx note_partitions
  sync_state sync_all = do
    highest ← get_fee_quote
    count ← get_partitions_count partitions
    _ ← sync_unconfirm_tx peers
    let start = first_partition sync_all count
    let end = quotient (highest -64 start_height) partition_block_count +64 pos 1
    _ ← note_partitions env fuel start end
    sync_offsets fuel start end
