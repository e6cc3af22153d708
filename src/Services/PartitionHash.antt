-- ===== src/Services/PartitionHash.antt =====
-- The hashes of partitions: the cache of the partitions to recompute, `ComputePartitionHash`,
-- `ComputeAndSetPartitionHash`, `ClearCacheAndSetHash` and what peers ask for.
pub mod Range
use touchstone.Base.{
  ℕ, suc, ◌+◌, ◌/◌, ℤ, pos, negsuc, Str, Bytes, codes, str_eq, Bool, List, [], ◌∷◌, ◌++◌, Option,
  none, some, Outcome, ok, err, panic, hang, bind, new_error, Action, pure, fail, lift, handle,
  ◌>>=◌, ◌>>◌, any, false, not, ltb_ℤ, ◌==ℤ◌, ◌-ℤ◌, ◌+64◌, ◌-64◌, to_int64, ◌*◌, if◌then◌else◌,
}
use touchstone.Util.Hex.{encode_to_string, decode_string}
use touchstone.Models.Collection.{is_duplicate}
use touchstone.Models.TxInfos.{get_txids_by_height_range, tx_state_closed}
use touchstone.Models.Partitions.{
  PartitionInfo, add_partition_info, update_partition_info, get_partition_infos,
}
use touchstone.Services.Env.{Env}

abbrev pub partition_block_count : ℕ
partition_block_count = 10

-- Go's division by a positive number, which rounds to 0.
abbrev pub quotient : ℤ → ℕ → ℤ
quotient (pos n) d = pos (n / d)
quotient (negsuc n) d = pos 0 -ℤ pos (suc n / d)

-- `id*conf.PARTITION_BLOCK_COUNT` in 64 bits.
abbrev pub times_count : ℤ → ℤ
times_count (pos n) = to_int64 (pos (n * partition_block_count))
times_count (negsuc n) = to_int64 (pos 0 -ℤ pos (suc n * partition_block_count))

-- `cache[id] = true`
unfoldable pub insert_id : ℤ → List ℤ → List ℤ
insert_id id cache = if any (λ i. i ==ℤ id) cache then cache else id ∷ cache

-- `hex.DecodeString`, with its error.
abbrev pub decode_hex : Str → Outcome Bytes
decode_hex s = elim (decode_string s) [
  | none ↦ err (new_error (codes "encoding/hex"))
  | some b ↦ ok b
]

-- The loop of `ComputePartitionHash`: what it writes to the hash.
unfoldable pub txid_bytes : List Str → Outcome Bytes
txid_bytes [] = ok []
txid_bytes (txid ∷ txids) =
    bind (decode_hex txid) λ bytes. bind (txid_bytes txids) λ rest. ok (bytes ++ rest)

-- `txidSet` and `getTxidsResponse.Txids`: the ids seen, and their bytes.
pub record Txids : Type 0 where
  pub seen : List Str
  pub txids : List Bytes

-- The loop over ids of `GetUnconfirmTxids` and of `GetPartitionsTxids`.
unfoldable pub add_txids : Txids → List Str → Outcome Txids
add_txids st [] = ok st
add_txids st (txid ∷ rest) =
    let more = add_txids st rest in
    let added = bind (decode_hex txid) λ bytes.
      add_txids (record { seen = txid ∷ st.seen; txids = st.txids ++ (bytes ∷ []) }) rest in
    if any (λ t. str_eq t txid) st.seen then more else added

-- The loop of `GetPartitionsHash`.
unfoldable pub partition_hashes : List PartitionInfo → Outcome (List Bytes)
partition_hashes [] = ok []
partition_hashes (p ∷ ps) =
    bind (decode_hex p.hash) λ hash. bind (partition_hashes ps) λ rest. ok (hash ∷ rest)

abbrev pub no_txids : Txids
no_txids = record { seen = []; txids = [] }

module _ {S : Type 0} (env : Env S) where
  open env use {tx_infos, partitions, start_height, get_cache, set_cache, sha256}

  unfoldable pub add_need_recomputehash_partition : ℤ → Action S (Unit {0})
  add_need_recomputehash_partition id s = (ok tt, set_cache (insert_id id (get_cache s)) s)

  -- The partition of a height.
  abbrev pub partition_of : ℤ → ℤ
  partition_of height = quotient (height -64 start_height) partition_block_count

  unfoldable pub add_need_recomputehash_partition_by_height : ℤ → Action S (Unit {0})
  unfolding add_need_recomputehash_partition
  add_need_recomputehash_partition_by_height height =
      if ltb_ℤ height start_height
      then pure tt
      else add_need_recomputehash_partition (partition_of height)

  unfoldable pub clear_partitions_cache : Action S (List ℤ)
  clear_partitions_cache s = (ok (get_cache s), set_cache [] s)

  -- The first height of a partition.
  abbrev pub first_height : ℤ → ℤ
  first_height id = start_height +64 times_count id

  -- The ids of the closed transactions of a partition.
  abbrev pub closed_txids : ℤ → Action S (List Str)
  closed_txids id =
      get_txids_by_height_range tx_infos (first_height id)
        (first_height id +64 pos partition_block_count) tx_state_closed false

  unfoldable pub compute_partition_hash : ℤ → Action S Bytes
  unfolding txid_bytes
  compute_partition_hash id = do
    txids ← closed_txids id
    written ← lift (txid_bytes txids)
    pure (sha256 written)

  unfoldable pub compute_and_set_partition_hash : ℤ → Action S (Unit {0})
  unfolding compute_partition_hash
  compute_and_set_partition_hash id = do
    hash ← compute_partition_hash id
    _ ←
        handle (add_partition_info partitions id (encode_to_string hash)) pure
          (λ e. if not (is_duplicate e) then fail e else pure tt)
    update_partition_info partitions id (encode_to_string hash)

  -- The loop of `ClearCacheAndSetHash`, in some order of the map.
  unfoldable pub set_hashes : List ℤ → Action S (Unit {0})
  unfolding compute_and_set_partition_hash
  set_hashes [] = pure tt
  set_hashes (id ∷ ids) =
      if id ==ℤ negsuc 0
      then set_hashes ids
      else compute_and_set_partition_hash id >> set_hashes ids

  unfoldable pub clear_cache_and_set_hash : Action S (Unit {0})
  unfolding clear_partitions_cache set_hashes
  clear_cache_and_set_hash = clear_partitions_cache >>= set_hashes

  unfoldable pub get_partitions_hash : ℤ → ℤ → Action S (List Bytes)
  get_partitions_hash offset limit = do
    ps ← get_partition_infos partitions offset limit
    lift (partition_hashes ps)

  unfoldable pub get_unconfirm_txids : Action S (List Bytes)
  get_unconfirm_txids = do
    txids ← get_txids_by_height_range tx_infos (negsuc 0) (pos 1) tx_state_closed false
    st ← lift (add_txids no_txids txids)
    pure st.txids

  -- The loop over partitions of `GetPartitionsTxids`.
  unfoldable pub add_partitions : Txids → List ℤ → Action S Txids
  add_partitions st [] = pure st
  add_partitions st (id ∷ ids) = do
    txids ← closed_txids id
    st' ← lift (add_txids st txids)
    add_partitions st' ids

  unfoldable pub get_partitions_txids : List ℤ → Action S (List Bytes)
  unfolding add_partitions
  get_partitions_txids ids = do st ← add_partitions no_txids ids; pure st.txids
