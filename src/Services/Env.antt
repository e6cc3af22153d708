-- ===== src/Services/Env.antt =====
-- What the server works with and does not implement: the Bitcoin libraries, the collections, the
-- miner's API, the clock. All of it reads and changes a state `S`.
use touchstone.Base.{ℤ, Str, Bytes, Bool, List, Action, Outcome}
use touchstone.Wire.{Wire}
use touchstone.Util.Script.{BtcUtil}
use touchstone.Models.Collection.{Collection}
use touchstone.Models.TxPoints.{TxPoint}
use touchstone.Models.TxInfos.{RawTxInfo}
use touchstone.Models.Partitions.{PartitionInfo}
use touchstone.Models.AddrInfos.{AddrInfo}

-- The fields of `mapi.TxStatePayload` that the server reads.
pub record TxState : Type 0 where
  pub return_result : Str
  pub result_description : Str
  pub block_hash : Str
  pub block_height : ℤ

-- A peer as the server calls it.
pub record Peer (S : Type 0) : Type 0 where
  pub get_txs : List Bytes → Action S (List Bytes)
  pub get_partitions_hash : ℤ → ℤ → Action S (List Bytes)
  pub get_txids_by_partitions : List ℤ → Action S (List Bytes)
  pub get_unconfirm_txids : Action S (List Bytes)

pub record Env (S : Type 0) : Type 1 where
  pub wire : Wire
  pub btc : BtcUtil
  pub tx_points : Collection S TxPoint
  pub tx_infos : Collection S RawTxInfo
  pub partitions : Collection S PartitionInfo
  pub addr_infos : Collection S AddrInfo
  -- The aggregation of `AddrInfoRepository.GetUserTxPoints`: the points whose address is that of
  -- an address document that passes the first test, and which pass the second.
  pub aggregate_tx_points : (AddrInfo → Bool) → (TxPoint → Bool) → Action S (List TxPoint)
  -- `MapiClient.GetTxState`
  pub get_tx_state : Str → Action S TxState
  -- `MapiClient.GetFeeQuote`, of which only the current highest block height is read
  pub get_fee_quote : Action S ℤ
  -- `time.Now().Unix()`
  pub now : Action S ℤ
  -- `*conf.GStartHeight`
  pub start_height : ℤ
  -- The field `NeedRecomputehashPartitionsCache` of the server, read and set under its lock: a map
  -- from partitions to `true`, so the partitions in it.
  pub get_cache : S → List ℤ
  pub set_cache : List ℤ → S → S
  -- `chainhash.NewHashFromStr`, and the form of its result that `String` gives
  pub new_hash_from_str : Str → Outcome Str
  -- `sort.Sort`, given `Less`
  pub sort : {A : Type 0} → (A → A → Bool) → List A → List A
  -- The calls of the map `peers`, in the order of an iteration over it
  pub peers : List (Peer S)
  -- `sha256.New()`, and the sum of what is written to it
  pub sha256 : Bytes → Bytes
