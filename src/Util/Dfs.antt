-- ===== src/Util/Dfs.antt =====
-- `DfsSortAndDistinctMsgTxs` of util/bitcoin_util.go: it is to put what a transaction spends from
-- before it, and each transaction once.
pub mod Result
pub mod Distinct
use touchstone.Base.{
  ℕ, zero, suc, Str, str_eq, List, [], ◌∷◌, ◌++◌, reverse, Option, none, some, Outcome, ok, hang,
  bind, if◌then◌else◌,
}
use touchstone.Wire.{MsgTx, TxIn}

-- `map[string]*wire.MsgTx`
abbrev pub TxMap : Type 0
TxMap = Str → Option MsgTx

-- `delete(txid2MsgTxs, …)`
abbrev pub delete : Str → TxMap → TxMap
delete k m h = if str_eq k h then none else m h

-- The transactions of the batch that the inputs spend from.
unfoldable pub pre_txs : TxMap → List TxIn → List MsgTx
pre_txs m [] = []
pre_txs m (vin ∷ vins) =
    let rest = pre_txs m vins in elim (m vin.prev_hash) [ none ↦ rest | some t ↦ t ∷ rest ]

module _ (tx_hash : MsgTx → Str) where
  -- The first loop: `txid2MsgTxs[msgTx.TxHash().String()] = msgTx`.
  unfoldable pub map_txs : List MsgTx → TxMap → TxMap
  map_txs [] m = m
  map_txs (t ∷ ts) m = map_txs ts (λ h. if str_eq (tx_hash t) h then some t else m h)

  -- The rounds of `for msgTxList.Len() > 0` that are left: the ids that they append. It is the id
  -- of `msgTx`, not of the transaction that is taken from the list.
  unfoldable pub visit : ℕ → TxMap → MsgTx → List MsgTx → Outcome (List Str)
  unfolding pre_txs
  visit f m msg_tx [] = ok []
  visit zero m msg_tx (t ∷ ts) = hang
  visit (suc f) m msg_tx (t ∷ ts) =
      bind (visit f m msg_tx (ts ++ pre_txs m t.tx_in)) λ txids. ok (tx_hash msg_tx ∷ txids)

  unfoldable pub visit_all : ℕ → TxMap → List MsgTx → Outcome (List Str)
  unfolding visit
  visit_all f m [] = ok []
  visit_all f m (t ∷ ts) =
      bind (visit f m t (t ∷ [])) λ txids. bind (visit_all f m ts) λ rest. ok (txids ++ rest)

  -- The last loop, over the ids from the last on.
  unfoldable pub collect_txs : TxMap → List Str → List MsgTx
  collect_txs m [] = []
  collect_txs m (txid ∷ txids) = elim (m txid) [
    | none ↦ collect_txs m txids
    | some t ↦ t ∷ collect_txs (delete (tx_hash t) m) txids
  ]

  unfoldable pub dfs_sort_and_distinct_msg_txs : ℕ → List MsgTx → Outcome (List MsgTx)
  unfolding map_txs visit_all collect_txs
  dfs_sort_and_distinct_msg_txs f txs =
      let m = map_txs txs (λ h. none) in
      bind (visit_all f m txs) λ txids. ok (collect_txs m (reverse txids))
