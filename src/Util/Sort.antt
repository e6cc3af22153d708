-- ===== src/Util/Sort.antt =====
-- `SortMsgTx` of util/bitcoin_util.go: it reorders a batch of transactions in place so that each
-- stands behind those of the batch that it spends from.
pub mod Perms
pub mod Order
pub mod Topological
use touchstone.Base.{
  ℕ, zero, suc, Str, str_eq, Bool, true, false, List, [], ◌∷◌, Option, none, some, length, set,
  get_elem?, any, if◌then◌else◌,
}
use touchstone.Wire.{MsgTx, TxIn}

-- `map[string]bool`
abbrev pub InResult : Type 0
InResult = Str → Option Bool

abbrev pub mark : Str → Bool → InResult → InResult
mark k b m h = if str_eq k h then some b else m h

-- `InResult, ok := txid2InResult[vin.PreviousOutPoint.Hash.String()]`, and the test on them.
abbrev pub is_pending : InResult → TxIn → Bool
is_pending m vin = elim (m vin.prev_hash) [ none ↦ false | some true ↦ false | some false ↦ true ]

-- `msgTxs[i], msgTxs[j] = msgTxs[j], msgTxs[i]` on the part of the slice from `i` on: what then
-- stands at `i`, and the rest.
abbrev pub swap_head : MsgTx → List MsgTx → ℕ → MsgTx × List MsgTx
swap_head t rest zero = (t, rest)
swap_head t rest (suc j) = elim (get_elem? rest j) [ none ↦ (t, rest) | some u ↦ (u, set rest j t) ]

module _ (tx_hash : MsgTx → Str) where
  -- The first loop: every transaction of the batch is noted as not yet in the result.
  unfoldable pub init_in_result : List MsgTx → InResult → InResult
  init_in_result [] m = m
  init_in_result (t ∷ rest) m = init_in_result rest (mark (tx_hash t) false m)

  -- The loop over `j`, from position `i` on: the first transaction that spends from none that
  -- is still to come, counted from `i`.
  unfoldable pub find_ready : InResult → List MsgTx → Option ℕ
  find_ready m [] = none
  find_ready m (t ∷ rest) =
      let later = find_ready m rest in
      if any (is_pending m) t.tx_in
      then elim later [ none ↦ none | some j ↦ some (suc j) ]
      else some zero

  -- The loop over `i`, on the part of the slice from `i` on; what stands before it is final. The
  -- counter is the number of rounds left.
  unfoldable pub sort_from : ℕ → InResult → List MsgTx → List MsgTx
  sort_from zero m txs = txs
  sort_from (suc n) m [] = []
  sort_from (suc n) m (t ∷ rest) = elim (find_ready m (t ∷ rest)) [
    | none ↦ t ∷ sort_from n m rest
    | some j ↦
        let (u, others) = swap_head t rest j in u ∷ sort_from n (mark (tx_hash u) true m) others
  ]

  unfoldable pub sort_msg_tx : List MsgTx → List MsgTx
  unfolding init_in_result find_ready sort_from
  sort_msg_tx txs = sort_from (length txs) (init_in_result txs (λ h. none)) txs
