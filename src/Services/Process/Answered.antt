-- ===== src/Services/Process/Answered.antt =====
-- What `ProcessMsgTxs` answers for each transaction of a batch.
use touchstone.Base.{
  ℤ, Str, List, [], ◌∷◌, ◌≡◌, refl, subst, ◌⊎◌, inl, inr, ok, ok_injective, handle-eq-ok, All,
  All-Mem, Any, Any-append_left, Any-append_right,
}
use mathlib.Core.List.{Mem, Memᴰ}
use mathlib.Core.List.Perm
use mathlib.Core.Logic.{∥∥₁_map}
use touchstone.Wire.{MsgTx}
use touchstone.Util.Sort.{sort_msg_tx}
use touchstone.Util.Sort.Perms.{sort_msg_tx-perm}
use touchstone.Services.Env.{Env}
use touchstone.Services.Validate.{TxInventory}
use touchstone.Services.Process.{
  TxidMsg, ProcessMsgTxsResult, no_results, note_inventory, note_error, process_msg_tx, process_all,
  process_msg_txs,
}

-- An error that is told of an id.
abbrev pub IsErrorOf : Str → TxidMsg → Type 0
IsErrorOf txid m = m.txid ≡ txid

module _ {S : Type 0} (env : Env S) where
  -- What processing a transaction gave, at some time and in some state.
  abbrev pub IsInventoryOf : MsgTx → TxInventory → Type 0
  IsInventoryOf tx i = (timestamp : ℤ) × (s : S) × ((process_msg_tx env tx timestamp s).0 ≡ ok i)

  -- A transaction for which there is an error or an inventory.
  abbrev pub IsDone : ProcessMsgTxsResult → MsgTx → Type 0
  IsDone r tx =
      Any (IsErrorOf (env.wire.tx_hash tx)) r.err_txs ⊎ Any (IsInventoryOf tx) r.tx_inventorys

  module _ (timestamp : ℤ) where
    process_all-IsDone :
        (txs : List MsgTx) (r r' : ProcessMsgTxsResult) (s : S)
        → (process_all env timestamp r txs s).0 ≡ ok r'
        → ((tx : MsgTx) → IsDone r tx → IsDone r' tx) × All (IsDone r') txs
    unfolding process_all
    process_all-IsDone [] r r' s h = (λ tx done. subst (λ x. IsDone x tx) (ok_injective h) done, tt)
    process_all-IsDone (tx ∷ txs) r r' s h =
        elim (handle-eq-ok (λ i. process_all env timestamp (note_inventory env r i) txs) r'
          (process_msg_tx env tx timestamp)
          (λ e. process_all env timestamp (note_error env tx r e) txs) s h) [
            | inl (i, given, next) ↦
                let (on, rest) = process_all-IsDone txs (note_inventory env r i) r' _ next in
                (
                  λ u done. on u (elim done [
                    | inl error ↦ inl error
                    | inr there ↦
                        inr (Any-append_left (IsInventoryOf u) r.tx_inventorys (i ∷ []) there)
                  ]),
                  (
                    on tx (
                        inr (
                          Any-append_right (IsInventoryOf tx) r.tx_inventorys (i ∷ [])
                            (inl (timestamp, s, given)))),
                    rest,
                  ),
                )
            | inr (e, _, next) ↦
                let (on, rest) = process_all-IsDone txs (note_error env tx r e) r' _ next in
                let m : TxidMsg = record { txid = env.wire.tx_hash tx; msg = e.text } in
                (
                  λ u done. on u (elim done [
                    | inl error ↦
                        inl (
                          Any-append_left (IsErrorOf (env.wire.tx_hash u)) r.err_txs (m ∷ []) error)
                    | inr there ↦ inr there
                  ]),
                  (
                    on tx (
                        inl (
                          Any-append_right (IsErrorOf (env.wire.tx_hash tx)) r.err_txs (m ∷ [])
                            (inl refl))),
                    rest,
                  ),
                )
          ]

    -- If a batch is processed to the end, then there is an error or an inventory for each of its
    -- transactions.
    pub process_msg_txs-IsDone :
        (txs : List MsgTx) (r : ProcessMsgTxsResult) (s : S)
        → (process_msg_txs env txs timestamp s).0 ≡ ok r
        → (tx : MsgTx) → Memᴰ tx txs
        → ∥ IsDone r tx ∥₁
    unfolding process_msg_txs
    process_msg_txs-IsDone txs r s h tx m =
        let sorted : List MsgTx = sort_msg_tx env.wire.tx_hash txs in
        let (_, all) = process_all-IsDone sorted no_results r s h in
        let there : Mem tx sorted =
          (Perm.mem_iff {a = tx} (sort_msg_tx-perm env.wire.tx_hash txs)).0 ∣ m ∣₁ in
        ∥∥₁_map there (All-Mem (IsDone r) tx sorted all)
