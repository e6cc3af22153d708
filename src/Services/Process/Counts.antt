-- ===== src/Services/Process/Counts.antt =====
-- Every transaction of a batch is answered.
use touchstone.Base.{
  ℕ, suc, ◌+◌, ℤ, List, [], ◌∷◌, ◌≡◌, refl, ap, ◌∙◌, arith, length, length-append, Outcome, ok, err,
  panic, hang, inl, inr, handle-eq-ok,
}
use mathlib.Core.List.{Perm, Permᴰ}
use mathlib.Core.Logic.{∥∥₁_elim}
use native.Mathlib.Nat.{ℕ_set}
use touchstone.Wire.{MsgTx}
use touchstone.Util.Sort.{sort_msg_tx}
use touchstone.Util.Sort.Perms.{sort_msg_tx-perm}
use touchstone.Services.Env.{Env}
use touchstone.Services.Process.{
  ProcessMsgTxsResult, no_results, note_inventory, note_error, process_msg_tx, process_all,
  process_msg_txs,
}

steps_length : {A : Type 0} {xs ys : List A} → Permᴰ xs ys → length xs ≡ length ys
steps_length Permᴰ.nil = refl
steps_length (Permᴰ.cons e p) = ap suc (steps_length p)
steps_length (Permᴰ.swap d e) = refl
steps_length (Permᴰ.trans p q) = steps_length p ∙ steps_length q

perm_length : {A : Type 0} {xs ys : List A} → Perm xs ys → length xs ≡ length ys
perm_length p = ∥∥₁_elim p (ℕ_set _ _) steps_length

abbrev answers : ProcessMsgTxsResult → ℕ
answers r = length r.tx_inventorys + length r.err_txs

module _ {S : Type 0} (env : Env S) (timestamp : ℤ) where
  process_all-answers :
      (txs : List MsgTx) (r r' : ProcessMsgTxsResult) (s : S)
      → (process_all env timestamp r txs s).0 ≡ ok r'
      → answers r' ≡ answers r + length txs
  unfolding process_all
  process_all-answers [] r r' s h =
      let same =
        ap
          (λ (o : Outcome ProcessMsgTxsResult). elim o [
            | ok x ↦ answers x
            | err e ↦ 0
            | panic ↦ 0
            | hang ↦ 0
          ])
          h in
      omega (arith, same)
  process_all-answers (tx ∷ txs) r r' s h =
      elim (handle-eq-ok (λ i. process_all env timestamp (note_inventory env r i) txs) r'
        (process_msg_tx env tx timestamp)
        (λ e. process_all env timestamp (note_error env tx r e) txs) s h) [
          | inl (i, _, next) ↦
              let more = process_all-answers txs (note_inventory env r i) r' _ next in
              omega (arith, more, length-append r.tx_inventorys (i ∷ []))
          | inr (e, _, next) ↦
              let more = process_all-answers txs (note_error env tx r e) r' _ next in
              omega (
                arith,
                more,
                length-append r.err_txs (record { txid = env.wire.tx_hash tx; msg = e.text } ∷ []),
              )
        ]

  -- If a batch is processed to the end, then there are as many inventories and errors together
  -- as there are transactions.
  pub process_msg_txs-answers :
      (txs : List MsgTx) (r : ProcessMsgTxsResult) (s : S)
      → (process_msg_txs env txs timestamp s).0 ≡ ok r
      → length r.tx_inventorys + length r.err_txs ≡ length txs
  unfolding process_msg_txs
  process_msg_txs-answers txs r s h =
      let answered = process_all-answers (sort_msg_tx env.wire.tx_hash txs) no_results r s h in
      let sorted = perm_length (sort_msg_tx-perm env.wire.tx_hash txs) in omega arith
