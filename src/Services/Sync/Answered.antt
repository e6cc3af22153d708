-- ===== src/Services/Sync/Answered.antt =====
-- What `SyncTxs` answers for each id that it is given.
use touchstone.Base.{
  ℕ, Bytes, List, [], ◌≡◌, sym, subst, ◌∙◌, ◌⊎◌, inl, inr, ok, ok_injective, pure, >>=-eq-ok, ◌>>=◌,
  All, All-Mem, Any, Any-append_left, Any-append_right, Any-Mem, Any-map,
}
use mathlib.Core.List.{Memᴰ}
use mathlib.Core.Logic.{∥∥₁_map}
use touchstone.Wire.{MsgTx}
use touchstone.Util.Hex.{encode_to_string}
use touchstone.Services.Env.{Env}
use touchstone.Services.Process.{ProcessMsgTxsResult, process_msg_txs}
use touchstone.Services.Process.Answered.{IsErrorOf, IsInventoryOf, IsDone, process_msg_txs-IsDone}
use touchstone.Services.Sync.{
  TxSource, Found, nothing_found, SyncTxsResult, sync_result, sync_txs, look_up, add_all_fetched,
  not_found_errors,
}
use touchstone.Services.Sync.Looked.{IsTxOf, IsNoted, look_up-LooksOn}
use touchstone.Services.Sync.Fetched.{IsFetched, add_all_fetched-IsFetched, not_found_errors-lack}

module _ {S : Type 0} (env : Env S) (fuel : ℕ) where
  open env use {wire, now}

  -- The answer for an id: it is closed, or there is an error for it, or an error or an inventory
  -- for its transaction.
  abbrev pub IsAnswered : SyncTxsResult → Bytes → Type 0
  IsAnswered r txid =
      Any (λ c. c ≡ encode_to_string txid) r.already_closed_txs
      ⊎ Any (IsErrorOf (encode_to_string txid)) r.err_txs
      ⊎ ((tx : MsgTx) × IsTxOf env fuel (encode_to_string txid) tx
          × (Any (IsErrorOf (wire.tx_hash tx)) r.err_txs
              ⊎ Any (IsInventoryOf env tx) r.tx_inventorys))

  -- An id whose transaction is processed.
  processed-IsAnswered :
      (g : Found) (r : ProcessMsgTxsResult) (txid : Bytes)
      → ((tx : MsgTx) → Memᴰ tx g.need_process_tx → ∥ IsDone env r tx ∥₁)
      → Any (IsTxOf env fuel (encode_to_string txid)) g.need_process_tx
      → ∥ IsAnswered (sync_result env fuel g r) txid ∥₁
  processed-IsAnswered g r txid done there =
      let (tx, m, is) = Any-Mem (IsTxOf env fuel (encode_to_string txid)) g.need_process_tx there in
      ∥∥₁_map (done tx m) (λ h. inr (
        inr (
          tx,
          is,
          elim h [
            | inl error ↦ inl (
                Any-append_right (IsErrorOf (wire.tx_hash tx)) g.err_txs _ (
                  Any-append_right (IsErrorOf (wire.tx_hash tx))
                    (not_found_errors g.get_txids g.lack_txids) r.err_txs error))
            | inr i ↦ inr i
          ],
        )))

  noted-IsAnswered :
      (f g : Found) (r : ProcessMsgTxsResult) (txid : Bytes)
      → IsFetched env fuel f g
      → f.get_txids ≡ []
      → ((tx : MsgTx) → Memᴰ tx g.need_process_tx → ∥ IsDone env r tx ∥₁)
      → IsNoted env fuel f txid
      → ∥ IsAnswered (sync_result env fuel g r) txid ∥₁
  noted-IsAnswered f g r txid fetched none_yet done noted =
      let id = encode_to_string txid in
      elim noted [
        | inl closed ↦ ∣ inl (subst (Any (λ c. c ≡ id)) (sym fetched.closed_same) closed) ∣₁
        | inr (inl error) ↦
            ∣ inr (
              inl (
                Any-append_left (IsErrorOf id) g.err_txs _
                  (subst (Any (IsErrorOf id)) (sym fetched.errors_same) error))) ∣₁
        | inr (inr (inl there)) ↦
            processed-IsAnswered g r txid done (fetched.more (IsTxOf env fuel id) there)
        | inr (inr (inr lack)) ↦
            elim (not_found_errors-lack g.get_txids g.lack_txids txid
              (subst (Any (λ b. b ≡ txid)) (sym fetched.lack_same) lack)) [
                | inl got ↦
                    let hashes = fetched.hashes (subst (All _) (sym none_yet) tt) in
                    let (t, m, same) = Any-Mem (λ t. t ≡ id) g.get_txids got in
                    let here =
                      All-Mem (λ t. Any (λ tx. wire.tx_hash tx ≡ t) g.need_process_tx) t g.get_txids
                        hashes m in
                    processed-IsAnswered g r txid done
                      (Any-map (λ tx e. inl (e ∙ same)) g.need_process_tx here)
                | inr error ↦
                    ∣ inr (
                      inl (
                        Any-append_right (IsErrorOf id) g.err_txs _ (
                          Any-append_left (IsErrorOf id) (not_found_errors g.get_txids g.lack_txids)
                            r.err_txs error))) ∣₁
              ]
      ]

  -- If `SyncTxs` returns a result, then there is an answer for each id that it was given: the id
  -- is among the closed ones, or there is an error for it, or there is an error or an inventory,
  -- which processing gave, for the transaction that has this id or is stored under it.
  pub sync_txs-IsAnswered :
      (txids : List Bytes) (source : TxSource S) (r : SyncTxsResult) (s : S)
      → (sync_txs env fuel txids source s).0 ≡ ok r
      → (txid : Bytes) → Memᴰ txid txids
      → ∥ IsAnswered r txid ∥₁
  unfolding sync_txs
  sync_txs-IsAnswered txids source r s h txid m =
      let (f, looked, h₁) =
        >>=-eq-ok
          (λ f. do
            fetched ← source f.lack_txids
            g ← add_all_fetched env fuel f fetched
            time ← now
            done ← process_msg_txs env g.need_process_tx time
            pure (sync_result env fuel g done))
          r (look_up env fuel nothing_found txids) s h in
      let (fetched, _, h₂) =
        >>=-eq-ok
          (λ fetched. do
            g ← add_all_fetched env fuel f fetched
            time ← now
            done ← process_msg_txs env g.need_process_tx time
            pure (sync_result env fuel g done))
          r (source f.lack_txids) _ h₁ in
      let (g, added, h₃) =
        >>=-eq-ok
          (λ g. do
            time ← now
            done ← process_msg_txs env g.need_process_tx time
            pure (sync_result env fuel g done))
          r (add_all_fetched env fuel f fetched) _ h₂ in
      let (time, _, h₄) =
        >>=-eq-ok
          (λ time. do
            done ← process_msg_txs env g.need_process_tx time
            pure (sync_result env fuel g done))
          r now _ h₃ in
      let (done, processed, h₅) =
        >>=-eq-ok (λ done. pure (sync_result env fuel g done)) r
          (process_msg_txs env g.need_process_tx time) _ h₄ in
      let ((_, none_yet), noted) = look_up-LooksOn env fuel txids nothing_found f s looked in
      subst (λ x. ∥ IsAnswered x txid ∥₁) (ok_injective h₅)
        (noted-IsAnswered f g done txid (add_all_fetched-IsFetched env fuel fetched f g _ added)
          none_yet (process_msg_txs-IsDone env time g.need_process_tx done _ processed)
          (All-Mem (IsNoted env fuel f) txid txids noted m))
