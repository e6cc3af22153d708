-- ===== src/Services/Store/Steps.antt =====
-- Each call that changes the records keeps them valued, whichever way it ends.
use touchstone.Base.{
  ℕ, ℤ, Str, str_eq, Bool, Bool-cases, List, [], ◌∷◌, All, All-append, All-Mem, All-of_mem, inl,
  inr, Error, Action, pure, fail, Leaves, >>=-Leaves, Preserves, handle-Preserves, >>=-Preserves,
  refl, not, ◌==◌, ◌>>=◌, subst, sym, if◌then◌else◌,
}
use touchstone.Wire.{Wire, MsgTx}
use touchstone.Util.Sort.{sort_msg_tx}
use touchstone.Models.Collection.{is_duplicate}
use touchstone.Models.TxPoints.{
  TxPoint, add_tx_point, delete_tx_points, set_tx_point_state, is_point, tx_point_type_all,
}
use touchstone.Models.TxInfos.{
  delete_msg_tx, is_info_of, set_msg_tx_state, tx_state_open, tx_state_closed,
}
use touchstone.Services.Env.{Env}
use touchstone.Services.Validate.{TxInventory, parse_msg_tx}
use touchstone.Services.Validate.Reads.{parse_msg_tx-Leaves}
use touchstone.Services.Process.{
  add_tx_points, parse_and_add_tx_points, close, leave_open, is_unknow_utxo, process_msg_tx,
  ProcessMsgTxsResult, note_inventory, note_error, no_results, process_all, process_msg_txs,
}
use touchstone.Services.Process.Recorded.{KeepsPoints}
use touchstone.Services.Chain.{clear_msg_tx}
use touchstone.Services.Store.Valued.{IsValued, AreValued, AreValued-Leaves, parse_msg_tx-IsValued}

module _ {S : Type 0} (P : S → Type 0) where
  choice-Preserves :
      {A : Type 0} (b : Bool) (m n : Action S A)
      → Preserves P m
      → Preserves P n
      → Preserves P (if b then m else n)
  choice-Preserves b m n hm hn s h = elim (Bool-cases b) [
    | inl yes_it_is ↦ rw yes_it_is (hm s h)
    | inr no_it_is ↦ rw no_it_is (hn s h)
  ]

module _ {S : Type 0} (env : Env S) (points : S → List TxPoint)
    (kept : KeepsPoints env points) where
  abbrev Sound : S → Type 0
  Sound = AreValued env points kept

  insert-AreValued : (p : TxPoint) → IsValued p → Preserves Sound (env.tx_points.insert p)
  insert-AreValued p of_it s h = elim (kept.keeps.insert_either p s) [
    | inl added ↦
        subst (All IsValued) (sym added) (All-append IsValued (points s) (p ∷ []) h (of_it, tt))
    | inr same ↦ subst (All IsValued) (sym same) h
  ]

  add_tx_points-AreValued :
      (ps : List TxPoint) → All IsValued ps → Preserves Sound (add_tx_points env ps)
  unfolding add_tx_points add_tx_point
  add_tx_points-AreValued [] of_it s h = h
  add_tx_points-AreValued (p ∷ ps) of_it s h =
      let later = add_tx_points-AreValued ps of_it.1 in
      handle-Preserves Sound (λ _. add_tx_points env ps) (env.tx_points.insert p)
        (λ e. if not (is_duplicate e) then fail e else add_tx_points env ps)
        (insert-AreValued p of_it.0) (λ _. later)
        (λ e.
          choice-Preserves Sound (not (is_duplicate e)) (fail e) (add_tx_points env ps)
            (λ s' h'. h') later)
        s h

  parse_and_add_tx_points-AreValued :
      (tx : MsgTx) (timestamp : ℤ) → Preserves Sound (parse_and_add_tx_points env tx timestamp)
  unfolding parse_and_add_tx_points
  parse_and_add_tx_points-AreValued tx timestamp =
      let outs : TxInventory → Action S TxInventory =
        λ i. add_tx_points env i.vouts >>= λ _. pure i in
      >>=-Preserves Sound (λ i. add_tx_points env i.vins >>= λ _. outs i)
        (λ i. All IsValued i.vins × All IsValued i.vouts) (parse_msg_tx env tx timestamp)
        (AreValued-Leaves env points kept (parse_msg_tx env tx timestamp) (
          parse_msg_tx-Leaves env points kept.keeps.get_one_keeps kept.apart.get_one_leaves tx
            timestamp))
        (λ s i _ e. parse_msg_tx-IsValued env tx timestamp s i e)
        (λ i both.
          >>=-Preserves Sound (λ _. outs i) (λ _. Unit) (add_tx_points env i.vins)
            (add_tx_points-AreValued i.vins both.0) (λ s a _ e. tt)
            (λ _ _.
              >>=-Preserves Sound (λ _. pure i) (λ _. Unit) (add_tx_points env i.vouts)
                (add_tx_points-AreValued i.vouts both.1) (λ s a _ e. tt) (λ _ _ s h. h)))

  set_state-Leaves :
      (txid : Str) (i : TxInventory)
      → Leaves points (set_msg_tx_state env.tx_infos txid tx_state_closed >>= λ _. pure i)
  unfolding set_msg_tx_state
  set_state-Leaves txid i =
      >>=-Leaves points (λ _. pure i) (set_msg_tx_state env.tx_infos txid tx_state_closed)
        (kept.apart.update_one_leaves (is_info_of txid) _) (λ _ s. refl)

  leave_open-AreValued : (tx : MsgTx) (e : Error) → Preserves Sound (leave_open env tx e)
  unfolding set_msg_tx_state
  leave_open-AreValued tx e =
      let set = set_msg_tx_state env.tx_infos (Wire.tx_hash env.wire tx) tx_state_open in
      choice-Preserves Sound (not (is_unknow_utxo e)) (fail e) (set >>= λ _. fail e) (λ s h. h)
        (AreValued-Leaves env points kept (set >>= λ _. fail e) (
          >>=-Leaves points (λ _. fail e) set
            (kept.apart.update_one_leaves (is_info_of (Wire.tx_hash env.wire tx)) _) (λ _ s. refl)))

  pub process_msg_tx-AreValued :
      (tx : MsgTx) (timestamp : ℤ) → Preserves Sound (process_msg_tx env tx timestamp)
  unfolding process_msg_tx
  process_msg_tx-AreValued tx timestamp =
      handle-Preserves Sound (close env tx) (parse_and_add_tx_points env tx timestamp)
        (leave_open env tx) (parse_and_add_tx_points-AreValued tx timestamp)
        (λ i.
          AreValued-Leaves env points kept (close env tx i)
            (set_state-Leaves (Wire.tx_hash env.wire tx) i))
        (leave_open-AreValued tx)

  process_all-AreValued :
      (timestamp : ℤ) (txs : List MsgTx) (r : ProcessMsgTxsResult)
      → Preserves Sound (process_all env timestamp r txs)
  unfolding process_all
  process_all-AreValued timestamp [] r = λ s h. h
  process_all-AreValued timestamp (tx ∷ txs) r =
      handle-Preserves Sound (λ i. process_all env timestamp (note_inventory env r i) txs)
        (process_msg_tx env tx timestamp)
        (λ e. process_all env timestamp (note_error env tx r e) txs)
        (process_msg_tx-AreValued tx timestamp)
        (λ i. process_all-AreValued timestamp txs (note_inventory env r i))
        (λ e. process_all-AreValued timestamp txs (note_error env tx r e))

  pub process_msg_txs-AreValued :
      (txs : List MsgTx) (timestamp : ℤ) → Preserves Sound (process_msg_txs env txs timestamp)
  unfolding process_msg_txs
  process_msg_txs-AreValued txs timestamp =
      process_all-AreValued timestamp (sort_msg_tx env.wire.tx_hash txs) no_results

  pub clear_msg_tx-AreValued : (txid : Str) → Preserves Sound (clear_msg_tx env txid)
  unfolding clear_msg_tx delete_tx_points delete_msg_tx
  clear_msg_tx-AreValued txid =
      let test : TxPoint → Bool = λ p. str_eq p.txid txid in
      >>=-Preserves Sound (λ _. env.tx_infos.delete_all (λ d. str_eq d.txid txid)) (λ _. Unit)
        (env.tx_points.delete_all test)
        (λ s h.
          All-of_mem IsValued (points (env.tx_points.delete_all test s).1)
            (λ p m. All-Mem IsValued p (points s) h (kept.keeps.delete_some test p s m)))
        (λ s a _ e. tt)
        (λ _ _.
          AreValued-Leaves env points kept (env.tx_infos.delete_all (λ d. str_eq d.txid txid))
            (kept.apart.delete_all_leaves _))

  pub set_tx_point_state-AreValued :
      (txid : Str) (index : ℤ) (kind state : ℕ)
      → Preserves Sound (set_tx_point_state env.tx_points txid index kind state)
  unfolding set_tx_point_state
  set_tx_point_state-AreValued txid index kind state =
      let test = is_point txid index kind in
      let mark : TxPoint → TxPoint = λ p. record p { state = state } in
      choice-Preserves Sound (kind == tx_point_type_all) _ (env.tx_points.update_one test mark)
        (λ s h. h)
        (λ s h. All-of_mem IsValued (points (env.tx_points.update_one test mark s).1) (λ p m.
          elim (kept.keeps.update_some test mark p s m) [
            | inl old ↦ All-Mem IsValued p (points s) h old
            | inr (q, old, same) ↦ subst IsValued (sym same) (All-Mem IsValued q (points s) h old)
          ]))
