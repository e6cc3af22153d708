-- ===== src/Services/Store/Reached.antt =====
-- The states that the calls of the server lead to from an empty collection of records.
use touchstone.Base.{ℕ, ℤ, pos, Str, List, [], ◌≡◌, sym, subst, All, ok, ◌-ℤ◌, ◌≤ℤ◌}
use touchstone.Wire.{MsgTx}
use touchstone.Models.TxPoints.{TxPoint, set_tx_point_state}
use touchstone.Services.Env.{Env}
use touchstone.Services.Validate.{TxInventory, max_create_badge_value, parse_msg_tx}
use touchstone.Services.Validate.Group.{total}
use touchstone.Services.Validate.Conserve.{Conserves}
use touchstone.Services.Process.{process_msg_txs}
use touchstone.Services.Process.Recorded.{KeepsPoints}
use touchstone.Services.Chain.{clear_msg_tx}
use touchstone.Services.Store.Valued.{IsValued, AreValued, AreValued-Conserves}
use touchstone.Services.Store.Steps.{
  process_msg_txs-AreValued, clear_msg_tx-AreValued, set_tx_point_state-AreValued,
}

module _ {S : Type 0} (env : Env S) (points : S → List TxPoint) where
  -- The calls that change the records, whichever way they end, between changes of anything else.
  pub data Reached : S → Type 0 where
    start : {s : S} → points s ≡ [] → Reached s
    processed :
        {s t : S} (txs : List MsgTx) (timestamp : ℤ)
        → Reached s
        → t ≡ (process_msg_txs env txs timestamp s).1
        → Reached t
    cleared : {s t : S} (txid : Str) → Reached s → t ≡ (clear_msg_tx env txid s).1 → Reached t
    marked :
        {s t : S} (txid : Str) (index : ℤ) (kind state : ℕ)
        → Reached s
        → t ≡ (set_tx_point_state env.tx_points txid index kind state s).1
        → Reached t
    elsewhere : {s t : S} → Reached s → points t ≡ points s → Reached t

  module _ (kept : KeepsPoints env points) where
    Reached-AreValued : (s : S) → Reached s → AreValued env points kept s
    Reached-AreValued s (Reached.start none_there) = subst (All IsValued) (sym none_there) tt
    Reached-AreValued t (Reached.processed {s} txs timestamp r e) =
        subst (AreValued env points kept) (sym e)
          (process_msg_txs-AreValued env points kept txs timestamp s (Reached-AreValued s r))
    Reached-AreValued t (Reached.cleared {s} txid r e) =
        subst (AreValued env points kept) (sym e)
          (clear_msg_tx-AreValued env points kept txid s (Reached-AreValued s r))
    Reached-AreValued t (Reached.marked {s} txid index kind state r e) =
        subst (AreValued env points kept) (sym e) (
          set_tx_point_state-AreValued env points kept txid index kind state s
            (Reached-AreValued s r))
    Reached-AreValued t (Reached.elsewhere {s} r same) =
        subst (All IsValued) (sym same) (Reached-AreValued s r)

    -- Over a collection that keeps its records: wherever batches have been processed, transactions cleared and points marked since there were
    -- no records, with errors or without, a transaction that passes the check and spends no more
    -- than an `int64` holds conserves badges: it makes no badge outputs; or spends none and issues
    -- its own; or moves badges of one code, and no more of them than it spends.
    pub Reached-Conserves :
        (s : S) (tx : MsgTx) (timestamp : ℤ) (inv : TxInventory)
        → Reached s
        → (parse_msg_tx env tx timestamp s).0 ≡ ok inv
        → pos 0 -ℤ total inv.vins ≤ℤ max_create_badge_value
        → Conserves env tx timestamp inv
    Reached-Conserves s tx timestamp inv r e high =
        (AreValued-Conserves env points kept tx timestamp s inv (Reached-AreValued s r) e high).1
