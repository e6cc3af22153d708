-- ===== src/Services/Process.antt =====
-- Transactions taken in: `ParseAndAddTxPoints`, `ProcessMsgTx` and `ProcessMsgTxs`.
pub mod Answered
pub mod Counts
pub mod Added
pub mod Recorded
use touchstone.Base.{
  ℤ, Str, codes, contains, Bool, List, [], ◌∷◌, ◌++◌, Action, Error, Outcome, ok, err, panic, hang,
  pure, fail, handle, ◌>>=◌, ◌>>◌, not, if◌then◌else◌,
}
use touchstone.Wire.{MsgTx}
use touchstone.Util.Sort.{sort_msg_tx}
use touchstone.Models.Collection.{is_duplicate}
use touchstone.Models.TxPoints.{TxPoint, add_tx_point}
use touchstone.Models.TxInfos.{set_msg_tx_state, tx_state_open, tx_state_closed}
use touchstone.Services.Env.{Env}
use touchstone.Services.Validate.{TxInventory, parse_msg_tx}

-- `TxidMsg`
pub record TxidMsg : Type 0 where
  pub txid : Str
  pub msg : Str

-- `ProcessMsgTxsResult`
pub record ProcessMsgTxsResult : Type 0 where
  pub tx_inventorys : List TxInventory
  pub err_txs : List TxidMsg

abbrev pub no_results : ProcessMsgTxsResult
no_results = record { tx_inventorys = []; err_txs = [] }

-- `strings.Contains(err.Error(), "unknow utxo")`
abbrev pub is_unknow_utxo : Error → Bool
is_unknow_utxo e = contains e.text (codes "unknow utxo")

module _ {S : Type 0} (env : Env S) where
  open env use {wire, tx_points, tx_infos}

  -- A loop of `ParseAndAddTxPoints`: a point that is there already is passed over.
  unfoldable pub add_tx_points : List TxPoint → Action S (Unit {0})
  add_tx_points [] = pure tt
  add_tx_points (p ∷ ps) =
      handle (add_tx_point tx_points p) (λ _. add_tx_points ps)
        (λ e. let rest = add_tx_points ps in if not (is_duplicate e) then fail e else rest)

  unfoldable pub parse_and_add_tx_points : MsgTx → ℤ → Action S TxInventory
  unfolding add_tx_points
  parse_and_add_tx_points tx timestamp = do
    inventory ← parse_msg_tx env tx timestamp
    _ ← add_tx_points inventory.vins
    _ ← add_tx_points inventory.vouts
    pure inventory

  -- What `ProcessMsgTx` does with an error of `ParseAndAddTxPoints`.
  abbrev pub leave_open : MsgTx → Error → Action S TxInventory
  leave_open tx e =
      if not (is_unknow_utxo e)
      then fail e
      else set_msg_tx_state tx_infos (wire.tx_hash tx) tx_state_open >> fail e

  abbrev pub close : MsgTx → TxInventory → Action S TxInventory
  close tx inventory = set_msg_tx_state tx_infos (wire.tx_hash tx) tx_state_closed >> pure inventory

  unfoldable pub process_msg_tx : MsgTx → ℤ → Action S TxInventory
  unfolding parse_and_add_tx_points
  process_msg_tx tx timestamp =
      handle (parse_and_add_tx_points tx timestamp) (close tx) (leave_open tx)

  abbrev pub note_inventory : ProcessMsgTxsResult → TxInventory → ProcessMsgTxsResult
  note_inventory r i = record r { tx_inventorys = r.tx_inventorys ++ (i ∷ []) }

  abbrev pub note_error : MsgTx → ProcessMsgTxsResult → Error → ProcessMsgTxsResult
  note_error tx r e = record r {
    err_txs = r.err_txs ++ (record { txid = wire.tx_hash tx; msg = e.text } ∷ []);
  }

  -- The loop of `ProcessMsgTxs`.
  unfoldable pub process_all : ℤ → ProcessMsgTxsResult → List MsgTx → Action S ProcessMsgTxsResult
  process_all timestamp r [] = pure r
  process_all timestamp r (tx ∷ txs) =
      handle (process_msg_tx tx timestamp) (λ i. process_all timestamp (note_inventory r i) txs)
        (λ e. process_all timestamp (note_error tx r e) txs)

  unfoldable pub process_msg_txs : List MsgTx → ℤ → Action S ProcessMsgTxsResult
  unfolding process_all
  process_msg_txs txs timestamp = process_all timestamp no_results (sort_msg_tx wire.tx_hash txs)
