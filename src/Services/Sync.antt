-- ===== src/Services/Sync.antt =====
-- Transactions fetched and taken in: `SyncTxs`, its sources of transactions, `SendRawTransaction`,
-- `GetTxs`, and the rounds of synchronisation with the peers.
pub mod Looked
pub mod Fetched
pub mod Answered
pub mod Rounds
pub mod Ends
use touchstone.Base.{
  ℕ, ◌+◌, ℤ, pos, Str, Bytes, codes, str_eq, Bool, true, false, List, [], ◌∷◌, ◌++◌, map, any,
  Option, none, some, Outcome, ok, err, panic, hang, bind, new_error, Error, Action, pure, fail,
  lift, handle, ◌>>=◌, ◌>>◌, not, length, ltb, ◌==◌, if◌then◌else◌,
}
use touchstone.Wire.{Wire, MsgTx}
use touchstone.Util.Hex.{encode_to_string}
use touchstone.Util.Script.{must_decode}
use touchstone.Models.Collection.{is_not_found}
use touchstone.Models.TxInfos.{
  MsgTxBriefInfo, MsgTxInfo, get_msg_tx_brief_info, get_msg_tx_info, add_msg_tx_info,
  tx_state_closed, unconfirm_tx_height,
}
use touchstone.Services.Env.{Env, TxState, Peer}
use touchstone.Services.Validate.{TxInventory}
use touchstone.Services.Process.{TxidMsg, ProcessMsgTxsResult, process_msg_txs}
use touchstone.Services.Inventories.{get_transaction_inventory}
use touchstone.Services.PartitionHash.{decode_hex, add_need_recomputehash_partition_by_height}

-- `TxSource.GetTxBytes`
abbrev pub TxSource : Type 0 → Type 0
TxSource S = List Bytes → Action S (List Bytes)

-- `Node.GetTxBytes`
unfoldable pub node_get_tx_bytes : {S : Type 0} → Peer S → TxSource S
node_get_tx_bytes peer [] = pure []
node_get_tx_bytes peer (txid ∷ txids) = peer.get_txs (txid ∷ txids)

-- `LocalSingleTxSource.GetTxBytes`
unfoldable pub local_get_tx_bytes : {S : Type 0} → Bytes → Bytes → TxSource S
local_get_tx_bytes txid tx_bytes [] = pure []
local_get_tx_bytes txid tx_bytes (t ∷ []) =
    if not (str_eq txid t) then fail (new_error (codes "tx not found")) else pure (tx_bytes ∷ [])
local_get_tx_bytes txid tx_bytes (_ ∷ _ ∷ _) = fail (new_error (codes "only support single tx"))

-- `SyncTxsResult`
pub record SyncTxsResult : Type 0 where
  pub tx_inventorys : List TxInventory
  pub err_txs : List TxidMsg
  pub already_closed_txs : List Str

-- The variables of `SyncTxs`; the map of states by id is a list of pairs, the last first.
pub record Found : Type 0 where
  pub lack_txids : List Bytes
  pub tx_states : List (Str × TxState)
  pub need_process_tx : List MsgTx
  pub already_closed : List Str
  pub err_txs : List TxidMsg
  pub get_txids : List Str

abbrev pub nothing_found : Found
nothing_found = record {
  lack_txids = [];
  tx_states = [];
  need_process_tx = [];
  already_closed = [];
  err_txs = [];
  get_txids = [];
}

-- `txStatesCache[txid]`
unfoldable pub lookup_state : Str → List (Str × TxState) → Option TxState
lookup_state txid [] = none
lookup_state txid ((k, t) ∷ states) =
    let rest = lookup_state txid states in if str_eq k txid then some t else rest

-- `height` of a transaction that has been fetched.
abbrev pub height_of : TxState → ℤ
height_of t = if not (str_eq t.block_hash []) then t.block_height else unconfirm_tx_height

-- `mapi.RETURN_RESULT_FAILURE`
abbrev pub return_result_failure : Str
return_result_failure = codes "failure"

-- The loop over `lackTxids`: an error for each transaction that the source did not give.
unfoldable pub not_found_errors : List Str → List Bytes → List TxidMsg
not_found_errors got [] = []
not_found_errors got (txid ∷ txids) =
    let rest = not_found_errors got txids in
    let id = encode_to_string txid in
    if any (λ t. str_eq t id) got
    then rest
    else record { txid = id; msg = codes "transaction not found" } ∷ rest

-- With the fuel of `get_msg_tx_info`.
module _ {S : Type 0} (env : Env S) (fuel : ℕ) where
  open env use {wire, tx_infos, get_tx_state, now}

  -- A transaction that is not in the collection.
  abbrev pub note_lack : Bytes → Found → TxState → Found
  note_lack txid f t =
      if not (str_eq t.return_result return_result_failure)
      then record f {
        tx_states = (encode_to_string txid, t) ∷ f.tx_states;
        lack_txids = f.lack_txids ++ (txid ∷ []);
      }
      else record f {
        err_txs =
            f.err_txs ++ (record { txid = encode_to_string txid; msg = t.result_description } ∷ []);
      }

  abbrev pub look_up_lack : Bytes → Found → Error → Action S Found
  look_up_lack txid f e =
      if not (is_not_found e)
      then fail e
      else get_tx_state (encode_to_string txid) >>= λ t. pure (note_lack txid f t)

  -- A transaction that is in it.
  abbrev pub look_up_known : Bytes → Found → MsgTxBriefInfo → Action S Found
  look_up_known txid f i =
      if i.state == tx_state_closed
      then pure (record f { already_closed = f.already_closed ++ (encode_to_string txid ∷ []) })
      else do
        info ← get_msg_tx_info tx_infos wire fuel (encode_to_string txid)
        _ ← add_need_recomputehash_partition_by_height env i.height
        pure (record f { need_process_tx = f.need_process_tx ++ (info.msg_tx ∷ []) })

  unfoldable pub look_up : Found → List Bytes → Action S Found
  look_up f [] = pure f
  look_up f (txid ∷ txids) = do
    f' ←
        handle (get_msg_tx_brief_info tx_infos (encode_to_string txid)) (look_up_known txid f)
          (look_up_lack txid f)
    look_up f' txids

  -- One round of the loop over what the source gives.
  unfoldable pub add_fetched : Found → MsgTx → Action S Found
  add_fetched f tx = elim (lookup_state (wire.tx_hash tx) f.tx_states) [
    | none ↦ fail (new_error (codes "txState not found"))
    | some t ↦ do
      time ← now
      _ ← add_msg_tx_info tx_infos wire tx (height_of t) t.block_hash time
      _ ← add_need_recomputehash_partition_by_height env t.block_height
      _ ← lift (must_decode (wire.tx_hash tx))
      pure (record f {
        get_txids = wire.tx_hash tx ∷ f.get_txids;
        need_process_tx = f.need_process_tx ++ (tx ∷ []);
      })
  ]

  unfoldable pub add_all_fetched : Found → List Bytes → Action S Found
  unfolding add_fetched
  add_all_fetched f [] = pure f
  add_all_fetched f (bytes ∷ rest) = do
    tx ← lift (wire.deserialize bytes)
    f' ← add_fetched f tx
    add_all_fetched f' rest

  abbrev pub sync_result : Found → ProcessMsgTxsResult → SyncTxsResult
  sync_result f r = record {
    already_closed_txs = f.already_closed;
    err_txs = f.err_txs ++ (not_found_errors f.get_txids f.lack_txids ++ r.err_txs);
    tx_inventorys = r.tx_inventorys;
  }

  -- Without the messages to the peers, whose answers are not looked at.
  unfoldable pub sync_txs : List Bytes → TxSource S → Action S SyncTxsResult
  unfolding look_up add_all_fetched
  sync_txs txids source = do
    f ← look_up nothing_found txids
    fetched ← source f.lack_txids
    g ← add_all_fetched f fetched
    time ← now
    r ← process_msg_txs env g.need_process_tx time
    pure (sync_result g r)

  -- What `SendRawTransaction` makes of the result.
  unfoldable pub answer : Str → SyncTxsResult → Action S TxInventory
  answer txid r = elim r.err_txs [
    | e ∷ _ ↦ fail (new_error e.msg)
    | [] ↦ elim r.tx_inventorys [ i ∷ _ ↦ pure i | [] ↦ get_transaction_inventory env txid ]
  ]

  unfoldable pub send_raw_transaction : Str → Action S TxInventory
  unfolding answer
  send_raw_transaction raw_tx = do
    bytes ← lift (decode_hex raw_tx)
    tx ← lift (wire.deserialize bytes)
    txid ← lift (must_decode (wire.tx_hash tx))
    r ← sync_txs (txid ∷ []) (local_get_tx_bytes txid bytes)
    answer (wire.tx_hash tx) r

  -- One round of `GetTxs`: transactions that are not there are passed over.
  abbrev pub missing_tx : Error → Action S (List Bytes)
  missing_tx e = if not (is_not_found e) then fail e else pure []

  unfoldable pub get_txs : List Bytes → Action S (List Bytes)
  get_txs [] = pure []
  get_txs (txid ∷ txids) = do
    found ←
        handle (get_msg_tx_info tx_infos wire fuel (encode_to_string txid))
          (λ info. pure (wire.serialize info.msg_tx ∷ [])) missing_tx
    rest ← get_txs txids
    pure (found ++ rest)
