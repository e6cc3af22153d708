-- ===== src/Models/TxInfos.antt =====
-- models/transaction_info.go: raw transactions, kept in pieces, and what is known of each.
pub mod Reading
pub mod Stored
pub mod RoundTrip
use touchstone.Base.{
  ℕ, zero, suc, ◌/◌, ◌+◌, ℤ, pos, negsuc, Str, Bytes, codes, str_eq, Bool, true, false, List, [],
  ◌∷◌, ◌++◌, map, Option, none, some, Action, Outcome, ok, err, panic, hang, bind, pure, lift, fail,
  crash, handle, new_error, ◌==◌, ◌==ℤ◌, leb_ℤ, ltb_ℤ, ltb, length, ◌&&◌, ◌||◌, not, if◌then◌else◌,
  ◌>>=◌, ◌>>◌,
}
use mathlib.Core.List.{flatten}
use touchstone.Wire.{Wire, MsgTx}
use touchstone.Util.Hex.{encode_to_string, decode_string}
use touchstone.Util.Common.{split_string, decimal}
use touchstone.Models.Collection.{Collection, is_duplicate, mongo_not_found}

abbrev pub max_segment_size : ℕ
max_segment_size = 131070

-- -1
abbrev pub tx_info_index : ℤ
tx_info_index = negsuc 0

-- -1
abbrev pub unconfirm_tx_height : ℤ
unconfirm_tx_height = negsuc 0

abbrev pub tx_state_new : ℕ
tx_state_new = 1

abbrev pub tx_state_open : ℕ
tx_state_open = 2

abbrev pub tx_state_closed : ℕ
tx_state_closed = 3

-- A document of the collection: the fields of `RawTxInfo`, and the field `hash` that only
-- `SetMsgTxHeightHash` writes and nothing reads. The fields `height` and `timestamp` are left out
-- of a document that is inserted with 0 there (`omitempty`).
pub record RawTxInfo : Type 0 where
  pub txid : Str
  pub index : ℤ
  pub text : Str
  pub height : Option ℤ
  pub block_hash : Str
  pub timestamp : Option ℤ
  pub state : ℕ
  pub hash : Option Str

-- `MsgTxBriefInfo`
pub record MsgTxBriefInfo : Type 0 where
  pub txid : Str
  pub height : ℤ
  pub block_hash : Str
  pub timestamp : ℤ
  pub state : ℕ

-- `MsgTxInfo`
pub record MsgTxInfo : Type 0 where
  pub msg_tx : MsgTx
  pub height : ℤ
  pub block_hash : Str
  pub timestamp : ℤ
  pub state : ℕ

abbrev pub omit_empty : ℤ → Option ℤ
omit_empty n = if n ==ℤ pos 0 then none else some n

abbrev pub or_zero : Option ℤ → ℤ
or_zero none = pos 0
or_zero (some n) = n

abbrev pub brief : RawTxInfo → MsgTxBriefInfo
brief d = record {
  txid = d.txid;
  height = or_zero d.height;
  block_hash = d.block_hash;
  timestamp = or_zero d.timestamp;
  state = d.state;
}

-- The condition on `txid` that picks the document with what is known of a transaction.
abbrev pub is_info_of : Str → RawTxInfo → Bool
is_info_of txid d = str_eq d.txid txid && d.index ==ℤ tx_info_index

-- A document with no height matches no condition on it.
abbrev pub height_in : ℤ → ℤ → Option ℤ → Bool
height_in start end none = false
height_in start end (some h) = leb_ℤ start h && ltb_ℤ h end

abbrev pub height_is : ℤ → Option ℤ → Bool
height_is n none = false
height_is n (some h) = h ==ℤ n

-- The condition on heights, with the unconfirmed transactions if asked for.
abbrev pub is_at_height : ℤ → ℤ → Bool → RawTxInfo → Bool
is_at_height start end unconfirm d =
    if unconfirm
    then height_in start end d.height || height_is unconfirm_tx_height d.height
    else height_in start end d.height

abbrev pub is_index : RawTxInfo → Bool
is_index d = d.index ==ℤ tx_info_index

abbrev pub by_index : RawTxInfo → RawTxInfo → Bool
by_index d e = leb_ℤ d.index e.index

-- The order of ids.
abbrev pub str_le : Str → Str → Bool
str_le [] t = true
str_le (x ∷ s) [] = false
str_le (x ∷ s) (y ∷ t) = let rest = str_le s t in if ltb x y then true else x == y && rest

abbrev pub by_txid : RawTxInfo → RawTxInfo → Bool
by_txid d e = str_le d.txid e.txid

-- The documents of a transaction as they are inserted.
abbrev pub piece_doc : Str → ℕ → Str → RawTxInfo
piece_doc txid i piece = record {
  txid = txid;
  index = pos i;
  text = piece;
  height = none;
  block_hash = [];
  timestamp = none;
  state = 0;
  hash = none;
}

abbrev pub info_doc : Str → ℤ → Str → ℤ → RawTxInfo
info_doc txid height block_hash timestamp = record {
  txid = txid;
  index = tx_info_index;
  text = [];
  height = omit_empty height;
  block_hash = block_hash;
  timestamp = omit_empty timestamp;
  state = tx_state_new;
  hash = none;
}

-- What the loop of `GetMsgTxInfo` collects: the parts in order, and what is known of the
-- transaction once its document has been read.
pub record Collected : Type 0 where
  pub parts : List Str
  pub info : Option RawTxInfo

abbrev pub collect : Collected → List RawTxInfo → Collected
collect c [] = c
collect c (d ∷ ds) =
    collect
      (if is_index d
        then record c { info = some d }
        else record c { parts = c.parts ++ (d.text ∷ []) })
      ds

module _ {S : Type 0} (col : Collection S RawTxInfo) where
  open col use {insert, get_one, get_all, get_many, count, update_one, delete_all}

  unfoldable pub is_msg_tx_closed : Str → Action S Bool
  is_msg_tx_closed txid = do
    n ← count (λ d. is_info_of txid d && d.state == tx_state_closed)
    pure (ltb_ℤ (pos 0) n)

  unfoldable pub set_msg_tx_state : Str → ℕ → Action S (Unit {0})
  set_msg_tx_state txid state =
      if state == tx_state_new || (state == tx_state_open || state == tx_state_closed)
      then update_one (is_info_of txid) (λ d. record d { state = state })
      else fail (new_error (codes "not support state " ++ decimal (pos state)))

  -- The updated field is `hash`, not `blockhash`.
  unfoldable pub set_msg_tx_height_hash : Str → ℤ → Str → Action S (Unit {0})
  set_msg_tx_height_hash txid height hash =
      update_one (is_info_of txid) (λ d. record d { height = some height; hash = some hash })

  unfoldable pub get_msg_tx_brief_info : Str → Action S MsgTxBriefInfo
  get_msg_tx_brief_info txid = do d ← get_one (is_info_of txid); pure (brief d)

  unfoldable pub get_msg_tx_brief_info_by_height_range :
      ℤ → ℤ → Bool → Action S (List MsgTxBriefInfo)
  get_msg_tx_brief_info_by_height_range start end unconfirm = do
    ds ← get_all (λ d. is_index d && is_at_height start end unconfirm d) (λ d e. true)
    pure (map brief ds)

  unfoldable pub delete_msg_tx : Str → Action S (Unit {0})
  delete_msg_tx txid = delete_all (λ d. str_eq d.txid txid)

  -- The ids, sorted by id.
  unfoldable pub get_txids_by_height_range : ℤ → ℤ → ℕ → Bool → Action S (List Str)
  get_txids_by_height_range start end state unconfirm = do
    ds ←
        get_all (λ d. is_index d && (d.state == state && is_at_height start end unconfirm d))
          by_txid
    pure (map (λ d. d.txid) ds)

  -- The loop of `GetMsgTxInfo`. The offset is never advanced: every round reads the same range.
  unfoldable pub read_parts : ℕ → Str → Collected → Action S Collected
  read_parts zero txid c s = (hang, s)
  read_parts (suc f) txid c s =
      ◌>>=◌ (get_many (λ d. str_eq d.txid txid) by_index (pos 0) (pos 128))
        (λ ds s'.
          let more = read_parts f txid (collect c ds) s' in
          if ltb (length ds) (128 / 2) then (ok (collect c ds), s') else more)
        s

  -- Inserts a document, and passes over a duplicate.
  unfoldable pub insert_once : RawTxInfo → Action S (Unit {0})
  insert_once d = handle (insert d) pure (λ e. if is_duplicate e then pure tt else fail e)

  unfoldable pub add_pieces : Str → ℕ → List Str → Action S (Unit {0})
  unfolding insert_once
  add_pieces txid i [] = pure tt
  add_pieces txid i (piece ∷ pieces) =
      insert_once (piece_doc txid i piece) >> add_pieces txid (i + 1) pieces

  module _ (wire : Wire) where
    open wire use {tx_hash, serialize, deserialize}

    abbrev deserialize_tx_str : Str → Outcome MsgTx
    deserialize_tx_str raw_tx = elim (decode_string raw_tx) [
      | none ↦ err (new_error (codes "encoding/hex"))
      | some bytes ↦ deserialize bytes
    ]

    -- What follows the loop.
    unfoldable pub finish_msg_tx_info : Collected → Outcome MsgTxInfo
    finish_msg_tx_info c = elim c.info [
      | none ↦ err (new_error mongo_not_found)
      | some d ↦ bind (deserialize_tx_str (flatten c.parts)) λ msg_tx. ok (record {
        msg_tx = msg_tx;
        height = or_zero d.height;
        block_hash = d.block_hash;
        timestamp = or_zero d.timestamp;
        state = d.state;
      })
    ]

    unfoldable pub get_msg_tx_info : ℕ → Str → Action S MsgTxInfo
    unfolding read_parts finish_msg_tx_info
    get_msg_tx_info fuel txid = do
      c ← read_parts fuel txid (record { parts = []; info = none })
      lift (finish_msg_tx_info c)

    unfoldable pub add_msg_tx_info : MsgTx → ℤ → Str → ℤ → Action S (Unit {0})
    unfolding add_pieces insert_once
    add_msg_tx_info msg_tx height block_hash timestamp =
        let txid = tx_hash msg_tx in
        elim (split_string (encode_to_string (serialize msg_tx)) max_segment_size) [
          | none ↦ λ s. (hang, s)
          | some pieces ↦
              add_pieces txid 0 pieces >> insert_once (info_doc txid height block_hash timestamp)
        ]
