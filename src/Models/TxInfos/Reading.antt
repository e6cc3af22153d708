-- ===== src/Models/TxInfos/Reading.antt =====
-- `GetMsgTxInfo` on a transaction of many pieces.
use touchstone.Base.{
  ℕ, zero, suc, ◌≤◌, pos, Str, str_eq, List, ok, hang, ◌≡◌, refl, ◌∙◌, arith, length, ltb, false,
  >>=_ok, >>=_hang, if◌then◌else◌, [], none, ◌/◌, lift,
}
use touchstone.Wire.{Wire}
use touchstone.Models.Collection.{Collection}
use touchstone.Models.TxInfos.{
  RawTxInfo, Collected, collect, by_index, read_parts, get_msg_tx_info, finish_msg_tx_info,
}

module _ {S : Type 0} (col : Collection S RawTxInfo) (txid : Str) (s : S)
    (ds : List RawTxInfo) where
  many_docs : 64 ≤ length ds → ltb (length ds) 64 ≡ false
  many_docs le = ground arith

  read_parts-hang :
      col.get_many (λ d. str_eq d.txid txid) by_index (pos 0) (pos 128) s ≡ (ok ds, s)
      → 64 ≤ length ds
      → (f : ℕ) (c : Collected) → read_parts col f txid c s ≡ (hang, s)
  unfolding read_parts
  read_parts-hang e le zero c = refl
  read_parts-hang e le (suc f) c =
      let many = many_docs le in
      >>=_ok (col.get_many (λ d. str_eq d.txid txid) by_index (pos 0) (pos 128))
        (λ ds' s'.
          let more = read_parts col f txid (collect c ds') s' in
          if ltb (length ds') (128 / 2) then (ok (collect c ds'), s') else more)
        s e
      ∙ (rw many (read_parts-hang e le f (collect c ds)))

  -- If the query for the documents of a transaction gives 64 documents or more, and leaves the
  -- database as it is, then reading the transaction does not end, however many rounds it is given.
  pub get_msg_tx_info-hang :
      (wire : Wire) (f : ℕ)
      → col.get_many (λ d. str_eq d.txid txid) by_index (pos 0) (pos 128) s ≡ (ok ds, s)
      → 64 ≤ length ds
      → get_msg_tx_info col wire f txid s ≡ (hang, s)
  unfolding get_msg_tx_info
  get_msg_tx_info-hang wire f e le =
      >>=_hang (read_parts col f txid (record { parts = []; info = none }))
        (λ c. lift (finish_msg_tx_info col wire c)) s
        (read_parts-hang e le f (record { parts = []; info = none }))
