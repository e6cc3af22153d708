-- ===== src/Services/Chain/Cleared.antt =====
-- What `ClearMsgTx` takes away.
use touchstone.Base.{
  ℕ, ℤ, Bool, ◌≡◌, refl, ap, ◌∙◌, Str, str_eq, str_eq_refl, str_eq_flip, true, not, List, [], ◌++◌,
  All-map, select, select-append, select-none, select_self, ok, >>=-eq-ok, >>=_ok,
}
use mathlib.Core.List.{append-nil}
use touchstone.Wire.{Wire, MsgTx}
use touchstone.Models.TxPoints.{TxPoint, delete_tx_points, tx_point_type_vin, tx_point_type_vout}
use touchstone.Models.TxInfos.{delete_msg_tx}
use touchstone.Services.Env.{Env}
use touchstone.Services.Validate.{TxInventory}
use touchstone.Services.Validate.Places.{parse_msg_tx-Between}
use touchstone.Services.Process.{process_msg_tx}
use touchstone.Services.Process.Recorded.{
  KeepsPoints, IsUnknown, AreOf, Between-AreOf, process_msg_tx-docs,
}
use touchstone.Services.Chain.{clear_msg_tx}

module _ {S : Type 0} (env : Env S) (points : S → List TxPoint)
    (kept : KeepsPoints env points) where
  -- The records that stay are those of other transactions.
  pub clear_msg_tx-docs :
      (txid : Str) (s : S)
      → (clear_msg_tx env txid s).0 ≡ ok tt
      → points (clear_msg_tx env txid s).1 ≡ select (λ p. not (str_eq p.txid txid)) (points s)
  unfolding clear_msg_tx delete_tx_points delete_msg_tx
  clear_msg_tx-docs txid s done =
      let m = env.tx_points.delete_all (λ p. str_eq p.txid txid) in
      let n = env.tx_infos.delete_all (λ d. str_eq d.txid txid) in
      let (_, e, _) = >>=-eq-ok (λ _. n) tt m s done in
      let s' = (m s).1 in
      ap (λ r. points r.1) (>>=_ok m (λ _. n) s (ap (λ r. (r, s')) e))
      ∙ (kept.apart.delete_all_leaves _ s' ∙ kept.keeps.delete_ok _ s e)

  select-AreOf :
      (txid : Str) (kind : ℕ) (ps : List TxPoint)
      → AreOf txid kind ps
      → select (λ p. not (str_eq p.txid txid)) ps ≡ []
  select-AreOf txid kind ps of_it =
      select-none (λ p. not (str_eq p.txid txid)) ps
        (All-map (λ (p : TxPoint) h. rw (h.0) (rw (str_eq_refl txid) refl)) ps of_it)

  -- Over a collection that keeps its records: to process a transaction of which there are none, and
  -- to clear it, leaves the records as they were, if neither call has an error.
  pub clear_msg_tx-process_msg_tx :
      (tx : MsgTx) (timestamp : ℤ) (s : S) (inv : TxInventory)
      → IsUnknown (Wire.tx_hash env.wire tx) (points s)
      → (process_msg_tx env tx timestamp s).0 ≡ ok inv
      → (clear_msg_tx env (Wire.tx_hash env.wire tx) (process_msg_tx env tx timestamp s).1).0
        ≡ ok tt
      → points (clear_msg_tx env (Wire.tx_hash env.wire tx) (process_msg_tx env tx timestamp s).1).1
        ≡ points s
  clear_msg_tx-process_msg_tx tx timestamp s inv new done cleared =
      let txid = Wire.tx_hash env.wire tx in
      let other : TxPoint → Bool = λ p. not (str_eq p.txid txid) in
      let s' = (process_msg_tx env tx timestamp s).1 in
      let (all, parsed) = process_msg_tx-docs env points kept tx timestamp s inv new done in
      let ((hi, vins), (hi', vouts)) = parse_msg_tx-Between env tx timestamp s inv parsed in
      let ins =
        select-AreOf txid tx_point_type_vin inv.vins
          (Between-AreOf txid tx_point_type_vin 0 hi inv.vins vins) in
      let outs =
        select-AreOf txid tx_point_type_vout inv.vouts
          (Between-AreOf txid tx_point_type_vout 0 hi' inv.vouts vouts) in
      let old = select_self other (points s) (
        All-map {Q = λ p. other p ≡ true} (λ (p : TxPoint) h. rw (str_eq_flip txid p.txid h) refl)
          (points s) new) in
      clear_msg_tx-docs txid s' cleared
      ∙ (ap (select other) all
          ∙ (select-append other (points s) (inv.vins ++ inv.vouts)
              ∙ (rw (old, select-append other inv.vins inv.vouts, ins, outs)
                  (append-nil (points s)))))
