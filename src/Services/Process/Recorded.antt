-- ===== src/Services/Process/Recorded.antt =====
-- What `ProcessMsgTx` and `ClearMsgTx` leave in collections that keep their documents.
use touchstone.Base.{
  ℕ, suc, ◌>>=◌, ◌≡◌, ◌≢◌, refl, sym, ap, ◌∙◌, ℤ, Str, str_eq, false, not, Bool-cases, inl, inr,
  List, [], ◌∷◌, ◌++◌, All, All-append, All-map, ok, Error, Action, pure, fail, handle_ok,
  handle-eq-ok, >>=-eq-ok, >>=_ok, subst,
}
use mathlib.Core.List.{append_assoc}
use touchstone.Wire.{Wire, MsgTx}
use touchstone.Models.Kept.{Keeps, Apart}
use touchstone.Models.TxPoints.{
  TxPoint, same_point, tx_point_type_vin, tx_point_type_vout, tx_point_state_may_be_unspent,
}
use touchstone.Models.TxInfos.{is_info_of, set_msg_tx_state, tx_state_closed, tx_state_open}
use touchstone.Services.Env.{Env}
use touchstone.Services.Validate.{TxInventory, parse_msg_tx}
use touchstone.Services.Validate.Places.{Between, parse_msg_tx-Between}
use touchstone.Services.Validate.Reads.{parse_msg_tx-Leaves}
use touchstone.Services.Process.{
  add_tx_points, parse_and_add_tx_points, close, leave_open, process_msg_tx, is_unknow_utxo,
}
use touchstone.Services.Process.Added.{Clear, add_tx_points-docs}

-- New records of one transaction and kind.
abbrev pub AreOf : Str → ℕ → List TxPoint → Type 0
AreOf txid kind =
    All λ p. (p.txid ≡ txid) × (p.kind ≡ kind) × (p.state ≡ tx_point_state_may_be_unspent)

pub Between-AreOf :
    (txid : Str) (kind lo hi : ℕ) (ps : List TxPoint)
    → Between txid kind lo hi ps
    → AreOf txid kind ps
unfolding Between
Between-AreOf txid kind lo hi [] b = tt
Between-AreOf txid kind lo hi (p ∷ ps) (j, from, t, k, i, u, more) =
    ((t, k, u), Between-AreOf txid kind (suc j) hi ps more)

-- The collection of points of an environment keeps its documents, and the calls of the collection
-- of transactions leave them alone.
pub record KeepsPoints {S : Type 0} (env : Env S) (points : S → List TxPoint) : Type 0 where
  pub keeps : Keeps env.tx_points points same_point
  pub apart : Apart env.tx_infos points

-- No record of the transaction.
abbrev pub IsUnknown : Str → List TxPoint → Type 0
IsUnknown txid = All λ e. str_eq txid e.txid ≡ false

module _ {S : Type 0} (env : Env S) (points : S → List TxPoint) (kept : KeepsPoints env points)
    (tx : MsgTx) (timestamp : ℤ) where
  abbrev hash : Str
  hash = Wire.tx_hash env.wire tx

  -- The loops over the records of a checked transaction.
  abbrev add_outs : TxInventory → Action S TxInventory
  add_outs i = add_tx_points env i.vouts >>= λ _. pure i

  abbrev add_both : TxInventory → Action S TxInventory
  add_both i = add_tx_points env i.vins >>= λ _. add_outs i

  add_both-docs :
      (s : S) (i inv : TxInventory) (hi hi' : ℕ)
      → IsUnknown hash (points s)
      → Between hash tx_point_type_vin 0 hi i.vins
      → Between hash tx_point_type_vout 0 hi' i.vouts
      → (add_both i s).0 ≡ ok inv
      → (points (add_both i s).1 ≡ points s ++ (inv.vins ++ inv.vouts)) × (i ≡ inv)
  unfolding Clear
  add_both-docs s i inv hi hi' new vins vouts done =
      let m = add_tx_points env i.vins in
      let (_, e, h) = >>=-eq-ok (λ _. add_outs i) inv m s done in
      let s' = (m s).1 in
      let m' = add_tx_points env i.vouts in
      let (_, e', h') = >>=-eq-ok (λ _. pure i) inv m' s' h in
      let same : i ≡ inv = cc in
      let free = All-map (λ e h. inl h) (points s) new in
      let added =
        add_tx_points-docs env points kept.keeps hash tx_point_type_vin 0 hi i.vins s vins free e in
      let free' : All (Clear hash tx_point_type_vout 0) (points s') =
        subst (All (Clear hash tx_point_type_vout 0)) (sym added) (
          All-append (Clear hash tx_point_type_vout 0) (points s) i.vins
            (All-map (λ e h. inl h) (points s) new)
            (All-map (λ p of_it. inr (inl (rw (of_it.1) refl))) i.vins
              (Between-AreOf hash tx_point_type_vin 0 hi i.vins vins))) in
      let added' =
        add_tx_points-docs env points kept.keeps hash tx_point_type_vout 0 hi' i.vouts s' vouts
          free' e' in
      let run =
        >>=_ok m (λ _. add_outs i) s (ap (λ r. (r, s')) e)
        ∙ >>=_ok m' (λ _. pure i) s' (ap (λ r. (r, (m' s').1)) e') in
      (
        ap (λ r. points r.1) run
            ∙ (added'
                ∙ (ap (λ x. x ++ i.vouts) added
                    ∙ (append_assoc (points s) i.vins i.vouts
                        ∙ ap (λ j. points s ++ (j.vins ++ j.vouts)) same))),
        same,
      )

  parse_and_add_tx_points-docs :
      (s : S) (inv : TxInventory)
      → IsUnknown hash (points s)
      → (parse_and_add_tx_points env tx timestamp s).0 ≡ ok inv
      → (points (parse_and_add_tx_points env tx timestamp s).1
          ≡ points s ++ (inv.vins ++ inv.vouts))
        × ((parse_msg_tx env tx timestamp s).0 ≡ ok inv)
  unfolding parse_and_add_tx_points
  parse_and_add_tx_points-docs s inv new done =
      let parse = parse_msg_tx env tx timestamp in
      let (i, parsed, h) = >>=-eq-ok add_both inv parse s done in
      let s' = (parse s).1 in
      let ((hi, vins), (hi', vouts)) = parse_msg_tx-Between env tx timestamp s i parsed in
      let read : points s' ≡ points s =
        parse_msg_tx-Leaves env points kept.keeps.get_one_keeps kept.apart.get_one_leaves tx
          timestamp s in
      let (all, same) =
        add_both-docs s' i inv hi hi' (subst (IsUnknown hash) (sym read) new) vins vouts h in
      (
        ap (λ r. points r.1) (>>=_ok parse add_both s (ap (λ r. (r, s')) parsed))
            ∙ (all ∙ ap (λ x. x ++ (inv.vins ++ inv.vouts)) read),
        parsed ∙ ap (λ j. ok j) same,
      )

  leave_open-err : (inv : TxInventory) (e : Error) (t : S) → (leave_open env tx e t).0 ≢ ok inv
  leave_open-err inv e t h = elim (Bool-cases (not (is_unknow_utxo e))) [
    | inl other ↦ let wrong = rw other at h in cc
    | inr unknown ↦
        let (_, _, wrong) =
          >>=-eq-ok (λ _. fail e) inv (set_msg_tx_state env.tx_infos hash tx_state_open) t
            (rw unknown at h) in
        cc
  ]

  -- Over a collection that keeps its records: once a transaction of which there were none is
  -- processed without an error, they are those that were there, followed by those of its inputs and
  -- of its outputs, as its check gave them.
  pub process_msg_tx-docs :
      (s : S) (inv : TxInventory)
      → IsUnknown hash (points s)
      → (process_msg_tx env tx timestamp s).0 ≡ ok inv
      → (points (process_msg_tx env tx timestamp s).1 ≡ points s ++ (inv.vins ++ inv.vouts))
        × ((parse_msg_tx env tx timestamp s).0 ≡ ok inv)
  unfolding process_msg_tx set_msg_tx_state
  process_msg_tx-docs s inv new done =
      let m = parse_and_add_tx_points env tx timestamp in
      elim (handle-eq-ok (close env tx) inv m (leave_open env tx) s done) [
        | inl (i, e, h) ↦
            let s' = (m s).1 in
            let set = set_msg_tx_state env.tx_infos hash tx_state_closed in
            let (_, e', h') = >>=-eq-ok (λ _. pure i) inv set s' h in
            let same : i ≡ inv = cc in
            let (all, parsed) = parse_and_add_tx_points-docs s inv new (e ∙ ap (λ j. ok j) same) in
            let run =
              handle_ok m (close env tx) s (leave_open env tx) (ap (λ r. (r, s')) e)
              ∙ >>=_ok set (λ _. pure i) s' (ap (λ r. (r, (set s').1)) e') in
            (
              ap (λ r. points r.1) run
                  ∙ (kept.apart.update_one_leaves (is_info_of hash) _ s' ∙ all),
              parsed,
            )
        | inr (e, failed, h) ↦ absurd (leave_open-err inv e (m s).1 h)
      ]
