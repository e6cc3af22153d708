-- ===== src/Services/Inventories/Recorded.antt =====
-- The inventory of a processed transaction is what its check gave.
use touchstone.Base.{
  ℕ, suc, ◌<◌, ◌≡◌, refl, ap, ◌∙◌, arith, ℤ, pos, codes, Str, str_eq, str_eq_refl, str_eq_flip,
  Bool, true, false, not, ◌==◌, List, [], ◌∷◌, ◌++◌, All, All-map, select, select-append,
  select-none, select_self, length, ok, pure, fail, >>=_ok, if◌then◌else◌, Action,
}
use mathlib.Core.List.{append-nil}
use touchstone.Wire.{Wire, MsgTx}
use touchstone.Models.Kept.{sort_docs}
use touchstone.Models.Kept.Sorted.{insert_sorted-front, length-sort_docs, select-sort_docs}
use touchstone.Models.TxPoints.{
  TxPoint, by_index, get_tx_points, tx_point_type_vin, tx_point_type_vout,
}
use touchstone.Services.Env.{Env}
use touchstone.Services.Validate.{TxInventory, new_code_error}
use touchstone.Services.Validate.Places.{Between, parse_msg_tx-Between}
use touchstone.Services.Process.{process_msg_tx}
use touchstone.Services.Process.Recorded.{
  KeepsPoints, IsUnknown, AreOf, Between-AreOf, process_msg_tx-docs,
}
use touchstone.Services.Inventories.{
  tx_points2_tx_inventory, get_transaction_inventory, err_unknow_tx_code,
}
use touchstone.Services.Inventories.Totals.{is_vin, tx_points2_tx_inventory-select}

by_index_trans : (p q r : TxPoint) → by_index p q ≡ true → by_index q r ≡ true → by_index p r ≡ true
by_index_trans p q r h k = ground arith

by_index_total : (p q : TxPoint) → by_index p q ≡ false → by_index q p ≡ true
by_index_total p q h = ground arith

Between-later :
    (txid : Str) (kind lo hi j : ℕ) (p : TxPoint) (ps : List TxPoint)
    → Between txid kind lo hi ps
    → p.index ≡ pos j
    → j < lo
    → All (λ q. by_index p q ≡ true) ps
unfolding Between
Between-later txid kind lo hi j p [] b at below = tt
Between-later txid kind lo hi j p (q ∷ ps) (m, from, t, k, i, u, more) at below =
    (rw (at, i) (ground arith), Between-later txid kind (suc m) hi j p ps more at (omega arith))

sort_docs-Between :
    (txid : Str) (kind lo hi : ℕ) (ps : List TxPoint)
    → Between txid kind lo hi ps
    → sort_docs by_index ps ≡ ps
unfolding sort_docs Between
sort_docs-Between txid kind lo hi [] b = refl
sort_docs-Between txid kind lo hi (p ∷ ps) (j, from, t, k, i, u, more) =
    rw (sort_docs-Between txid kind (suc j) hi ps more) (
      insert_sorted-front by_index p ps
        (Between-later txid kind (suc j) hi j p ps more i (omega arith)))

-- Sorted, the records of a transaction are taken apart as they were put together.
inventory-sort_docs :
    (txid : Str) (hi hi' : ℕ) (inv : TxInventory)
    → Between txid tx_point_type_vin 0 hi inv.vins
    → Between txid tx_point_type_vout 0 hi' inv.vouts
    → tx_points2_tx_inventory (sort_docs by_index (inv.vins ++ inv.vouts)) ≡ inv
inventory-sort_docs txid hi hi' inv vins vouts =
    let other : TxPoint → Bool = λ p. not (is_vin p) in
    let all = inv.vins ++ inv.vouts in
    let in_of = Between-AreOf txid tx_point_type_vin 0 hi inv.vins vins in
    let out_of = Between-AreOf txid tx_point_type_vout 0 hi' inv.vouts vouts in
    let ins : select is_vin all ≡ inv.vins =
      select-append is_vin inv.vins inv.vouts
      ∙ (rw
          (
            select_self is_vin inv.vins (All-map (λ (p : TxPoint) h. rw (h.1) refl) inv.vins in_of),
            select-none is_vin inv.vouts
                (All-map (λ (p : TxPoint) h. rw (h.1) refl) inv.vouts out_of),
          )
          (append-nil inv.vins)) in
    let outs : select other all ≡ inv.vouts =
      select-append other inv.vins inv.vouts
      ∙ rw
          (
            select-none other inv.vins (All-map (λ (p : TxPoint) h. rw (h.1) refl) inv.vins in_of),
            select_self other inv.vouts
                (All-map (λ (p : TxPoint) h. rw (h.1) refl) inv.vouts out_of),
          )
          refl in
    tx_points2_tx_inventory-select (sort_docs by_index all)
    ∙ (rw
        (
          select-sort_docs by_index by_index_trans by_index_total is_vin all,
          select-sort_docs by_index by_index_trans by_index_total other all,
          ins,
          outs,
          sort_docs-Between txid tx_point_type_vin 0 hi inv.vins vins,
          sort_docs-Between txid tx_point_type_vout 0 hi' inv.vouts vouts,
        )
        refl)

module _ {S : Type 0} (env : Env S) (points : S → List TxPoint)
    (kept : KeepsPoints env points) where
  get_tx_points-docs :
      (txid : Str) (s : S) (ps : List TxPoint)
      → select (λ p. str_eq p.txid txid) (points s) ≡ ps
      → get_tx_points env.tx_points txid s ≡ (ok (sort_docs by_index ps), s)
  unfolding get_tx_points
  get_tx_points-docs txid s ps found =
      kept.keeps.get_all_sorted (λ p. str_eq p.txid txid) by_index s
      ∙ ap (λ x. (ok (sort_docs by_index x), s)) found

  select-AreOf :
      (txid : Str) (kind : ℕ) (ps : List TxPoint)
      → AreOf txid kind ps
      → select (λ p. str_eq p.txid txid) ps ≡ ps
  select-AreOf txid kind ps of_it =
      select_self (λ p. str_eq p.txid txid) ps
        (All-map (λ (p : TxPoint) h. rw (h.0) (str_eq_refl txid)) ps of_it)

  -- Over a collection that keeps its records: once a transaction of which there were none is
  -- processed without an error and has some, its inventory is the one that the call gave.
  pub get_transaction_inventory-process_msg_tx :
      (tx : MsgTx) (timestamp : ℤ) (s : S) (inv : TxInventory)
      → IsUnknown (Wire.tx_hash env.wire tx) (points s)
      → (process_msg_tx env tx timestamp s).0 ≡ ok inv
      → 0 < length (inv.vins ++ inv.vouts)
      → get_transaction_inventory env
          (Wire.tx_hash env.wire tx)
          (process_msg_tx env tx timestamp s).1
        ≡ (ok inv, (process_msg_tx env tx timestamp s).1)
  unfolding get_transaction_inventory
  get_transaction_inventory-process_msg_tx tx timestamp s inv new done some_left =
      let txid = Wire.tx_hash env.wire tx in
      let test : TxPoint → Bool = λ p. str_eq p.txid txid in
      let s' = (process_msg_tx env tx timestamp s).1 in
      let all = inv.vins ++ inv.vouts in
      let (recorded, parsed) = process_msg_tx-docs env points kept tx timestamp s inv new done in
      let ((hi, vins), (hi', vouts)) = parse_msg_tx-Between env tx timestamp s inv parsed in
      let ins =
        select-AreOf txid tx_point_type_vin inv.vins
          (Between-AreOf txid tx_point_type_vin 0 hi inv.vins vins) in
      let outs =
        select-AreOf txid tx_point_type_vout inv.vouts
          (Between-AreOf txid tx_point_type_vout 0 hi' inv.vouts vouts) in
      let old = select-none test (points s) (
        All-map {Q = λ p. test p ≡ false} (λ (p : TxPoint) h. str_eq_flip txid p.txid h) (points s)
          new) in
      let found : select test (points s') ≡ all =
        ap (select test) recorded
        ∙ (select-append test (points s) all
            ∙ rw (old, select-append test inv.vins inv.vouts, ins, outs) refl) in
      let some_there : (length (sort_docs by_index all) == 0) ≡ false =
        rw (length-sort_docs by_index all) (ground arith) in
      let answer : List TxPoint → Action S TxInventory = λ ps.
        if length ps == 0
        then fail (new_code_error err_unknow_tx_code (codes "unknow tx"))
        else pure (tx_points2_tx_inventory ps) in
      >>=_ok (get_tx_points env.tx_points txid) answer s' (get_tx_points-docs txid s' all found)
      ∙ rw some_there (ap (λ i. (ok i, s')) (inventory-sort_docs txid hi hi' inv vins vouts))
