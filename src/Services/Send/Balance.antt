-- ===== src/Services/Send/Balance.antt =====
-- The inputs and the change of the transaction that `SendBadgeToAddress` makes.
use touchstone.Base.{
  ℕ, suc, ◌≡◌, refl, sym, ap, ◌∙◌, ℤ, pos, Str, List, [], ◌∷◌, ◌++◌, Outcome, ok, bind-eq-ok, take,
  Bool-cases, inl, inr, leb_ℤ, ltb_ℤ, false, ◌+64◌, ◌-64◌, ◌⊎◌, true, to_uint64, ◌%◌, ◌^◌, subst,
  ok_injective, arith,
}
use touchstone.Wire.{MsgTx, TxIn, TxOut, Wire}
use touchstone.Util.Script.{BtcUtil}
use touchstone.Models.TxPoints.{TxPoint}
use touchstone.Services.Utxos.{sum_from, sum_tx_points}
use touchstone.Services.Send.{
  Picked, pick_vins, inputs_of, change_outputs, nothing_picked, assemble,
}

-- There are no points, or without the last of them their value, from a first one on, falls short.
abbrev pub IsNeeded : ℤ → ℤ → List TxPoint → Type 0
IsNeeded vout_value start ps =
    (ps ≡ [])
    ⊎ ((front : List TxPoint) × (last : TxPoint) × (ps ≡ front ++ (last ∷ []))
        × (ltb_ℤ (sum_from start front) vout_value ≡ true))

IsNeeded-cons :
    (vout_value start : ℤ) (p : TxPoint) (ps : List TxPoint)
    → leb_ℤ vout_value start ≡ false
    → IsNeeded vout_value (start +64 p.value) ps
    → IsNeeded vout_value start (p ∷ ps)
unfolding sum_from
IsNeeded-cons vout_value start p ps short (inl none_more) =
    inr ([], p, ap (◌∷◌ p) none_more, ground arith)
IsNeeded-cons vout_value start p ps short (inr (front, last, e, less)) =
    inr (p ∷ front, last, ap (◌∷◌ p) e, less)

-- What the loop adds to what it has.
pub record Picks (vout_value : ℤ) (points : List TxPoint) (st : Picked) : Type 0 where
  pub taken : ℕ
  pub used : (pick_vins vout_value points st).used_vins ≡ st.used_vins ++ take taken points
  pub value : (pick_vins vout_value points st).vin_value ≡ sum_from st.vin_value (take taken points)
  pub needed : IsNeeded vout_value st.vin_value (take taken points)

append_none : {A : Type 0} (xs : List A) → xs ≡ xs ++ []
append_none [] = refl
append_none (x ∷ xs) = ap (◌∷◌ x) (append_none xs)

append_one :
    {A : Type 0} (xs : List A) (x : A) (ys : List A) → (xs ++ (x ∷ [])) ++ ys ≡ xs ++ (x ∷ ys)
append_one [] x ys = refl
append_one (z ∷ xs) x ys = ap (◌∷◌ z) (append_one xs x ys)

abbrev take_one : Picked → TxPoint → Picked
take_one st p = record {
  used_vins = st.used_vins ++ (p ∷ []);
  vin_value = st.vin_value +64 p.value;
}

pick_vins-Picks :
    (vout_value : ℤ) (points : List TxPoint) (st : Picked) → Picks vout_value points st
unfolding pick_vins sum_from
pick_vins-Picks vout_value [] st = record {
  taken = 0;
  used = append_none st.used_vins;
  value = refl;
  needed = inl refl;
}
pick_vins-Picks vout_value (p ∷ ps) st = elim (Bool-cases (leb_ℤ vout_value st.vin_value)) [
  | inl enough ↦ record {
    taken = 0;
    used = rw enough (append_none st.used_vins);
    value = rw enough refl;
    needed = inl refl;
  }
  | inr short ↦
      let more = pick_vins-Picks vout_value ps (take_one st p) in
      record {
        taken = suc more.taken;
        used = rw short (more.used ∙ append_one st.used_vins p (take more.taken ps));
        value = rw short more.value;
        needed = IsNeeded-cons vout_value st.vin_value p (take more.taken ps) short more.needed;
      }
]

-- An input that spends a point, by the hash and the index (32 bits of it), and is not signed.
pub record Spends (new_hash : Str → Outcome Str) (p : TxPoint) (i : TxIn) : Type 0 where
  pub hash : new_hash p.txid ≡ ok i.prev_hash
  pub index : i.prev_index ≡ to_uint64 p.index % 2 ^ 32
  pub unsigned : i.signature_script ≡ []

-- One input for each point, in order.
abbrev pub SpendAll : (Str → Outcome Str) → List TxPoint → List TxIn → Type 0
SpendAll new_hash [] [] = Unit
SpendAll new_hash [] (i ∷ ins) = ⊥
SpendAll new_hash (p ∷ ps) [] = ⊥
SpendAll new_hash (p ∷ ps) (i ∷ ins) = Spends new_hash p i × SpendAll new_hash ps ins

inputs_of-SpendAll :
    (new_hash : Str → Outcome Str) (ps : List TxPoint) (ins : List TxIn)
    → inputs_of new_hash ps ≡ ok ins
    → SpendAll new_hash ps ins
unfolding inputs_of
inputs_of-SpendAll new_hash [] ins h = subst (SpendAll new_hash []) (ok_injective h) tt
inputs_of-SpendAll new_hash (p ∷ ps) ins h =
    let (hash, read, h1) = bind-eq-ok (new_hash p.txid) _ h in
    let (rest, h2, h3) = bind-eq-ok (inputs_of new_hash ps) _ h1 in
    subst (SpendAll new_hash (p ∷ ps)) (ok_injective h3) (
      record { hash = read; index = refl; unsigned = refl },
      inputs_of-SpendAll new_hash ps rest h2,
    )

-- A transaction with the points that it spends: they are the first of the points, none more than
-- needed, one input each, and the outputs are those for the change that is left of their value,
-- which is not negative.
pub record Balances (btc : BtcUtil) (new_hash : Str → Outcome Str) (change_addr : btc.Address)
    (outs : List TxOut) (vout_value : ℤ) (points : List TxPoint) (tx : MsgTx) (used : List TxPoint)
    : Type 0 where
  pub taken : ℕ
  pub first_points : used ≡ take taken points
  pub needed : IsNeeded vout_value (pos 0) used
  pub inputs : SpendAll new_hash used tx.tx_in
  pub not_negative : ltb_ℤ (sum_tx_points used -64 vout_value) (pos 0) ≡ false
  pub change :
      change_outputs btc change_addr outs (sum_tx_points used -64 vout_value) ≡ ok tx.tx_out
  pub version : tx.version ≡ 2
  pub lock_time : tx.lock_time ≡ 0

change_outputs-not_negative :
    (btc : BtcUtil) (change_addr : btc.Address) (outs all : List TxOut) (change : ℤ)
    → change_outputs btc change_addr outs change ≡ ok all
    → ltb_ℤ change (pos 0) ≡ false
unfolding change_outputs
change_outputs-not_negative btc change_addr outs all change h =
    elim (Bool-cases (ltb_ℤ change (pos 0))) [
      | inl negative ↦ let wrong = rw negative at h in cc
      | inr enough ↦ enough
    ]

-- If a transaction is made, then its inputs spend the first of the points, as many as are needed,
-- one each, and its outputs are the ones asked for with the change, the value of these points less the value asked
-- for in 64 bits, which is not negative.
pub assemble-Balances :
    (wire : Wire) (btc : BtcUtil) (new_hash : Str → Outcome Str) (change_addr : btc.Address)
    (outs : List TxOut) (vout_value : ℤ) (points : List TxPoint) (tx : MsgTx) (used : List TxPoint)
    → assemble wire btc new_hash change_addr outs vout_value points ≡ ok (tx, used)
    → Balances btc new_hash change_addr outs vout_value points tx used
unfolding assemble sum_tx_points
assemble-Balances wire btc new_hash change_addr outs vout_value points tx used h =
    let picked = pick_vins vout_value points nothing_picked in
    let picks = pick_vins-Picks vout_value points nothing_picked in
    let (ins, h1, h2) = bind-eq-ok (inputs_of new_hash picked.used_vins) _ h in
    let (all, h3, h4) =
      bind-eq-ok (change_outputs btc change_addr outs (picked.vin_value -64 vout_value)) _ h2 in
    let same = ok_injective h4 in
    let e1 = ap (λ (x : MsgTx × List TxPoint). x.0) same in
    let e2 = ap (λ (x : MsgTx × List TxPoint). x.1) same in
    let first = sym e2 ∙ picks.used in
    let sum = ap sum_tx_points first ∙ sym picks.value in
    let change =
      ap (λ z. change_outputs btc change_addr outs (z -64 vout_value)) sum
      ∙ (h3 ∙ ap (λ (t : MsgTx). ok t.tx_out) e1) in
    record {
      taken = picks.taken;
      first_points = first;
      needed = subst (IsNeeded vout_value (pos 0)) (sym first) picks.needed;
      inputs =
          subst (λ (t : MsgTx). SpendAll new_hash used t.tx_in) e1
            (subst (λ ps. SpendAll new_hash ps ins) e2
              (inputs_of-SpendAll new_hash picked.used_vins ins h1));
      not_negative =
          change_outputs-not_negative btc change_addr outs tx.tx_out
            (sum_tx_points used -64 vout_value) change;
      change = change;
      version = ap (λ (t : MsgTx). t.version) (sym e1);
      lock_time = ap (λ (t : MsgTx). t.lock_time) (sym e1);
    }
