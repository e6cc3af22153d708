-- ===== src/Services/Utxos/Unspent.antt =====
-- `CalculateUtxos` gives the outputs that no input among the points spends, in order.
use touchstone.Base.{
  ℤ, Str, str_eq, str_eq_iff, Bool, true, false, not, List, [], ◌∷◌, ◌≡◌, refl, ap₂, any, select,
  arith, ◌==◌, ◌==ℤ◌, ==ℤ_iff, ◌&&◌, Bool-cases, inl, inr,
}
use touchstone.Util.Common.{generate_str_from_str_int}
use touchstone.Util.Common.Keys.{generate_str_from_str_int-injective}
use touchstone.Models.TxPoints.{TxPoint, tx_point_type_vin, tx_point_type_vout}
use touchstone.Services.Utxos.{spent_utxo_set, in_set, unspent_outputs, calculate_utxos}

-- Whether an input record spends an output record.
abbrev pub spends : TxPoint → TxPoint → Bool
spends out p =
    p.kind == tx_point_type_vin && (str_eq p.pre_txid out.txid && p.pre_index ==ℤ out.index)

-- An output that no record among the points spends.
abbrev pub is_unspent : List TxPoint → TxPoint → Bool
is_unspent ps out = out.kind == tx_point_type_vout && not (any (spends out) ps)

and_true : (x y : Bool) → (x && y) ≡ true → (x ≡ true) × (y ≡ true)
and_true true true h = (refl, refl)
and_true true false h = cc
and_true false y h = cc

key_differs :
    (a b : Str) (i j : ℤ)
    → str_eq (generate_str_from_str_int a i) (generate_str_from_str_int b j) ≡ false
    → (str_eq a b ≡ true) × ((i ==ℤ j) ≡ true)
    → ⊥
key_differs a b i j differ (ids, indices) =
    let same = ap₂ generate_str_from_str_int ((str_eq_iff a b).0 ids) ((==ℤ_iff i j).0 indices) in
    let equal = (str_eq_iff _ _).1 same in cc

-- Two keys agree exactly if both the ids and the indices do.
key_eq :
    (a b : Str) (i j : ℤ)
    → str_eq (generate_str_from_str_int a i) (generate_str_from_str_int b j)
      ≡ (str_eq a b && i ==ℤ j)
key_eq a b i j =
    elim (Bool-cases (str_eq (generate_str_from_str_int a i) (generate_str_from_str_int b j))) [
      | inl same ↦
          let (ids, indices) =
            generate_str_from_str_int-injective a b i j ((str_eq_iff _ _).0 same) in
          rw (same, (str_eq_iff a b).1 ids, (==ℤ_iff i j).1 indices)
      | inr differ ↦ elim (Bool-cases (str_eq a b && i ==ℤ j)) [
        | inl both ↦ absurd (key_differs a b i j differ (and_true (str_eq a b) (i ==ℤ j) both))
        | inr neither ↦ rw (differ, neither)
      ]
    ]

in_set-spent :
    (out : TxPoint) (ps : List TxPoint)
    → in_set (generate_str_from_str_int out.txid out.index) (spent_utxo_set ps)
      ≡ any (spends out) ps
unfolding in_set spent_utxo_set
in_set-spent out [] = refl
in_set-spent out (p ∷ ps) =
    ground (arith, key_eq p.pre_txid out.txid p.pre_index out.index, in_set-spent out ps)

unspent_outputs-select :
    (all ps : List TxPoint) → unspent_outputs (spent_utxo_set all) ps ≡ select (is_unspent all) ps
unfolding unspent_outputs
unspent_outputs-select all [] = refl
unspent_outputs-select all (p ∷ ps) =
    ground (arith, in_set-spent p all, unspent_outputs-select all ps)

-- `CalculateUtxos` gives the sublist of the output records whose id and index no input record names.
pub calculate_utxos-select : (ps : List TxPoint) → calculate_utxos ps ≡ select (is_unspent ps) ps
unfolding calculate_utxos
calculate_utxos-select ps = unspent_outputs-select ps ps
