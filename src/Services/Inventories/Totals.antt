-- ===== src/Services/Inventories/Totals.antt =====
-- What the inventories hold: every point in its place, and the values of a transaction added up.
use touchstone.Base.{
  ℤ, pos, Str, str_eq, str_eq_iff, Bool, true, false, not, List, [], ◌∷◌, ◌++◌, Option, none, some,
  ◌≡◌, refl, sym, ap, ap₂, ◌∙◌, select, ◌==◌, ◌+64◌, Bool-cases, inl, inr, if◌then◌else◌,
}
use touchstone.Models.TxPoints.{TxPoint, tx_point_type_vin}
use touchstone.Models.TxInfos.{or_zero}
use touchstone.Services.Validate.{TxInventory}
use touchstone.Services.Utxos.{sum_from, sum_tx_points}
use touchstone.Services.Inventories.{
  AddrInventory, sort_out, tx_points2_tx_inventory, add_to_inventory, inventories_from,
  tx_points2_addr_inventory,
}

abbrev pub is_vin : TxPoint → Bool
is_vin p = p.kind == tx_point_type_vin

-- The value of the first entry of a transaction.
abbrev pub entry_value : Str → List AddrInventory → Option ℤ
entry_value txid [] = none
entry_value txid (i ∷ is) =
    let rest = entry_value txid is in if str_eq i.txid txid then some i.value else rest

abbrev pub is_of_tx : Str → TxPoint → Bool
is_of_tx txid p = str_eq p.txid txid

-- What is left of a value when the values of points are added to it; none if there are no points
-- and no value.
abbrev grow : Option ℤ → List TxPoint → Option ℤ
grow v [] = v
grow v (p ∷ ps) = grow (some (or_zero v +64 p.value)) ps

-- The sum of the values of points, if there are any.
abbrev pub sum_of_some : List TxPoint → Option ℤ
sum_of_some [] = none
sum_of_some (p ∷ ps) = some (sum_tx_points (p ∷ ps))

grow-some : (v : ℤ) (ps : List TxPoint) → grow (some v) ps ≡ some (sum_from v ps)
unfolding sum_from
grow-some v [] = refl
grow-some v (p ∷ ps) = grow-some (v +64 p.value) ps

grow-none : (ps : List TxPoint) → grow none ps ≡ sum_of_some ps
unfolding sum_tx_points sum_from
grow-none [] = refl
grow-none (p ∷ ps) = grow-some (pos 0 +64 p.value) ps

trans_eq : (a b c : Str) → str_eq a b ≡ true → str_eq b c ≡ true → str_eq a c ≡ true
trans_eq a b c h k = (str_eq_iff a c).1 ((str_eq_iff a b).0 h ∙ (str_eq_iff b c).0 k)

apart_eq : (a b c : Str) → str_eq a b ≡ false → str_eq b c ≡ true → str_eq a c ≡ false
apart_eq a b c h k = elim (Bool-cases (str_eq a c)) [
  | inl same ↦
      let joined = (str_eq_iff a b).1 ((str_eq_iff a c).0 same ∙ sym ((str_eq_iff b c).0 k)) in cc
  | inr apart ↦ apart
]

left_apart : (a b c : Str) → str_eq a b ≡ true → str_eq b c ≡ false → str_eq a c ≡ false
left_apart a b c h k = elim (Bool-cases (str_eq a c)) [
  | inl same ↦
      let joined = (str_eq_iff b c).1 (sym ((str_eq_iff a b).0 h) ∙ (str_eq_iff a c).0 same) in cc
  | inr apart ↦ apart
]

-- A point is added to the entry of its transaction, and to no other.
entry_value-same :
    (txid : Str) (p : TxPoint) (is : List AddrInventory)
    → str_eq p.txid txid ≡ true
    → entry_value txid (add_to_inventory p is) ≡ some (or_zero (entry_value txid is) +64 p.value)
unfolding add_to_inventory
entry_value-same txid p [] h = rw h refl
entry_value-same txid p (i ∷ is) h = elim (Bool-cases (str_eq i.txid p.txid)) [
  | inl mine ↦ rw (mine, trans_eq i.txid p.txid txid mine h) refl
  | inr differ ↦ rw (differ, apart_eq i.txid p.txid txid differ h) (entry_value-same txid p is h)
]

entry_value-other :
    (txid : Str) (p : TxPoint) (is : List AddrInventory)
    → str_eq p.txid txid ≡ false
    → entry_value txid (add_to_inventory p is) ≡ entry_value txid is
unfolding add_to_inventory
entry_value-other txid p [] h = rw h refl
entry_value-other txid p (i ∷ is) h = elim (Bool-cases (str_eq i.txid p.txid)) [
  | inl mine ↦ rw (mine, left_apart i.txid p.txid txid mine h) refl
  | inr differ ↦ rw (differ, entry_value-other txid p is h) refl
]

inventories_from-value :
    (txid : Str) (is : List AddrInventory) (ps : List TxPoint)
    → entry_value txid (inventories_from is ps)
      ≡ grow (entry_value txid is) (select (is_of_tx txid) ps)
unfolding inventories_from
inventories_from-value txid is [] = refl
inventories_from-value txid is (p ∷ ps) =
    inventories_from-value txid (add_to_inventory p is) ps
    ∙ elim (Bool-cases (str_eq p.txid txid)) [
      | inl same ↦ rw (same, entry_value-same txid p is same) refl
      | inr other ↦ rw (other, entry_value-other txid p is other) refl
    ]

-- For every transaction, the inventory of an address has an entry exactly if there are points of
-- it, with the sum of their values, added up in 64 bits in their order.
pub tx_points2_addr_inventory-value :
    (txid : Str) (ps : List TxPoint)
    → entry_value txid (tx_points2_addr_inventory ps) ≡ sum_of_some (select (is_of_tx txid) ps)
unfolding tx_points2_addr_inventory
tx_points2_addr_inventory-value txid ps =
    inventories_from-value txid [] ps ∙ grow-none (select (is_of_tx txid) ps)

append_one :
    {A : Type 0} (xs : List A) (x : A) (ys : List A) → (xs ++ (x ∷ [])) ++ ys ≡ xs ++ (x ∷ ys)
append_one [] x ys = refl
append_one (z ∷ xs) x ys = ap (◌∷◌ z) (append_one xs x ys)

append_none : {A : Type 0} (xs : List A) → xs ≡ xs ++ []
append_none [] = refl
append_none (x ∷ xs) = ap (◌∷◌ x) (append_none xs)

-- Behind what the inventory holds come the inputs among the points and the other points.
abbrev extended : TxInventory → List TxPoint → TxInventory
extended i ps = record {
  vins = i.vins ++ select is_vin ps;
  vouts = i.vouts ++ select (λ p. not (is_vin p)) ps;
}

sort_out-extended : (i : TxInventory) (ps : List TxPoint) → sort_out i ps ≡ extended i ps
unfolding sort_out
sort_out-extended i [] =
    ap₂ (λ a b. record { vins = a; vouts = b }) (append_none i.vins) (append_none i.vouts)
sort_out-extended i (p ∷ ps) = elim (Bool-cases (is_vin p)) [
  | inl input ↦ rw input (
      sort_out-extended (record i { vins = i.vins ++ (p ∷ []) }) ps
      ∙ ap (λ a. record { vins = a; vouts = i.vouts ++ select (λ p. not (is_vin p)) ps })
          (append_one i.vins p (select is_vin ps)))
  | inr other ↦ rw other (
      sort_out-extended (record i { vouts = i.vouts ++ (p ∷ []) }) ps
      ∙ ap (λ b. record { vins = i.vins ++ select is_vin ps; vouts = b })
          (append_one i.vouts p (select (λ p. not (is_vin p)) ps)))
]

-- The inventory of a transaction lists its inputs and its other points, each in order.
pub tx_points2_tx_inventory-select :
    (ps : List TxPoint)
    → tx_points2_tx_inventory ps
      ≡ record { vins = select is_vin ps; vouts = select (λ p. not (is_vin p)) ps }
unfolding tx_points2_tx_inventory
tx_points2_tx_inventory-select ps = sort_out-extended (record { vins = []; vouts = [] }) ps
