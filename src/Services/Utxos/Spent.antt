-- ===== src/Services/Utxos/Spent.antt =====
-- What a processed transaction spends is not among the unspent outputs.
use touchstone.Base.{
  ℤ, Str, str_eq_iff, Bool, true, false, Bool-cases, List, [], ◌∷◌, ◌++◌, ◌≡◌, refl, sym, subst, ap,
  ◌∙◌, All, All-Mem, arith, ◌||◌, any, select, inl, inr, ok, ==ℤ_iff, ◌&&◌, ok_injective,
  str_eq_refl, pure, >>=_ok,
}
use mathlib.Core.List.{Memᴰ}
use touchstone.Wire.{Wire, MsgTx}
use touchstone.Models.Kept.{sort_docs, insert_sorted}
use touchstone.Models.TxPoints.{
  TxPoint, is_of_addr, by_timestamp_desc, tx_point_type_vin, get_tx_points_by_addr,
  tx_point_state_may_be_unspent,
}
use touchstone.Services.Env.{Env}
use touchstone.Services.Validate.{TxInventory}
use touchstone.Services.Utxos.{calculate_utxos, get_all_addr_utxos}
use touchstone.Services.Utxos.Unspent.{spends, is_unspent, calculate_utxos-select}
use touchstone.Services.Validate.Places.{parse_msg_tx-Between}
use touchstone.Services.Process.{process_msg_tx}
use touchstone.Services.Process.Recorded.{
  KeepsPoints, IsUnknown, Between-AreOf, process_msg_tx-docs,
}

module _ {A : Type 0} (test : A → Bool) where
  select-All : (xs : List A) → All (λ x. test x ≡ true) (select test xs)
  select-All [] = tt
  select-All (x ∷ xs) = elim (Bool-cases (test x)) [
    | inl there ↦ rw there (there, select-All xs)
    | inr gone ↦ rw gone (select-All xs)
  ]

  any-insert_sorted :
      (order : A → A → Bool) (x : A) (xs : List A)
      → any test (insert_sorted order x xs) ≡ any test (x ∷ xs)
  any-insert_sorted order x [] = refl
  any-insert_sorted order x (y ∷ ys) = ground (arith, any-insert_sorted order x ys)

  any-sort_docs : (order : A → A → Bool) (xs : List A) → any test (sort_docs order xs) ≡ any test xs
  unfolding sort_docs
  any-sort_docs order [] = refl
  any-sort_docs order (x ∷ xs) =
      any-insert_sorted order x (sort_docs order xs)
      ∙ ap (λ b. test x || b) (any-sort_docs order xs)

  any-append : (xs ys : List A) → any test (xs ++ ys) ≡ (any test xs || any test ys)
  any-append [] ys = refl
  any-append (x ∷ xs) ys = ground (arith, any-append xs ys)

  any-select :
      (kept : A → Bool) (xs : List A)
      → any test (select kept xs) ≡ false
      → All (λ x. (kept x && test x) ≡ false) xs
  any-select kept [] h = tt
  any-select kept (x ∷ xs) h = ground (arith, any-select kept xs)

module _ {A : Type 0} (P : A → Type 0) where
  All-behind : (xs ys : List A) → All P (xs ++ ys) → All P ys
  All-behind [] ys h = h
  All-behind (x ∷ xs) ys h = All-behind xs ys h.1

  All-before : (xs ys : List A) → All P (xs ++ ys) → All P xs
  All-before [] ys h = tt
  All-before (x ∷ xs) ys h = (h.0, All-before xs ys h.1)

-- An input record is found by its address and badge, and spends the output that it names.
spends-of_addr :
    (v out : TxPoint)
    → v.kind ≡ tx_point_type_vin
    → v.state ≡ tx_point_state_may_be_unspent
    → v.pre_txid ≡ out.txid
    → v.pre_index ≡ out.index
    → (is_of_addr v.addr v.badge_code tx_point_state_may_be_unspent v && spends out v) ≡ true
spends-of_addr v out kind state id index = rw (
  str_eq_refl v.addr,
  str_eq_refl v.badge_code,
  (str_eq_iff v.pre_txid out.txid).1 id,
  (==ℤ_iff v.pre_index out.index).1 index,
  kind,
  state,
)

module _ {S : Type 0} (env : Env S) (points : S → List TxPoint)
    (kept : KeepsPoints env points) where
  -- The unspent outputs of an address, from the records that are kept.
  get_all_addr_utxos-docs :
      (addr badge_code : Str) (s : S)
      → get_all_addr_utxos env addr badge_code s ≡ (
        ok (
            calculate_utxos (
              sort_docs by_timestamp_desc
                (select (is_of_addr addr badge_code tx_point_state_may_be_unspent) (points s)))),
        s,
      )
  unfolding get_all_addr_utxos get_tx_points_by_addr
  get_all_addr_utxos-docs addr badge_code s =
      >>=_ok (get_tx_points_by_addr env.tx_points addr badge_code tx_point_state_may_be_unspent)
        (λ ps. pure (calculate_utxos ps)) s
        (kept.keeps.get_all_sorted (is_of_addr addr badge_code tx_point_state_may_be_unspent)
          by_timestamp_desc s)

  -- An output among the unspent ones of an address is spent by no record of the address.
  unspent-docs :
      (addr badge_code : Str) (s : S) (utxos : List TxPoint) (out : TxPoint)
      → (get_all_addr_utxos env addr badge_code s).0 ≡ ok utxos
      → Memᴰ out utxos
      → All
          (λ v.
            (is_of_addr addr badge_code tx_point_state_may_be_unspent v && spends out v) ≡ false)
          (points s)
  unspent-docs addr badge_code s utxos out e m =
      let test = is_of_addr addr badge_code tx_point_state_may_be_unspent in
      let ps = sort_docs by_timestamp_desc (select test (points s)) in
      let same : utxos ≡ select (is_unspent ps) ps =
        ok_injective (sym e ∙ ap (λ r. r.0) (get_all_addr_utxos-docs addr badge_code s))
        ∙ calculate_utxos-select ps in
      let unspent : is_unspent ps out ≡ true =
        All-Mem (λ x. is_unspent ps x ≡ true) out (select (is_unspent ps) ps)
          (select-All (is_unspent ps) ps) (subst (Memᴰ out) same m) in
      let none_spends : any (spends out) ps ≡ false = ground arith in
      any-select (spends out) test (points s)
        (sym (any-sort_docs (spends out) by_timestamp_desc (select test (points s))) ∙ none_spends)

  -- Over a collection that keeps its records: once a transaction of which there were none is
  -- processed without an error, no output that one of its input records names is among the unspent
  -- outputs of the record's address and badge.
  pub process_msg_tx-unspent :
      (tx : MsgTx) (timestamp : ℤ) (s : S) (inv : TxInventory) (utxos : List TxPoint)
      (v out : TxPoint)
      → IsUnknown (Wire.tx_hash env.wire tx) (points s)
      → (process_msg_tx env tx timestamp s).0 ≡ ok inv
      → Memᴰ v inv.vins
      → (get_all_addr_utxos env v.addr v.badge_code (process_msg_tx env tx timestamp s).1).0
        ≡ ok utxos
      → Memᴰ out utxos
      → ¬ ((v.pre_txid ≡ out.txid) × (v.pre_index ≡ out.index))
  process_msg_tx-unspent tx timestamp s inv utxos v out new done is_vin e m (id, index) =
      let txid = Wire.tx_hash env.wire tx in
      let s' = (process_msg_tx env tx timestamp s).1 in
      let test = is_of_addr v.addr v.badge_code tx_point_state_may_be_unspent in
      let missed : TxPoint → Type 0 = λ x. (test x && spends out x) ≡ false in
      let (all, parsed) = process_msg_tx-docs env points kept tx timestamp s inv new done in
      let ((hi, vins), _) = parse_msg_tx-Between env tx timestamp s inv parsed in
      let (_, kind, state) =
        All-Mem _ v inv.vins (Between-AreOf txid tx_point_type_vin 0 hi inv.vins vins) is_vin in
      let none_spends = unspent-docs v.addr v.badge_code s' utxos out e m in
      let missed_it =
        All-Mem missed v inv.vins
          (All-before missed inv.vins inv.vouts (
            All-behind missed (points s) (inv.vins ++ inv.vouts)
              (subst (All missed) all none_spends)))
          is_vin in
      let found = spends-of_addr v out kind state id index in cc
