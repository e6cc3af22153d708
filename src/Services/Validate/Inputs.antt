-- ===== src/Services/Validate/Inputs.antt =====
-- The loop over the inputs: its table holds the sums of what its records spend.
use touchstone.Base.{
  ℕ, ◌+◌, ℤ, pos, Str, false, List, [], ◌∷◌, ◌++◌, some, ◌≡◌, ap, ◌∙◌, Leaves, All-append, arith,
  lift, ok, ◌-ℤ◌, ◌≤ℤ◌, int_laws, IsInt64-of_bounds, Bool-cases, handle-eq-ok, >>=-eq-ok, inl, inr,
}
use touchstone.Wire.{MsgTx, TxIn}
use touchstone.Models.TxPoints.{TxPoint}
use touchstone.Services.Env.{Env}
use touchstone.Services.Validate.{
  Spent, add_badge_value, max_create_badge_value, server_get_tx_point, spend, parse_vin, use_point,
  vin_error, parse_vins, has_badge_flag,
}
use touchstone.Services.Validate.Group.{group, group-append, AreSpent, -64-eq}

-- The points that the server finds hold values that can be issued.
abbrev pub HoldsValues : {S : Type 0} → Env S → Type 0
HoldsValues {S} env =
    (txid : Str) (index : ℤ) (s : S) (p : TxPoint)
    → (server_get_tx_point env txid index s).0 ≡ ok p
    → (pos 0 ≤ℤ p.value) × (p.value ≤ℤ max_create_badge_value)

-- The same of the states in which a part has a given value.
abbrev pub HoldsAt : {S X : Type 0} → Env S → (S → X) → X → Type 0
HoldsAt {S} env view x =
    (txid : Str) (index : ℤ) (s : S) (p : TxPoint)
    → view s ≡ x
    → (server_get_tx_point env txid index s).0 ≡ ok p
    → (pos 0 ≤ℤ p.value) × (p.value ≤ℤ max_create_badge_value)

module _ {S : Type 0} (env : Env S) (tx : MsgTx) (timestamp : ℤ) where
  -- The loop over the inputs keeps its table in step with the records that it makes.
  pub record IsTally (st : Spent) : Type 0 where
    pub legal : st.illegal_vin ≡ false
    pub spent : AreSpent st.vins
    pub grouped : st.badge_values ≡ group st.vins []

  spend-IsTally :
      (index : ℕ) (st : Spent) (p : TxPoint)
      → pos 0 ≤ℤ p.value
      → p.value ≤ℤ max_create_badge_value
      → IsTally st
      → IsTally (record st {
        badge_values = add_badge_value p.badge_code p.value st.badge_values;
        vins = st.vins ++ (spend env tx index timestamp p ∷ []);
      })
  spend-IsTally index st p low high t =
      let v = spend env tx index timestamp p in
      let exact : v.value ≡ pos 0 -ℤ p.value =
        -64-eq (pos 0) p.value (IsInt64-of_bounds _ (omega int_laws) (omega int_laws)) in
      let back : pos 0 -ℤ v.value ≡ p.value = rw exact (omega int_laws) in
      record {
        legal = t.legal;
        spent =
            All-append (λ (q : TxPoint). q.value ≤ℤ pos 0) st.vins (v ∷ []) t.spent
              (rw exact (omega int_laws), tt);
        grouped =
            rw (group-append st.vins v [], back)
              (ap (add_badge_value p.badge_code p.value) t.grouped);
      }

  -- For states in which the part that is not changed has the value at which points are sound.
  module _ {X : Type 0} (view : S → X) (x : X)
      (leaves : (index : ℕ) (vin : TxIn) (st : Spent)
        → Leaves view (parse_vin env tx index timestamp vin st))
      (holds : HoldsAt env view x) where
    parse_vin-IsTally :
        (index : ℕ) (vin : TxIn) (st st' : Spent) (s : S)
        → view s ≡ x
        → (parse_vin env tx index timestamp vin st s).0 ≡ ok st'
        → IsTally st
        → IsTally st'
    unfolding parse_vin
    parse_vin-IsTally index vin st st' s at e t =
        elim (Bool-cases (has_badge_flag vin.signature_script)) [
          | inr plain ↦ let e' = rw plain at e in let same : st ≡ st' = cc in rw (← same) t
          | inl flagged ↦
              elim (handle-eq-ok (λ q. lift (use_point env tx index timestamp st (some q))) st'
                (server_get_tx_point env vin.prev_hash (pos vin.prev_index))
                (vin_error env tx index timestamp st) s (rw flagged at e)) [
                  | inl (p, found, e') ↦
                      let (low, high) = holds vin.prev_hash (pos vin.prev_index) s p at found in
                      let same : record st {
                        badge_values = add_badge_value p.badge_code p.value st.badge_values;
                        vins = st.vins ++ (spend env tx index timestamp p ∷ []);
                      }
                          ≡ st' =
                        cc in
                      rw (← same) (spend-IsTally index st p low high t)
                  | inr (x, failed, e') ↦ absurd (ground arith)
                ]
        ]

    pub parse_vins-IsTally :
        (index : ℕ) (vins : List TxIn) (st st' : Spent) (s : S)
        → view s ≡ x
        → (parse_vins env tx index timestamp vins st s).0 ≡ ok st'
        → IsTally st
        → IsTally st'
    unfolding parse_vins
    parse_vins-IsTally index [] st st' s at e t = let same : st ≡ st' = cc in rw (← same) t
    parse_vins-IsTally index (vin ∷ vins) st st' s at e t =
        let (mid, first, more) =
          >>=-eq-ok (λ m. parse_vins env tx (index + 1) timestamp vins m) st'
            (parse_vin env tx index timestamp vin st) s e in
        parse_vins-IsTally (index + 1) vins mid st' (parse_vin env tx index timestamp vin st s).1
          (leaves index vin st s ∙ at) more (parse_vin-IsTally index vin st mid s at first t)
