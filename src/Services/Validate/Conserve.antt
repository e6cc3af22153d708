-- ===== src/Services/Validate/Conserve.antt =====
-- The protocol's conservation rules: a transaction that is checked creates no more badges than it
-- spends, and all of the badge that it spends.
use touchstone.Base.{
  ℕ, Leaves, ℤ, pos, Str, false, List, [], ◌∷◌, ◌≡◌, refl, sym, ◌∙◌, All, arith, lift, ok, ◌+ℤ◌,
  ◌-ℤ◌, ◌≤ℤ◌, int_laws, >>=-eq-ok, inl, inr,
}
use touchstone.Wire.{Wire, MsgTx, TxIn}
use touchstone.Models.TxPoints.{TxPoint}
use touchstone.Services.Env.{Env}
use touchstone.Services.Validate.{
  TxInventory, Spent, BadgeValues, max_create_badge_value, outputs_within, parse_vin, parse_vins,
  budget_of, parse_outputs, parse_msg_tx,
}
use touchstone.Services.Validate.Group.{
  total, group, AreSpent, group_single, group_none, total-AreSpent,
}
use touchstone.Services.Validate.Outputs.{
  AreReceived, parse_vouts-total, outputs_within-eq-ok, outputs_within-none, parse_outputs-vins,
}
use touchstone.Services.Validate.Inputs.{HoldsValues, HoldsAt, IsTally, parse_vins-IsTally}

module _ {S : Type 0} (env : Env S) (tx : MsgTx) (timestamp : ℤ) where
  -- How an accepted transaction's outputs relate to its inputs. Either none counts; or the
  -- transaction spends no badge, and issues its own; or it moves what it spends, all of one badge.
  pub data Conserves (inv : TxInventory) : Type 0 where
    nothing : inv.vouts ≡ [] → Conserves inv
    issues :
        inv.vins ≡ []
        → AreReceived env tx timestamp (Wire.tx_hash env.wire tx) inv.vouts
        → total inv.vouts ≤ℤ max_create_badge_value
        → Conserves inv
    moves :
        (code : Str)
        → All (λ p. p.badge_code ≡ code) inv.vins
        → AreReceived env tx timestamp code inv.vouts
        → total inv.vouts +ℤ total inv.vins ≤ℤ pos 0
        → Conserves inv

  outputs_within-Conserves :
      (vins : List TxPoint) (m : BadgeValues) (inv : TxInventory)
      → AreSpent vins
      → pos 0 -ℤ total vins ≤ℤ max_create_badge_value
      → m ≡ group vins []
      → outputs_within env tx timestamp vins (budget_of env tx m) ≡ ok inv
      → (inv.vins ≡ vins) × Conserves inv
  outputs_within-Conserves vins [] inv spent high g e =
      let hash = Wire.tx_hash env.wire tx in
      let (same, made) =
        outputs_within-eq-ok env tx timestamp vins hash max_create_badge_value inv e in
      (
        same,
        elim made [
          | inl none_left ↦ nothing none_left
          | inr parsed ↦
              let (each, sum) =
                parse_vouts-total env tx timestamp 0 hash max_create_badge_value tx.tx_out inv.vouts
                  (omega arith) (omega arith) parsed in
              issues (same ∙ group_none vins (sym g)) each sum
        ],
      )
  outputs_within-Conserves vins ((code, value) ∷ []) inv spent high g e =
      let (same, made) = outputs_within-eq-ok env tx timestamp vins code value inv e in
      let (exact, codes_eq) = group_single vins code value spent high (sym g) in
      let below = total-AreSpent vins spent in
      (
        same,
        elim made [
          | inl none_left ↦ nothing none_left
          | inr parsed ↦
              let (each, sum) =
                parse_vouts-total env tx timestamp 0 code value tx.tx_out inv.vouts
                  (rw exact (omega int_laws)) (rw exact high) parsed in
              let covered : total inv.vouts ≤ℤ pos 0 -ℤ total vins = rw exact at sum in
              moves code (rw same codes_eq) each (rw same (omega int_laws))
        ],
      )
  outputs_within-Conserves vins (_ ∷ _ ∷ _) inv spent high g e =
      let (same, none_left) = outputs_within-none env tx timestamp vins inv e in
      (same, nothing none_left)

  parse_outputs-Conserves :
      (st : Spent) (inv : TxInventory)
      → IsTally env tx timestamp st
      → pos 0 -ℤ total st.vins ≤ℤ max_create_badge_value
      → parse_outputs env tx timestamp st ≡ ok inv
      → (inv.vins ≡ st.vins) × Conserves inv
  unfolding parse_outputs
  parse_outputs-Conserves st inv t high e =
      outputs_within-Conserves st.vins st.badge_values inv t.spent high t.grouped (rw t.legal at e)

  -- The same for the states in which a part that the check does not change has a given value, with
  -- what it spends.
  pub parse_msg_tx-Conserves_at :
      {X : Type 0} (view : S → X) (s : S) (inv : TxInventory)
      → ((index : ℕ) (vin : TxIn) (st : Spent)
          → Leaves view (parse_vin env tx index timestamp vin st))
      → HoldsAt env view (view s)
      → (parse_msg_tx env tx timestamp s).0 ≡ ok inv
      → pos 0 -ℤ total inv.vins ≤ℤ max_create_badge_value
      → AreSpent inv.vins × Conserves inv
  unfolding parse_msg_tx group
  parse_msg_tx-Conserves_at view s inv leaves holds e high =
      let start : Spent = record { badge_values = []; vins = []; illegal_vin = false } in
      let (st, looped, e') =
        >>=-eq-ok (λ m. lift (parse_outputs env tx timestamp m)) inv
          (parse_vins env tx 0 timestamp tx.tx_in start) s e in
      let tally =
        parse_vins-IsTally env tx timestamp view (view s) leaves holds 0 tx.tx_in start st s refl
          looped (record { legal = refl; spent = tt; grouped = refl }) in
      let same : inv.vins ≡ st.vins = parse_outputs-vins env tx timestamp st inv e' in
      (rw same tally.spent, (parse_outputs-Conserves st inv tally (rw same at high) e').1)

  -- Where the stored outputs hold values that can be issued, a transaction that passes the check
  -- and spends no more than an `int64` holds either makes no badge outputs; or spends none and
  -- issues a badge named by its own id, at most 2 ^ 63 - 1 of it; or spends one badge only, and
  -- makes outputs of that badge of which there is no more than it spends.
  pub parse_msg_tx-Conserves :
      (s : S) (inv : TxInventory)
      → HoldsValues env
      → (parse_msg_tx env tx timestamp s).0 ≡ ok inv
      → pos 0 -ℤ total inv.vins ≤ℤ max_create_badge_value
      → Conserves inv
  parse_msg_tx-Conserves s inv holds e high =
      (parse_msg_tx-Conserves_at (λ t. tt) s inv (λ index vin st t. refl)
        (λ txid index t p at. holds txid index t p) e high).1
