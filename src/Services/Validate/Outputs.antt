-- ===== src/Services/Validate/Outputs.antt =====
-- The loop over the outputs: they hold no more than what they may, and all of one badge.
use touchstone.Base.{
  ℕ, ◌+◌, ℤ, pos, Str, List, [], ◌∷◌, Option, none, some, ◌≡◌, refl, All, arith, ok, ◌-ℤ◌, ◌≤ℤ◌,
  ◌-64◌, int_laws, IsInt64-of_bounds, Bool-cases, Outcome-cases, inl, inr, ◌⊎◌,
}
use touchstone.Wire.{Wire, MsgTx, TxOut}
use touchstone.Util.Script.{BtcUtil, BadgeVout, parse_badge_vout_script}
use touchstone.Util.Script.Parsed.{parse_range}
use touchstone.Models.TxPoints.{TxPoint, tx_point_type_vout}
use touchstone.Services.Env.{Env}
use touchstone.Services.Validate.{
  TxInventory, Spent, max_create_badge_value, outputs_within, receive, parse_vouts, budget_of,
  parse_outputs,
}
use touchstone.Services.Validate.Group.{total, -64-eq}

module _ {S : Type 0} (env : Env S) (tx : MsgTx) (timestamp : ℤ) where
  -- The records of outputs of one badge, none of them negative.
  abbrev pub AreReceived : Str → List TxPoint → Type 0
  AreReceived code = All λ p.
      (p.badge_code ≡ code)
      × (p.txid ≡ Wire.tx_hash env.wire tx)
      × (p.kind ≡ tx_point_type_vout)
      × (pos 0 ≤ℤ p.value)

  -- What is left for the rest of the outputs after a badge output that the budget covers.
  pub vout_step :
      (index : ℕ) (code : Str) (budget : ℤ) (out : TxOut) (outs : List TxOut)
      (v : BadgeVout (BtcUtil.Address env.btc)) (points : List TxPoint)
      → parse_badge_vout_script env.btc out.pk_script ≡ ok v
      → parse_vouts env tx index timestamp code budget (out ∷ outs) ≡ ok (some points)
      → (rest : List TxPoint) × (parse_vouts env tx
            (index + 1)
            timestamp
            code
            (budget -64 v.badge_value)
            outs
          ≡ ok (some rest))
        × (points ≡ receive env tx index timestamp code v ∷ rest)
        × (pos 0 ≤ℤ budget -64 v.badge_value)
  unfolding parse_vouts
  vout_step index code budget out outs v points parsed e = ground (
    arith,
    rw (parsed, parse_vouts) at e,
    Outcome-cases (parse_vouts env tx (index + 1) timestamp code (budget -64 v.badge_value) outs),
  )

  -- The outputs hold no more than the budget.
  pub parse_vouts-total :
      (index : ℕ) (code : Str) (budget : ℤ) (outs : List TxOut) (points : List TxPoint)
      → pos 0 ≤ℤ budget
      → budget ≤ℤ max_create_badge_value
      → parse_vouts env tx index timestamp code budget outs ≡ ok (some points)
      → AreReceived code points × (total points ≤ℤ budget)
  unfolding parse_vouts total
  parse_vouts-total index code budget [] points low high e =
      let same : points ≡ [] = cc in rw same (tt, low)
  parse_vouts-total index code budget (out ∷ outs) points low high e =
      elim (Outcome-cases (parse_badge_vout_script env.btc out.pk_script)) [
        | inl (v, parsed) ↦
            let (rest, more, same, left) = vout_step index code budget out outs v points parsed e in
            let range = parse_range env.btc out.pk_script v parsed in
            let exact =
              -64-eq budget v.badge_value (IsInt64-of_bounds _ (omega int_laws) (omega int_laws)) in
            let covered : pos 0 ≤ℤ budget -ℤ v.badge_value = rw exact at left in
            let (each, sum) =
              parse_vouts-total (index + 1) code (budget -ℤ v.badge_value) outs rest covered
                (omega int_laws) (rw exact at more) in
            rw same (((refl, refl, refl, range.0), each), omega int_laws)
        | inr (inl (x, failed)) ↦
            parse_vouts-total (index + 1) code budget outs points low high
              (rw (failed, parse_vouts) at e)
        | inr (inr (inl bad)) ↦ let wrong = rw (bad, parse_vouts) at e in cc
        | inr (inr (inr bad)) ↦ let wrong = rw (bad, parse_vouts) at e in cc
      ]

  pub outputs_within-eq-ok :
      (vins : List TxPoint) (code : Str) (value : ℤ) (inv : TxInventory)
      → outputs_within env tx timestamp vins (some (code, value)) ≡ ok inv
      → (inv.vins ≡ vins)
        × ((inv.vouts ≡ [])
            ⊎ (parse_vouts env tx 0 timestamp code value tx.tx_out ≡ ok (some inv.vouts)))
  unfolding outputs_within
  outputs_within-eq-ok vins code value inv e =
      ground (arith, Outcome-cases (parse_vouts env tx 0 timestamp code value tx.tx_out))

  pub outputs_within-none :
      (vins : List TxPoint) (inv : TxInventory)
      → outputs_within env tx timestamp vins none ≡ ok inv
      → (inv.vins ≡ vins) × (inv.vouts ≡ [])
  unfolding outputs_within
  outputs_within-none vins inv e = ground arith

  outputs_within-vins :
      (vins : List TxPoint) (budget : Option (Str × ℤ)) (inv : TxInventory)
      → outputs_within env tx timestamp vins budget ≡ ok inv
      → inv.vins ≡ vins
  outputs_within-vins vins none inv e = (outputs_within-none vins inv e).0
  outputs_within-vins vins (some (code, value)) inv e =
      (outputs_within-eq-ok vins code value inv e).0

  -- The records of the inputs are passed on.
  pub parse_outputs-vins :
      (st : Spent) (inv : TxInventory)
      → parse_outputs env tx timestamp st ≡ ok inv
      → inv.vins ≡ st.vins
  unfolding parse_outputs
  parse_outputs-vins st inv e = elim (Bool-cases st.illegal_vin) [
    | inl illegal ↦ let e' = rw illegal at e in cc
    | inr legal ↦ outputs_within-vins st.vins (budget_of env tx st.badge_values) inv (rw legal at e)
  ]
