-- ===== src/Services/Store/Valued.antt =====
-- The outputs among the records hold values that can be issued, whichever way a call ends.
use touchstone.Base.{
  ℕ, ◌+◌, ℤ, pos, Str, Bool-cases, List, [], ◌∷◌, Option, none, some, ◌≡◌, sym, subst, arith, All,
  All-map, All-Mem, inl, inr, ◌⊎◌, ok, Action, >>=-eq-ok, lift, Leaves, Preserves, Outcome-cases,
  ◌≤ℤ◌, ◌-ℤ◌, ◌-64◌, int_laws,
}
use mathlib.Core.List.{Memᴰ}
use touchstone.Wire.{Wire, MsgTx, TxOut}
use touchstone.Util.Script.{parse_badge_vout_script}
use touchstone.Util.Script.Parsed.{parse_range}
use touchstone.Models.TxPoints.{TxPoint, tx_point_type_vin}
use touchstone.Services.Env.{Env}
use touchstone.Services.Validate.{
  TxInventory, Spent, max_create_badge_value, budget_of, parse_vins, parse_vouts, parse_outputs,
  outputs_within, nothing_spent, parse_msg_tx,
}
use touchstone.Services.Validate.Group.{total, AreSpent}
use touchstone.Services.Validate.Conserve.{Conserves, parse_msg_tx-Conserves_at}
use touchstone.Services.Validate.Reads.{parse_vin-Leaves}
use touchstone.Services.Validate.Inputs.{HoldsAt}
use touchstone.Services.Validate.Outputs.{vout_step, outputs_within-eq-ok, outputs_within-none}
use touchstone.Services.Validate.Places.{parse_msg_tx-Between}
use touchstone.Services.Process.Recorded.{KeepsPoints, Between-AreOf}
use touchstone.Services.Store.Found.{server_get_tx_point-IsOutput}

-- An input, or an output of a value that can be issued.
abbrev pub IsValued : TxPoint → Type 0
IsValued p =
    (p.kind ≡ tx_point_type_vin) ⊎ ((pos 0 ≤ℤ p.value) × (p.value ≤ℤ max_create_badge_value))

module _ {S : Type 0} (env : Env S) (tx : MsgTx) (timestamp : ℤ) where
  parse_vouts-IsValued :
      (index : ℕ) (code : Str) (budget : ℤ) (outs : List TxOut) (ps : List TxPoint)
      → parse_vouts env tx index timestamp code budget outs ≡ ok (some ps)
      → All IsValued ps
  unfolding parse_vouts
  parse_vouts-IsValued index code budget [] ps e = let same : ps ≡ [] = cc in rw same tt
  parse_vouts-IsValued index code budget (out ∷ outs) ps e =
      elim (Outcome-cases (parse_badge_vout_script env.btc out.pk_script)) [
        | inl (v, parsed) ↦
            let (rest, more, same, left) =
              vout_step env tx timestamp index code budget out outs v ps parsed e in
            let range = parse_range env.btc out.pk_script v parsed in
            rw same (
              inr (range.0, omega int_laws),
              parse_vouts-IsValued (index + 1) code (budget -64 v.badge_value) outs rest more,
            )
        | inr (inl (x, failed)) ↦
            parse_vouts-IsValued (index + 1) code budget outs ps (rw (failed, parse_vouts) at e)
        | inr (inr (inl bad)) ↦ let wrong = rw (bad, parse_vouts) at e in cc
        | inr (inr (inr bad)) ↦ let wrong = rw (bad, parse_vouts) at e in cc
      ]

  outputs_within-IsValued :
      (vins : List TxPoint) (budget : Option (Str × ℤ)) (inv : TxInventory)
      → outputs_within env tx timestamp vins budget ≡ ok inv
      → All IsValued inv.vouts
  outputs_within-IsValued vins none inv e =
      rw ((outputs_within-none env tx timestamp vins inv e).1) tt
  outputs_within-IsValued vins (some (code, value)) inv e =
      elim (outputs_within-eq-ok env tx timestamp vins code value inv e).1 [
        | inl no_outs ↦ rw no_outs tt
        | inr parsed ↦ parse_vouts-IsValued 0 code value tx.tx_out inv.vouts parsed
      ]

  parse_outputs-IsValued :
      (st : Spent) (inv : TxInventory)
      → parse_outputs env tx timestamp st ≡ ok inv
      → All IsValued inv.vouts
  unfolding parse_outputs
  parse_outputs-IsValued st inv e = elim (Bool-cases st.illegal_vin) [
    | inl illegal ↦ let e' = rw illegal at e in let no_outs : inv.vouts ≡ [] = cc in rw no_outs tt
    | inr legal ↦
        outputs_within-IsValued st.vins (budget_of env tx st.badge_values) inv (rw legal at e)
  ]

  -- The records of a checked transaction.
  pub parse_msg_tx-IsValued :
      (s : S) (inv : TxInventory)
      → (parse_msg_tx env tx timestamp s).0 ≡ ok inv
      → All IsValued inv.vins × All IsValued inv.vouts
  unfolding parse_msg_tx
  parse_msg_tx-IsValued s inv e =
      let ((hi, vins), _) = parse_msg_tx-Between env tx timestamp s inv e in
      let (st, _, e') =
        >>=-eq-ok (λ m. lift (parse_outputs env tx timestamp m)) inv
          (parse_vins env tx 0 timestamp tx.tx_in nothing_spent) s e in
      (
        All-map (λ p of_it. inl (of_it.1)) inv.vins
            (Between-AreOf (Wire.tx_hash env.wire tx) tx_point_type_vin 0 hi inv.vins vins),
        parse_outputs-IsValued st inv e',
      )

module _ {S : Type 0} (env : Env S) (points : S → List TxPoint)
    (kept : KeepsPoints env points) where
  abbrev pub AreValued : S → Type 0
  AreValued s = All IsValued (points s)

  -- Where the records are valued, so is what the server finds.
  pub AreValued-HoldsAt : (s : S) → AreValued s → HoldsAt env points (points s)
  AreValued-HoldsAt s valued txid index t p at found =
      let (m, kind) = server_get_tx_point-IsOutput env points kept txid index p t found in
      let of_it = All-Mem IsValued p (points s) valued (subst (Memᴰ p) at m) in
      elim of_it [ inl vin ↦ absurd (omega arith) | inr range ↦ range ]

  -- The calls that leave the records alone.
  pub AreValued-Leaves : {A : Type 0} (m : Action S A) → Leaves points m → Preserves AreValued m
  AreValued-Leaves m leaves s valued = subst (All IsValued) (sym (leaves s)) valued

  -- Over valued records, a checked transaction conserves badges, and its input records hold no
  -- positive values.
  pub AreValued-Conserves :
      (tx : MsgTx) (timestamp : ℤ) (s : S) (inv : TxInventory)
      → AreValued s
      → (parse_msg_tx env tx timestamp s).0 ≡ ok inv
      → pos 0 -ℤ total inv.vins ≤ℤ max_create_badge_value
      → AreSpent inv.vins × Conserves env tx timestamp inv
  AreValued-Conserves tx timestamp s inv valued e high =
      parse_msg_tx-Conserves_at env tx timestamp points s inv
        (λ index vin st.
          parse_vin-Leaves env points kept.keeps.get_one_keeps kept.apart.get_one_leaves tx index
            timestamp vin st)
        (AreValued-HoldsAt s valued) e high
