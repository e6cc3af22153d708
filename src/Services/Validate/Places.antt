-- ===== src/Services/Validate/Places.antt =====
-- Where the records of a checked transaction stand: in order of their indices, each once.
use touchstone.Base.{
  ℕ, suc, ◌+◌, ◌≤◌, ℤ, pos, Str, List, [], ◌∷◌, ◌++◌, some, ◌≡◌, refl, arith, lift, ok, length,
  ◌-64◌, Bool-cases, Option, none, Outcome-cases, handle-eq-ok, >>=-eq-ok, inl, inr,
}
use touchstone.Wire.{Wire, MsgTx, TxIn, TxOut}
use touchstone.Util.Script.{parse_badge_vout_script}
use touchstone.Models.TxPoints.{
  TxPoint, tx_point_type_vin, tx_point_type_vout, tx_point_state_may_be_unspent,
}
use touchstone.Services.Env.{Env}
use touchstone.Services.Validate.{
  TxInventory, Spent, nothing_spent, server_get_tx_point, spend, parse_vin, use_point, vin_error,
  parse_vins, parse_vouts, outputs_within, budget_of, parse_outputs, parse_msg_tx, has_badge_flag,
}
use touchstone.Services.Validate.Outputs.{
  vout_step, outputs_within-eq-ok, outputs_within-none, parse_outputs-vins,
}

-- Records of one kind and transaction, at rising indices from `lo` on and below `hi`.
unfoldable pub Between : Str → ℕ → ℕ → ℕ → List TxPoint → Type 0
Between txid kind lo hi [] = lo ≤ hi
Between txid kind lo hi (p ∷ ps) =
    (j : ℕ) × (lo ≤ j)
    × (p.txid ≡ txid)
    × (p.kind ≡ kind)
    × (p.index ≡ pos j)
    × (p.state ≡ tx_point_state_may_be_unspent)
    × Between txid kind (suc j) hi ps

module _ (txid : Str) (kind : ℕ) where
  Between-widen :
      (lo hi hi' : ℕ) (ps : List TxPoint)
      → hi ≤ hi'
      → Between txid kind lo hi ps
      → Between txid kind lo hi' ps
  unfolding Between
  Between-widen lo hi hi' [] le h = omega arith
  Between-widen lo hi hi' (p ∷ ps) le (j, from, t, k, i, u, more) =
      (j, from, t, k, i, u, Between-widen (suc j) hi hi' ps le more)

  Between-from :
      (lo lo' hi : ℕ) (ps : List TxPoint)
      → lo' ≤ lo
      → Between txid kind lo hi ps
      → Between txid kind lo' hi ps
  unfolding Between
  Between-from lo lo' hi [] le h = omega arith
  Between-from lo lo' hi (p ∷ ps) le (j, from, t, k, i, u, more) =
      (j, omega arith, t, k, i, u, more)

  Between-append_one :
      (lo hi : ℕ) (ps : List TxPoint) (p : TxPoint)
      → p.txid ≡ txid
      → p.kind ≡ kind
      → p.index ≡ pos hi
      → p.state ≡ tx_point_state_may_be_unspent
      → Between txid kind lo hi ps
      → Between txid kind lo (suc hi) (ps ++ (p ∷ []))
  unfolding Between
  Between-append_one lo hi [] p t k i u h = (hi, h, t, k, i, u, omega arith)
  Between-append_one lo hi (q ∷ ps) p t k i u (j, from, t', k', i', u', more) =
      (j, from, t', k', i', u', Between-append_one (suc j) hi ps p t k i u more)

module _ {S : Type 0} (env : Env S) (tx : MsgTx) (timestamp : ℤ) where
  abbrev hash : Str
  hash = Wire.tx_hash env.wire tx

  parse_vin-Between :
      (index : ℕ) (vin : TxIn) (st st' : Spent) (s : S)
      → (parse_vin env tx index timestamp vin st s).0 ≡ ok st'
      → Between hash tx_point_type_vin 0 index st.vins
      → Between hash tx_point_type_vin 0 (suc index) st'.vins
  unfolding parse_vin
  parse_vin-Between index vin st st' s e b =
      elim (Bool-cases (has_badge_flag vin.signature_script)) [
        | inr plain ↦
            let e' = rw plain at e in
            let same : st ≡ st' = cc in
            rw (← same)
              (Between-widen hash tx_point_type_vin 0 index (suc index) st.vins (omega arith) b)
        | inl flagged ↦
            elim (handle-eq-ok (λ q. lift (use_point env tx index timestamp st (some q))) st'
              (server_get_tx_point env vin.prev_hash (pos vin.prev_index))
              (vin_error env tx index timestamp st) s (rw flagged at e)) [
                | inl (p, found, e') ↦
                    let same : st.vins ++ (spend env tx index timestamp p ∷ []) ≡ st'.vins = cc in
                    rw (← same) (
                      Between-append_one hash tx_point_type_vin 0 index st.vins
                        (spend env tx index timestamp p) refl refl refl refl b)
                | inr (x, failed, e') ↦ absurd (ground arith)
              ]
      ]

  parse_vins-Between :
      (index : ℕ) (vins : List TxIn) (st st' : Spent) (s : S)
      → (parse_vins env tx index timestamp vins st s).0 ≡ ok st'
      → Between hash tx_point_type_vin 0 index st.vins
      → (hi : ℕ) × Between hash tx_point_type_vin 0 hi st'.vins
  unfolding parse_vins
  parse_vins-Between index [] st st' s e b = let same : st ≡ st' = cc in (index, rw (← same) b)
  parse_vins-Between index (vin ∷ vins) st st' s e b =
      let (mid, first, more) =
        >>=-eq-ok (λ m. parse_vins env tx (index + 1) timestamp vins m) st'
          (parse_vin env tx index timestamp vin st) s e in
      let next : index + 1 ≡ suc index = omega arith in
      parse_vins-Between (index + 1) vins mid st' (parse_vin env tx index timestamp vin st s).1 more
        (rw next (parse_vin-Between index vin st mid s first b))

  parse_vouts-Between :
      (index : ℕ) (code : Str) (budget : ℤ) (outs : List TxOut) (points : List TxPoint)
      → parse_vouts env tx index timestamp code budget outs ≡ ok (some points)
      → Between hash tx_point_type_vout index (index + length outs) points
  unfolding parse_vouts Between
  parse_vouts-Between index code budget [] points e =
      let same : points ≡ [] = cc in rw same (omega arith)
  parse_vouts-Between index code budget (out ∷ outs) points e =
      let shifted : index + 1 + length outs ≡ index + suc (length outs) = omega arith in
      elim (Outcome-cases (parse_badge_vout_script env.btc out.pk_script)) [
        | inl (v, parsed) ↦
            let (rest, more, same, left) =
              vout_step env tx timestamp index code budget out outs v points parsed e in
            let later =
              parse_vouts-Between (index + 1) code (budget -64 v.badge_value) outs rest more in
            let next : index + 1 ≡ suc index = omega arith in
            let behind : suc index + length outs ≡ index + suc (length outs) = omega arith in
            rw same (index, omega arith, refl, refl, refl, refl, rw (← behind) (rw next at later))
        | inr (inl (x, failed)) ↦
            let later =
              parse_vouts-Between (index + 1) code budget outs points
                (rw (failed, parse_vouts) at e) in
            rw (← shifted) (
              Between-from hash tx_point_type_vout (index + 1) index (index + 1 + length outs)
                points (omega arith) later)
        | inr (inr (inl bad)) ↦ let wrong = rw (bad, parse_vouts) at e in cc
        | inr (inr (inr bad)) ↦ let wrong = rw (bad, parse_vouts) at e in cc
      ]

  outputs_within-Between :
      (vins : List TxPoint) (budget : Option (Str × ℤ)) (inv : TxInventory)
      → outputs_within env tx timestamp vins budget ≡ ok inv
      → (hi : ℕ) × Between hash tx_point_type_vout 0 hi inv.vouts
  unfolding Between
  outputs_within-Between vins none inv e =
      let (same, no_outs) = outputs_within-none env tx timestamp vins inv e in
      (0, rw no_outs (omega arith))
  outputs_within-Between vins (some (code, value)) inv e =
      elim (outputs_within-eq-ok env tx timestamp vins code value inv e).1 [
        | inl no_outs ↦ (0, rw no_outs (omega arith))
        | inr parsed ↦
            (0 + length tx.tx_out, parse_vouts-Between 0 code value tx.tx_out inv.vouts parsed)
      ]

  parse_outputs-Between :
      (st : Spent) (inv : TxInventory)
      → parse_outputs env tx timestamp st ≡ ok inv
      → (hi : ℕ) × Between hash tx_point_type_vout 0 hi inv.vouts
  unfolding parse_outputs Between
  parse_outputs-Between st inv e = elim (Bool-cases st.illegal_vin) [
    | inl illegal ↦
        let e' = rw illegal at e in
        let no_outs : inv.vouts ≡ [] = cc in (0, rw no_outs (omega arith))
    | inr legal ↦
        outputs_within-Between st.vins (budget_of env tx st.badge_values) inv (rw legal at e)
  ]

  -- The records of a checked transaction bear its id and their kind, each index once.
  pub parse_msg_tx-Between :
      (s : S) (inv : TxInventory)
      → (parse_msg_tx env tx timestamp s).0 ≡ ok inv
      → ((hi : ℕ) × Between hash tx_point_type_vin 0 hi inv.vins)
        × ((hi : ℕ) × Between hash tx_point_type_vout 0 hi inv.vouts)
  unfolding parse_msg_tx Between
  parse_msg_tx-Between s inv e =
      let (st, looped, e') =
        >>=-eq-ok (λ m. lift (parse_outputs env tx timestamp m)) inv
          (parse_vins env tx 0 timestamp tx.tx_in nothing_spent) s e in
      let (hi, placed) = parse_vins-Between 0 tx.tx_in nothing_spent st s looped (omega arith) in
      let same : inv.vins ≡ st.vins = parse_outputs-vins env tx timestamp st inv e' in
      ((hi, rw same placed), parse_outputs-Between st inv e')
