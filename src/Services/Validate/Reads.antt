-- ===== src/Services/Validate/Reads.antt =====
-- The check of a transaction only reads.
use touchstone.Base.{
  ℕ, ◌+◌, arith, ℤ, pos, Str, Bool, Bool-cases, inl, inr, List, [], ◌∷◌, some, Error, Action, lift,
  pure, refl, Leaves, handle-Leaves, >>=-Leaves, not, ◌==◌, if◌then◌else◌,
}
use touchstone.Wire.{MsgTx, TxIn}
use touchstone.Models.Collection.{is_not_found}
use touchstone.Models.TxPoints.{TxPoint, get_tx_point, tx_point_type_vout}
use touchstone.Models.TxInfos.{
  RawTxInfo, MsgTxBriefInfo, brief, is_info_of, get_msg_tx_brief_info, tx_state_closed,
}
use touchstone.Services.Env.{Env}
use touchstone.Services.Validate.{
  Spent, nothing_spent, second_error, known_info, info_error, first_error, server_get_tx_point,
  use_point, vin_error, parse_vin, parse_vins, parse_outputs, parse_msg_tx, has_badge_flag,
}

module _ {S X : Type 0} (view : S → X) where
  choice-Leaves :
      {A : Type 0} (b : Bool) (m n : Action S A)
      → Leaves view m
      → Leaves view n
      → Leaves view (if b then m else n)
  choice-Leaves b m n hm hn s = elim (Bool-cases b) [
    | inl yes_it_is ↦ rw yes_it_is (hm s)
    | inr no_it_is ↦ rw no_it_is (hn s)
  ]

module _ {S X : Type 0} (env : Env S) (view : S → X)
    (points_read : (test : TxPoint → Bool) → Leaves view (env.tx_points.get_one test))
    (infos_read : (test : RawTxInfo → Bool) → Leaves view (env.tx_infos.get_one test)) where
  pub get_tx_point-Leaves :
      (txid : Str) (index : ℤ)
      → Leaves view (get_tx_point env.tx_points txid index tx_point_type_vout)
  unfolding get_tx_point
  get_tx_point-Leaves txid index s = points_read _ s

  second_error-Leaves : (e : Error) → Leaves view (second_error env e)
  second_error-Leaves e = choice-Leaves view (not (is_not_found e)) _ _ (λ s. refl) (λ s. refl)

  known_info-Leaves :
      (txid : Str) (index : ℤ) (info : MsgTxBriefInfo)
      → Leaves view (known_info env txid index info)
  known_info-Leaves txid index info =
      choice-Leaves view (not (info.state == tx_state_closed)) _ _ (λ s. refl)
        (handle-Leaves view pure (get_tx_point env.tx_points txid index tx_point_type_vout)
          (second_error env) (get_tx_point-Leaves txid index) (λ p s. refl) second_error-Leaves)

  pub get_msg_tx_brief_info-Leaves :
      (txid : Str) → Leaves view (get_msg_tx_brief_info env.tx_infos txid)
  unfolding get_msg_tx_brief_info
  get_msg_tx_brief_info-Leaves txid =
      >>=-Leaves view (λ d. pure (brief d)) (env.tx_infos.get_one (is_info_of txid))
        (infos_read (is_info_of txid)) (λ d s. refl)

  first_error-Leaves :
      (txid : Str) (index : ℤ) (e : Error) → Leaves view (first_error env txid index e)
  first_error-Leaves txid index e =
      choice-Leaves view (not (is_not_found e)) _ _ (λ s. refl)
        (handle-Leaves view (known_info env txid index) (get_msg_tx_brief_info env.tx_infos txid)
          (info_error env txid index) (get_msg_tx_brief_info-Leaves txid)
          (known_info-Leaves txid index)
          (λ e'. choice-Leaves view (not (is_not_found e')) _ _ (λ s. refl) (λ s. refl)))

  server_get_tx_point-Leaves :
      (txid : Str) (index : ℤ) → Leaves view (server_get_tx_point env txid index)
  unfolding server_get_tx_point
  server_get_tx_point-Leaves txid index =
      handle-Leaves view pure (get_tx_point env.tx_points txid index tx_point_type_vout)
        (first_error env txid index) (get_tx_point-Leaves txid index) (λ p s. refl)
        (first_error-Leaves txid index)

  vin_error-Leaves :
      (tx : MsgTx) (index : ℕ) (timestamp : ℤ) (st : Spent) (e : Error)
      → Leaves view (vin_error env tx index timestamp st e)
  unfolding vin_error
  vin_error-Leaves tx index timestamp st e s = ground arith

  pub parse_vin-Leaves :
      (tx : MsgTx) (index : ℕ) (timestamp : ℤ) (vin : TxIn) (st : Spent)
      → Leaves view (parse_vin env tx index timestamp vin st)
  unfolding parse_vin
  parse_vin-Leaves tx index timestamp vin st =
      choice-Leaves view (not (has_badge_flag vin.signature_script)) _ _ (λ s. refl)
        (handle-Leaves view (λ p. lift (use_point env tx index timestamp st (some p)))
          (server_get_tx_point env vin.prev_hash (pos vin.prev_index))
          (vin_error env tx index timestamp st)
          (server_get_tx_point-Leaves vin.prev_hash (pos vin.prev_index)) (λ p s. refl)
          (vin_error-Leaves tx index timestamp st))

  parse_vins-Leaves :
      (tx : MsgTx) (index : ℕ) (timestamp : ℤ) (vins : List TxIn) (st : Spent)
      → Leaves view (parse_vins env tx index timestamp vins st)
  unfolding parse_vins
  parse_vins-Leaves tx index timestamp [] st = λ s. refl
  parse_vins-Leaves tx index timestamp (vin ∷ vins) st =
      >>=-Leaves view (λ m. parse_vins env tx (index + 1) timestamp vins m)
        (parse_vin env tx index timestamp vin st) (parse_vin-Leaves tx index timestamp vin st)
        (λ m. parse_vins-Leaves tx (index + 1) timestamp vins m)

  pub parse_msg_tx-Leaves :
      (tx : MsgTx) (timestamp : ℤ) → Leaves view (parse_msg_tx env tx timestamp)
  unfolding parse_msg_tx
  parse_msg_tx-Leaves tx timestamp =
      >>=-Leaves view (λ m. lift (parse_outputs env tx timestamp m))
        (parse_vins env tx 0 timestamp tx.tx_in nothing_spent)
        (parse_vins-Leaves tx 0 timestamp tx.tx_in nothing_spent) (λ m s. refl)
