-- ===== src/Services/Validate.antt =====
-- The check of a transaction against the badge protocol: `GetTxPoint` and `ParseMsgTx`.
pub mod Group
pub mod Outputs
pub mod Inputs
pub mod Conserve
pub mod Illegal
pub mod Places
pub mod Reads
use touchstone.Base.{
  ℕ, zero, suc, ◌+◌, ◌-◌, ℤ, pos, negsuc, Str, Bytes, codes, str_eq, contains, Bool, true, false,
  List, [], ◌∷◌, ◌++◌, Option, none, some, Action, Outcome, ok, err, panic, hang, Error, new_error,
  pure, lift, fail, crash, handle, ◌>>=◌, ◌==◌, ◌==ℤ◌, ltb_ℤ, ltb, leb, length, drop, ◌&&◌, not,
  if◌then◌else◌, ◌+64◌, ◌-64◌,
}
use touchstone.Wire.{Wire, MsgTx, TxIn, TxOut}
use touchstone.Util.Common.{decimal}
use touchstone.Util.Script.{BtcUtil, BadgeVout, parse_badge_vout_script}
use touchstone.Models.Collection.{is_not_found}
use touchstone.Models.TxPoints.{
  TxPoint, get_tx_point, tx_point_type_vin, tx_point_type_vout, tx_point_state_may_be_unspent,
}
use touchstone.Models.TxInfos.{MsgTxBriefInfo, get_msg_tx_brief_info, tx_state_closed}
use touchstone.Services.Env.{Env}

-- util/error.go: `ERR_UNKNOW_UTXO_CODE` and `ERR_ILLEGAL_VIN_CODE`, -4 and -6.
abbrev pub err_unknow_utxo_code : ℤ
err_unknow_utxo_code = negsuc 3

abbrev pub err_illegal_vin_code : ℤ
err_illegal_vin_code = negsuc 5

-- `util.NewCodeError(code, text)`
abbrev pub new_code_error : ℤ → Str → Error
new_code_error c t = record { code = some c; text = t }

abbrev pub badge_flag : Str
badge_flag = codes "badge"

-- 2 ^ 63 - 1
abbrev pub max_create_badge_value : ℤ
max_create_badge_value = pos 9223372036854775807

-- `TxInventory`
pub record TxInventory : Type 0 where
  pub vins : List TxPoint
  pub vouts : List TxPoint

-- Whether an unlocking script ends in the badge flag.
unfoldable pub has_badge_flag : Bytes → Bool
has_badge_flag script =
    leb (length badge_flag) (length script)
    && str_eq (drop (length script - length badge_flag) script) badge_flag

-- `map[string]int64`
abbrev pub BadgeValues : Type 0
BadgeValues = List (Str × ℤ)

-- `badgeValues[code] += value`, for a code that may not be there yet.
unfoldable pub add_badge_value : Str → ℤ → BadgeValues → BadgeValues
add_badge_value code value [] = (code, pos 0 +64 value) ∷ []
add_badge_value code value ((k, v) ∷ m) =
    if str_eq k code then (k, v +64 value) ∷ m else (k, v) ∷ add_badge_value code value m

-- `fmt.Sprintf("unknow utxo %s:%d", txid, index)`
abbrev pub unknow_utxo_text : Str → ℤ → Str
unknow_utxo_text txid index = codes "unknow utxo " ++ (txid ++ (b':' ∷ decimal index))

-- The variables of the loop over the inputs.
pub record Spent : Type 0 where
  pub badge_values : BadgeValues
  pub vins : List TxPoint
  pub illegal_vin : Bool

-- Before the first round.
abbrev pub nothing_spent : Spent
nothing_spent = record { badge_values = []; vins = []; illegal_vin = false }

module _ {S : Type 0} (env : Env S) where
  open env use {wire, btc, tx_points, tx_infos}

  abbrev unknow_utxo : Str → ℤ → Action S TxPoint
  unknow_utxo txid index = fail (new_code_error err_unknow_utxo_code (unknow_utxo_text txid index))

  -- What the second look at the collection of points makes of an error.
  abbrev pub second_error : Error → Action S TxPoint
  second_error e =
      if not (is_not_found e)
      then fail e
      else fail (new_code_error err_illegal_vin_code (codes "illegal vin"))

  -- The second look, once the transaction is known to be closed.
  abbrev pub second_look : Str → ℤ → Action S TxPoint
  second_look txid index =
      handle (get_tx_point tx_points txid index tx_point_type_vout) pure second_error

  -- What is made of the record of the transaction, and of an error in place of it.
  abbrev pub known_info : Str → ℤ → MsgTxBriefInfo → Action S TxPoint
  known_info txid index info =
      if not (info.state == tx_state_closed) then unknow_utxo txid index else second_look txid index

  abbrev pub info_error : Str → ℤ → Error → Action S TxPoint
  info_error txid index e = if not (is_not_found e) then fail e else unknow_utxo txid index

  -- What the first look makes of an error.
  abbrev pub first_error : Str → ℤ → Error → Action S TxPoint
  first_error txid index e =
      if not (is_not_found e)
      then fail e
      else handle (get_msg_tx_brief_info tx_infos txid) (known_info txid index)
          (info_error txid index)

  -- `TouchstoneServer.GetTxPoint`
  unfoldable pub server_get_tx_point : Str → ℤ → Action S TxPoint
  server_get_tx_point txid index =
      handle (get_tx_point tx_points txid index tx_point_type_vout) pure (first_error txid index)

  -- The record of an input that spends a point.
  abbrev pub spend : MsgTx → ℕ → ℤ → TxPoint → TxPoint
  spend tx index timestamp p = record {
    addr = p.addr;
    txid = wire.tx_hash tx;
    index = pos index;
    kind = tx_point_type_vin;
    value = pos 0 -64 p.value;
    pre_txid = p.txid;
    pre_index = p.index;
    badge_code = p.badge_code;
    timestamp = timestamp;
    state = tx_point_state_may_be_unspent;
  }

  -- What the loop does with the pointer `txPoint`; it is nil where `GetTxPoint` has failed.
  unfoldable pub use_point : MsgTx → ℕ → ℤ → Spent → Option TxPoint → Outcome Spent
  use_point tx index timestamp st none = panic
  use_point tx index timestamp st (some p) = ok (record st {
    badge_values = add_badge_value p.badge_code p.value st.badge_values;
    vins = st.vins ++ (spend tx index timestamp p ∷ []);
  })

  -- What the loop does with an error of `GetTxPoint`.
  unfoldable pub vin_error : MsgTx → ℕ → ℤ → Spent → Error → Action S Spent
  vin_error tx index timestamp st e = elim e.code [
    | none ↦ fail e
    | some c ↦
        if not (c ==ℤ err_illegal_vin_code)
        then fail e
        else lift (use_point tx index timestamp (record st { illegal_vin = true }) none)
  ]

  -- One round of the loop over the inputs.
  unfoldable pub parse_vin : MsgTx → ℕ → ℤ → TxIn → Spent → Action S Spent
  unfolding use_point vin_error
  parse_vin tx index timestamp vin st =
      if not (has_badge_flag vin.signature_script)
      then pure st
      else handle (server_get_tx_point vin.prev_hash (pos vin.prev_index))
          (λ p. lift (use_point tx index timestamp st (some p))) (vin_error tx index timestamp st)

  unfoldable pub parse_vins : MsgTx → ℕ → ℤ → List TxIn → Spent → Action S Spent
  parse_vins tx index timestamp [] st = pure st
  parse_vins tx index timestamp (vin ∷ rest) st = do
    st' ← parse_vin tx index timestamp vin st
    parse_vins tx (index + 1) timestamp rest st'

  abbrev pub receive : MsgTx → ℕ → ℤ → Str → BadgeVout btc.Address → TxPoint
  receive tx index timestamp badge_code v = record {
    addr = btc.address_string v.address;
    txid = wire.tx_hash tx;
    index = pos index;
    kind = tx_point_type_vout;
    value = v.badge_value;
    pre_txid = [];
    pre_index = negsuc 0;
    badge_code = badge_code;
    timestamp = timestamp;
    state = tx_point_state_may_be_unspent;
  }

  -- The loop over the outputs, with what is left of the value of the inputs; `none` where it
  -- returns because the outputs hold more.
  unfoldable pub parse_vouts :
      MsgTx → ℕ → ℤ → Str → ℤ → List TxOut → Outcome (Option (List TxPoint))
  parse_vouts tx index timestamp badge_code badge_value [] = ok (some [])
  parse_vouts tx index timestamp badge_code badge_value (out ∷ rest) =
      elim (parse_badge_vout_script btc out.pk_script) [
        | err e ↦ parse_vouts tx (index + 1) timestamp badge_code badge_value rest
        | panic ↦ panic
        | hang ↦ hang
        | ok v ↦
            let left = badge_value -64 v.badge_value in
            let more = parse_vouts tx (index + 1) timestamp badge_code left rest in
            if ltb_ℤ left (pos 0) then ok none else elim more [
              | err e ↦ err e
              | panic ↦ panic
              | hang ↦ hang
              | ok none ↦ ok none
              | ok (some points) ↦ ok (some (receive tx index timestamp badge_code v ∷ points))
            ]
      ]

  -- The badge that the outputs are of, and what they may hold: the transaction issues a badge if
  -- it spends none. `none` if it spends different badges.
  abbrev pub budget_of : MsgTx → BadgeValues → Option (Str × ℤ)
  budget_of tx [] = some (wire.tx_hash tx, max_create_badge_value)
  budget_of tx ((code, value) ∷ []) = some (code, value)
  budget_of tx (_ ∷ _ ∷ _) = none

  -- The code from the loop over the outputs on.
  unfoldable pub outputs_within : MsgTx → ℤ → List TxPoint → Option (Str × ℤ) → Outcome TxInventory
  outputs_within tx timestamp vins none = ok (record { vins = vins; vouts = [] })
  outputs_within tx timestamp vins (some (code, value)) =
      elim (parse_vouts tx 0 timestamp code value tx.tx_out) [
        | ok none ↦ ok (record { vins = vins; vouts = [] })
        | ok (some points) ↦ ok (record { vins = vins; vouts = points })
        | err e ↦ err e
        | panic ↦ panic
        | hang ↦ hang
      ]

  -- The code from the test of `illegalVin` on.
  unfoldable pub parse_outputs : MsgTx → ℤ → Spent → Outcome TxInventory
  unfolding outputs_within
  parse_outputs tx timestamp st =
      if st.illegal_vin
      then ok (record { vins = st.vins; vouts = [] })
      else outputs_within tx timestamp st.vins (budget_of tx st.badge_values)

  unfoldable pub parse_msg_tx : MsgTx → ℤ → Action S TxInventory
  unfolding parse_vins parse_outputs
  parse_msg_tx tx timestamp = do
    st ← parse_vins tx 0 timestamp tx.tx_in nothing_spent
    lift (parse_outputs tx timestamp st)
