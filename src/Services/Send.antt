-- ===== src/Services/Send.antt =====
-- `SendBadgeToAddress`: an unsigned transaction that pays badges to some addresses.
pub mod Balance
pub mod Outputs
pub mod Payment
use touchstone.Base.{
  ℕ, ◌+◌, ◌%◌, ◌^◌, ℤ, pos, negsuc, pos_part, Str, Bytes, codes, Bool, List, [], ◌∷◌, ◌++◌, Action,
  Error, Outcome, ok, err, panic, hang, bind, pure, fail, lift, ◌>>=◌, leb_ℤ, ltb_ℤ, ◌==ℤ◌,
  to_uint64, ◌+64◌, ◌-64◌, if◌then◌else◌,
}
use touchstone.Wire.{MsgTx, TxIn, TxOut, Wire}
use touchstone.Util.Hex.{encode_to_string}
use touchstone.Util.Script.{BtcUtil, create_badge_lock_script}
use touchstone.Models.TxPoints.{TxPoint}
use touchstone.Services.Env.{Env}
use touchstone.Services.Validate.{new_code_error}
use touchstone.Services.Utxos.{get_all_user_utxos}

abbrev pub tx_version : ℕ
tx_version = 2

abbrev pub badge_dust_limit : ℤ
badge_dust_limit = pos 888

-- util/error.go: `ERR_NOT_ENOUGH_BADGE_CODE`, -8.
abbrev pub err_not_enough_badge_code : ℤ
err_not_enough_badge_code = negsuc 7

-- `AddrAmount`
pub record AddrAmount : Type 0 where
  pub addr : Str
  pub amount : ℤ

-- `SendBadgeToAddressRsp`
pub record SendBadgeToAddressRsp : Type 0 where
  pub unfinished_tx : Str
  pub vins : List TxPoint

-- The variables of the loop over the points: those taken, and their value.
pub record Picked : Type 0 where
  pub used_vins : List TxPoint
  pub vin_value : ℤ

-- The loop over the points, without what it adds to the transaction.
unfoldable pub pick_vins : ℤ → List TxPoint → Picked → Picked
pick_vins vout_value [] st = st
pick_vins vout_value (p ∷ ps) st =
    let more =
      pick_vins vout_value ps
        (record { used_vins = st.used_vins ++ (p ∷ []); vin_value = st.vin_value +64 p.value }) in
    if leb_ℤ vout_value st.vin_value then st else more

-- `chainhash.NewHashFromStr` and `wire.NewTxIn` for the points that are taken; the index is
-- converted to 32 bits.
unfoldable pub inputs_of : (Str → Outcome Str) → List TxPoint → Outcome (List TxIn)
inputs_of new_hash [] = ok []
inputs_of new_hash (p ∷ ps) = bind (new_hash p.txid) λ hash. bind (inputs_of new_hash ps) λ rest.
    ok (
      record { prev_hash = hash; prev_index = to_uint64 p.index % 2 ^ 32; signature_script = [] }
      ∷ rest)

-- The loop over the amounts: the outputs, and the amount to burn with all of them added.
unfoldable pub outputs_of : (btc : BtcUtil) → ℤ → List AddrAmount → Outcome (List TxOut × ℤ)
outputs_of btc vout_value [] = ok ([], vout_value)
outputs_of btc vout_value (a ∷ rest) = bind (btc.decode_address a.addr) λ addr.
    bind (create_badge_lock_script btc addr a.amount) λ script.
      bind (outputs_of btc (vout_value +64 a.amount) rest)
        λ more. ok (record { value = badge_dust_limit; pk_script = script } ∷ more.0, more.1)

-- What the code does once the inputs are chosen.
unfoldable pub change_outputs :
    (btc : BtcUtil) → btc.Address → List TxOut → ℤ → Outcome (List TxOut)
change_outputs btc change_addr outs change =
    if ltb_ℤ change (pos 0)
    then err (new_code_error err_not_enough_badge_code (codes "not enough badge"))
    else if change ==ℤ pos 0
    then ok outs
    else bind (create_badge_lock_script btc change_addr change)
        λ script. ok (outs ++ (record { value = badge_dust_limit; pk_script = script } ∷ []))

abbrev pub nothing_picked : Picked
nothing_picked = record { used_vins = []; vin_value = pos 0 }

abbrev pub unfinished : List TxIn → List TxOut → MsgTx
unfinished ins outs = record { version = tx_version; tx_in = ins; tx_out = outs; lock_time = 0 }

-- From the points on.
unfoldable pub assemble :
    (wire : Wire) (btc : BtcUtil)
    → (Str → Outcome Str)
    → btc.Address
    → List TxOut
    → ℤ
    → List TxPoint
    → Outcome (MsgTx × List TxPoint)
unfolding pick_vins inputs_of change_outputs
assemble wire btc new_hash change_addr outs vout_value points =
    let picked = pick_vins vout_value points nothing_picked in
    bind (inputs_of new_hash picked.used_vins) λ ins.
      bind (change_outputs btc change_addr outs (picked.vin_value -64 vout_value))
        λ all. ok (unfinished ins all, picked.used_vins)

module _ {S : Type 0} (env : Env S) where
  open env use {wire, btc, new_hash_from_str}

  abbrev respond : MsgTx × List TxPoint → SendBadgeToAddressRsp
  respond (tx, used) = record { unfinished_tx = encode_to_string (wire.serialize tx); vins = used }

  unfoldable pub send_badge_to_address :
      Str → ℤ → ℤ → Str → Str → List AddrAmount → ℤ → Action S SendBadgeToAddressRsp
  unfolding outputs_of assemble
  send_badge_to_address appid user_id user_index badge_code change_addr_str addr_amounts
        amount2burn =
      do
        change_addr ← lift (btc.decode_address change_addr_str)
        outs ← lift (outputs_of btc amount2burn addr_amounts)
        points ← get_all_user_utxos env appid user_id user_index badge_code
        made ← lift (assemble wire btc new_hash_from_str change_addr outs.0 outs.1 points)
        pure (respond made)
