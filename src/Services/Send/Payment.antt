-- ===== src/Services/Send/Payment.antt =====
-- The whole of `SendBadgeToAddress`: what a payment that is made pays and spends.
use touchstone.Base.{◌≡◌, ℤ, Str, List, ok, Action, pure, lift, ◌>>=◌, ℕ, pos, take, ◌-64◌}
use touchstone.Wire.{MsgTx, TxOut}
use touchstone.Util.Hex.{encode_to_string}
use touchstone.Models.TxPoints.{TxPoint}
use touchstone.Services.Env.{Env}
use touchstone.Services.Utxos.{get_all_user_utxos, sum_tx_points}
use touchstone.Services.Send.{AddrAmount, SendBadgeToAddressRsp, outputs_of, assemble, respond}
use touchstone.Services.Send.Balance.{IsNeeded, SpendAll}
use touchstone.Services.Send.Outputs.{IsChanged, PayAll, add_amounts}

module _ {S : Type 0} (env : Env S) (appid : Str) (user_id user_index : ℤ) (badge_code : Str)
    (change_addr_str : Str) (amounts : List AddrAmount) (burn : ℤ) (s : S) where
  open env use {wire, btc, new_hash_from_str}

  -- A payment: one output for each amount, read as that amount, then one for the change if any is
  -- left, and inputs that spend the first of the user's unspent outputs.
  pub record IsPayment (rsp : SendBadgeToAddressRsp) : Type 0 where
    pub outs : List TxOut
    pub points : List TxPoint
    pub tx : MsgTx
    pub taken : ℕ
    pub paid : PayAll btc amounts outs
    pub read : (get_all_user_utxos env appid user_id user_index badge_code s).0 ≡ ok points
    pub first_points : rsp.vins ≡ take taken points
    pub needed : IsNeeded (add_amounts burn amounts) (pos 0) rsp.vins
    pub spent : SpendAll new_hash_from_str rsp.vins tx.tx_in
    pub changed :
        IsChanged btc change_addr_str outs
          (sum_tx_points rsp.vins -64 add_amounts burn amounts)
          tx.tx_out
    pub version : tx.version ≡ 2
    pub lock_time : tx.lock_time ≡ 0
    pub encoded : rsp.unfinished_tx ≡ encode_to_string (wire.serialize tx)

  -- From the outputs on.
  abbrev spend_points : btc.Address → List TxOut × ℤ → List TxPoint → Action S SendBadgeToAddressRsp
  spend_points change_addr outs points =
      lift (assemble wire btc new_hash_from_str change_addr outs.0 outs.1 points) >>= λ made.
      pure (respond env made)

  abbrev with_outputs : btc.Address → List TxOut × ℤ → Action S SendBadgeToAddressRsp
  with_outputs change_addr outs =
      get_all_user_utxos env appid user_id user_index badge_code >>= spend_points change_addr outs

  abbrev with_change : btc.Address → Action S SendBadgeToAddressRsp
  with_change change_addr = lift (outputs_of btc burn amounts) >>= with_outputs change_addr
