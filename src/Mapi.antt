-- ===== src/Mapi.antt =====
-- mapi/mapi_client.go: the miner API's client over an adaptor, and its answers.
pub mod Mempool
pub mod Answered
use touchstone.Base.{ℤ, Str, List, Option, Outcome, Action, pure, lift, ◌>>=◌}

-- `MapiCertInfo`
pub record MapiCertInfo : Type 0 where
  pub signature : Str
  pub public_key : Str
  pub encoding : Str
  pub mimetype : Str

-- `MapiResponse`: the payload is JSON.
pub record MapiResponse : Type 0 where
  pub cert : MapiCertInfo
  pub payload : Str

pub record Fee : Type 0 where
  pub satoshis : ℤ
  pub bytes : ℤ

pub record FeeInfo : Type 0 where
  pub fee_type : Str
  pub mining_fee : Option Fee
  pub relay_fee : Option Fee

pub record FeeQuotePayload : Type 0 where
  pub api_version : Str
  pub timestamp : Str
  pub expiry_time : Str
  pub miner_id : Str
  pub current_highest_block_hash : Str
  pub current_highest_block_height : ℤ
  pub miner_reputation : Str
  pub fee_infos : List (Option FeeInfo)

pub record FeeQuote : Type 0 where
  pub payload : FeeQuotePayload
  pub cert : MapiCertInfo

pub record TxStatePayload : Type 0 where
  pub api_version : Str
  pub timestamp : Str
  pub return_result : Str
  pub result_description : Str
  pub block_hash : Str
  pub block_height : ℤ
  pub miner_id : Str
  pub confirmations : ℤ
  pub tx_second_mempool_expiry : ℤ

pub record TxState : Type 0 where
  pub payload : TxStatePayload
  pub cert : MapiCertInfo

pub record SendTxResultPayload : Type 0 where
  pub api_version : Str
  pub timestamp : Str
  pub txid : Str
  pub return_result : Str
  pub miner_id : Str
  pub current_highest_block_hash : Str
  pub current_highest_block_height : ℤ
  pub tx_second_mempool_expiry : ℤ
  pub result_description : Str

pub record SendTxResult : Type 0 where
  pub cert : MapiCertInfo
  pub payload : SendTxResultPayload

pub record SendTxRequest : Type 0 where
  pub raw_tx : Str

-- `MapiClientAdaptor`
pub record MapiClientAdaptor (S : Type 0) : Type 0 where
  pub fee_quote : Action S MapiResponse
  pub tx_state : Str → Action S MapiResponse
  pub send_tx : SendTxRequest → Action S MapiResponse

-- `json.Unmarshal` of the payloads.
pub record Payloads : Type 0 where
  pub fee_quote_payload : Str → Outcome FeeQuotePayload
  pub tx_state_payload : Str → Outcome TxStatePayload
  pub send_tx_payload : Str → Outcome SendTxResultPayload

module _ {S : Type 0} (adaptor : MapiClientAdaptor S) (json : Payloads) where
  unfoldable pub mapi_get_fee_quote : Action S FeeQuote
  mapi_get_fee_quote = do
    r ← adaptor.fee_quote
    p ← lift (json.fee_quote_payload r.payload)
    pure (record { payload = p; cert = r.cert })

  unfoldable pub mapi_get_tx_state : Str → Action S TxState
  mapi_get_tx_state txid = do
    r ← adaptor.tx_state txid
    p ← lift (json.tx_state_payload r.payload)
    pure (record { payload = p; cert = r.cert })

  unfoldable pub mapi_send_tx : Str → Action S SendTxResult
  mapi_send_tx raw_tx = do
    r ← adaptor.send_tx (record { raw_tx = raw_tx })
    p ← lift (json.send_tx_payload r.payload)
    pure (record { cert = r.cert; payload = p })
