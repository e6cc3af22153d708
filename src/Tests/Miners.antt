-- ===== src/Tests/Miners.antt =====
-- The miner API.
use touchstone.Base.{
  subst, Bytes, Outcome, ok_injective, true, str_eq, str_eq_refl, arith, ◌≡◌, refl, pos, Str, codes,
  [], ◌∷◌, ◌++◌, ok, err, new_error,
}
use touchstone.Util.Http.{Net, http_request, add_headers, read_and_close}
use touchstone.Mapi.{
  MapiCertInfo, MapiResponse, TxStatePayload, TxState, Payloads, mapi_get_tx_state,
}
use touchstone.Mapi.Mempool.{
  Transport, MempoolMapiAdaptor, do_request, mempool_adaptor, KeyChain, new_mempool_mapi_client,
  get_extended_key, derive,
}
use touchstone.Util.Hex.{IsBytes}
use touchstone.Interceptor.{Btcec}
use touchstone.Interceptor.Handshake.Keys.{IsKey}
use touchstone.Mapi.Answered.{IsAnswer, mapi_get_tx_state-IsAnswer}
use touchstone.Tests.Store.{State}

abbrev cert : MapiCertInfo
cert = record {
  signature = codes "3044";
  public_key = codes "02ab";
  encoding = codes "UTF-8";
  mimetype = codes "application/json";
}

-- A server that answers with the address that was asked, in the body of its response.
abbrev net : Net State
net = record {
  Request = Str;
  Response = Str;
  new_request = λ method url content. ok url;
  add_header = λ key value request. request;
  send = λ request s. (ok request, s);
  read_all = λ response s. (ok response, s);
  close_body = λ response s. s;
}

abbrev transport : Transport State
transport = record {
  marshal_nil = ok (codes "null");
  marshal_send_tx = λ r. ok r.raw_tx;
  unmarshal_response = λ bytes. ok (record { cert = cert; payload = bytes });
  sha256 = λ bytes. bytes;
  http_request = http_request net (λ request. ok request.payload);
}

abbrev adaptor : MempoolMapiAdaptor
adaptor = record {
  private_key = record { sign = λ bytes. ok (3 ∷ []); pub_key = 2 ∷ [] };
  get_fee_quote_url = codes "a/v1/mapi/feeQuote";
  get_tx_state_url = codes "a/v1/mapi/tx/";
  send_raw_tx_url = codes "a/v1/mapi/tx";
}

abbrev payload : Str → TxStatePayload
payload text = record {
  api_version = codes "0.1";
  timestamp = [];
  return_result = codes "success";
  result_description = text;
  block_hash = [];
  block_height = pos 0;
  miner_id = [];
  confirmations = pos 0;
  tx_second_mempool_expiry = pos 0;
}

abbrev json : Payloads
json = record {
  fee_quote_payload = λ text. err (new_error (codes "json"));
  tx_state_payload = λ text. ok (payload text);
  send_tx_payload = λ text. err (new_error (codes "json"));
}

abbrev state : TxState
state = record { payload = payload (codes "a/v1/mapi/tx/00"); cert = cert }

-- A key whose public key and signatures are taken as they are.
abbrev btcec : Btcec
btcec = record {
  PublicKey = Bytes;
  Signature = Bytes;
  parse_pub_key = λ bytes. ok bytes;
  parse_signature = λ bytes. ok bytes;
  verify = λ sig bytes key. str_eq sig (3 ∷ []);
  parse_int = λ text. err (new_error (codes "number"));
}

three : {sig : Bytes} → ◌≡◌ {A = Outcome Bytes} (ok (3 ∷ [])) (ok sig) → 3 ∷ [] ≡ sig
three h = ok_injective h

signer-IsKey : IsKey btcec adaptor.private_key
signer-IsKey = record {
  public = 2 ∷ [];
  public_parsed = refl;
  verifies = λ bytes sig h.
      (sig, refl, subst (λ x. str_eq x (3 ∷ []) ≡ true) (three h) (str_eq_refl (3 ∷ [])));
  key_bytes = (omega arith, tt);
  sig_bytes = λ bytes sig h. subst IsBytes (three h) (omega arith, tt);
}

abbrev chain : KeyChain
chain = record {
  ExtendedKey = Unit {0};
  new_seed = λ words password. words;
  new_master = λ seed. ok tt;
  child = λ key path. ok tt;
  ec_priv_key = λ key. ok adaptor.private_key;
}

mapi_get_tx_state-IsAnswer_example :
    (response : MapiResponse) × IsAnswer btcec transport
      (2 ∷ [])
      (codes "GET")
      ((codes "a" ++ codes "/v1/mapi/tx/") ++ codes "00")
      transport.marshal_nil
      tt
      response
    × (json.tx_state_payload response.payload ≡ ok state.payload)
    × (response.cert ≡ state.cert)
unfolding mapi_get_tx_state mempool_adaptor do_request http_request add_headers read_and_close
    new_mempool_mapi_client get_extended_key derive
mapi_get_tx_state-IsAnswer_example =
    mapi_get_tx_state-IsAnswer btcec transport adaptor chain (codes "a") (codes "words") [] json
      (codes "00") tt state signer-IsKey refl refl
