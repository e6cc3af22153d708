-- ===== src/Mapi/Mempool.antt =====
-- mapi/mempool_mapi_client.go: requests that are signed with a key derived from a mnemonic.
use touchstone.Base.{
  ℕ, ◌+◌, ◌^◌, Str, Bytes, codes, List, [], ◌∷◌, ◌++◌, Outcome, ok, bind, Action, lift, ◌>>=◌,
}
use touchstone.Util.Http.{http_content_type, http_method_get, http_method_post}
use touchstone.Util.Hex.{encode_to_string}
use touchstone.Interceptor.Handshake.{PrivateKey}
use touchstone.Mapi.{MapiResponse, SendTxRequest, MapiClientAdaptor}

-- The map that is sent: `payload`, `signature` and `pubKey`.
pub record SignedRequest : Type 0 where
  pub payload : Str
  pub signature : Str
  pub pub_key : Str

-- What the adaptor uses of JSON, SHA-256 and `util.HttpRequest`, which is given the method, the
-- address, the headers and the request.
pub record Transport (S : Type 0) : Type 0 where
  -- `json.Marshal(nil)` and that of a `SendTxRequest`
  pub marshal_nil : Outcome Bytes
  pub marshal_send_tx : SendTxRequest → Outcome Bytes
  -- `json.Unmarshal` into a `MapiResponse`
  pub unmarshal_response : Bytes → Outcome MapiResponse
  pub sha256 : Bytes → Bytes
  pub http_request : Str → Str → List (Str × Str) → SignedRequest → Action S Bytes

-- `MempoolMapiAdaptor`
pub record MempoolMapiAdaptor : Type 0 where
  pub private_key : PrivateKey
  pub get_fee_quote_url : Str
  pub get_tx_state_url : Str
  pub send_raw_tx_url : Str

abbrev pub content_type : Str × Str
content_type = (http_content_type, codes "application/json")

-- What is sent for a body, once its hash is signed.
unfoldable pub signed_request : PrivateKey → Bytes → Bytes → SignedRequest
signed_request key body sig = record {
  payload = body;
  signature = encode_to_string sig;
  pub_key = encode_to_string key.pub_key;
}

module _ {S : Type 0} (transport : Transport S) (adaptor : MempoolMapiAdaptor) where
  open transport use {marshal_nil, marshal_send_tx, unmarshal_response, sha256, http_request}

  -- `doRequest`, with the result of marshalling its parameter. All callers give no headers.
  unfoldable pub do_request : Str → Str → Outcome Bytes → Action S MapiResponse
  unfolding signed_request
  do_request method url param = do
    body ← lift param
    sig ← lift (adaptor.private_key.sign (sha256 body))
    answer ←
        http_request method url (content_type ∷ []) (signed_request adaptor.private_key body sig)
    lift (unmarshal_response answer)

  unfoldable pub mempool_adaptor : MapiClientAdaptor S
  unfolding do_request
  mempool_adaptor = record {
    fee_quote = do_request http_method_get adaptor.get_fee_quote_url marshal_nil;
    tx_state = λ txid. do_request http_method_get (adaptor.get_tx_state_url ++ txid) marshal_nil;
    send_tx =
        λ request. do_request http_method_post adaptor.send_raw_tx_url (marshal_send_tx request);
  }

-- What is used of `hdkeychain` and `bip39`.
pub record KeyChain : Type 1 where
  pub ExtendedKey : Type 0
  pub new_seed : Str → Str → Bytes
  pub new_master : Bytes → Outcome ExtendedKey
  pub child : ExtendedKey → ℕ → Outcome ExtendedKey
  pub ec_priv_key : ExtendedKey → Outcome PrivateKey

-- `hdkeychain.HardenedKeyStart`
abbrev pub hardened_key_start : ℕ
hardened_key_start = 2 ^ 31

module _ (chain : KeyChain) where
  open chain use {ExtendedKey, new_seed, new_master, child, ec_priv_key}

  unfoldable pub derive : List ℕ → ExtendedKey → Outcome ExtendedKey
  derive [] key = ok key
  derive (path ∷ paths) key = bind (child key path) λ next. derive paths next

  unfoldable pub get_extended_key : ExtendedKey → Outcome ExtendedKey
  unfolding derive
  get_extended_key root =
      derive ((hardened_key_start + 44) ∷ hardened_key_start ∷ hardened_key_start ∷ 0 ∷ 0 ∷ []) root

  unfoldable pub new_mempool_mapi_client : Str → Str → Str → Outcome MempoolMapiAdaptor
  unfolding get_extended_key
  new_mempool_mapi_client host mnemonic_words password =
      bind (new_master (new_seed mnemonic_words password)) λ root.
        bind (get_extended_key root) λ key. bind (ec_priv_key key) λ private_key. ok (record {
          private_key = private_key;
          get_fee_quote_url = host ++ codes "/v1/mapi/feeQuote";
          get_tx_state_url = host ++ codes "/v1/mapi/tx/";
          send_raw_tx_url = host ++ codes "/v1/mapi/tx";
        })
