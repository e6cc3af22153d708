-- ===== src/Mapi/Answered.antt =====
-- What an answer of the miner API's client rests on.
use touchstone.Base.{
  ◌≡◌, sym, ap, ◌∙◌, Str, Bytes, codes, [], ◌∷◌, ◌++◌, some, true, Outcome, ok, bind-eq-ok, Action,
  pure, lift, ok_injective, ◌>>=◌, >>=-eq-ok, subst,
}
use touchstone.Util.Hex.{decode_string, decode_string-encode_to_string}
use touchstone.Interceptor.{Btcec}
use touchstone.Interceptor.Handshake.Keys.{IsKey}
use touchstone.Mapi.{MapiResponse, TxState, Payloads, mapi_get_tx_state}
use touchstone.Mapi.Mempool.{
  Transport, MempoolMapiAdaptor, SignedRequest, content_type, signed_request, do_request,
  mempool_adaptor, KeyChain, new_mempool_mapi_client, get_extended_key,
}

-- A request that whoever receives it can check: its public key is read as a key, its signature as
-- a signature, and this signs the hash of its payload under that key.
pub record IsSigned (btcec : Btcec) (sha256 : Bytes → Bytes) (pub_key : Bytes)
    (request : SignedRequest) : Type 0 where
  pub public : btcec.PublicKey
  pub sig : Bytes
  pub signature : btcec.Signature
  pub key_decoded : decode_string request.pub_key ≡ some pub_key
  pub key_parsed : btcec.parse_pub_key pub_key ≡ ok public
  pub sig_decoded : decode_string request.signature ≡ some sig
  pub sig_parsed : btcec.parse_signature sig ≡ ok signature
  pub verifies : btcec.verify signature (sha256 request.payload) public ≡ true

-- An answer to a request for what is marshalled, signed with the client's key.
pub record IsAnswer {S : Type 0} (btcec : Btcec) (transport : Transport S) (pub_key : Bytes)
    (method url : Str) (param : Outcome Bytes) (s : S) (response : MapiResponse) : Type 0 where
  pub request : SignedRequest
  pub answer : Bytes
  pub payload : param ≡ ok request.payload
  pub signed : IsSigned btcec transport.sha256 pub_key request
  pub answered :
      (transport.http_request method url
        ((codes "Content-Type", codes "application/json") ∷ [])
        request
        s).0
      ≡ ok answer
  pub read : transport.unmarshal_response answer ≡ ok response

module _ {S : Type 0} (btcec : Btcec) (transport : Transport S) (adaptor : MempoolMapiAdaptor) where
  signed_request-IsSigned :
      (body sig : Bytes)
      → IsKey btcec adaptor.private_key
      → adaptor.private_key.sign (transport.sha256 body) ≡ ok sig
      → IsSigned btcec transport.sha256 adaptor.private_key.pub_key
          (signed_request adaptor.private_key body sig)
  unfolding signed_request
  signed_request-IsSigned body sig is_key made =
      let (signature, parsed, good) = is_key.verifies (transport.sha256 body) sig made in
      record {
        public = is_key.public;
        sig = sig;
        signature = signature;
        key_decoded = decode_string-encode_to_string adaptor.private_key.pub_key is_key.key_bytes;
        key_parsed = is_key.public_parsed;
        sig_decoded =
            decode_string-encode_to_string sig (is_key.sig_bytes (transport.sha256 body) sig made);
        sig_parsed = parsed;
        verifies = good;
      }

  do_request-IsAnswer :
      (method url : Str) (param : Outcome Bytes) (s : S) (response : MapiResponse)
      → IsKey btcec adaptor.private_key
      → (do_request transport adaptor method url param s).0 ≡ ok response
      → IsAnswer btcec transport adaptor.private_key.pub_key method url param s response
  unfolding do_request signed_request
  do_request-IsAnswer method url param s response is_key h =
      let sign = λ (body : Bytes). adaptor.private_key.sign (transport.sha256 body) in
      let ask : Bytes → Bytes → Action S Bytes = λ body sig.
        transport.http_request method url (content_type ∷ [])
          (signed_request adaptor.private_key body sig) in
      let finish : Bytes → Action S MapiResponse =
        λ answer. lift (transport.unmarshal_response answer) in
      let (body, e1, h1) =
        >>=-eq-ok (λ body. lift (sign body) >>= λ sig. ask body sig >>= finish) response
          (lift param) s h in
      let (sig, e2, h2) =
        >>=-eq-ok (λ sig. ask body sig >>= finish) response (lift (sign body)) s h1 in
      let (answer, e3, h3) = >>=-eq-ok finish response (ask body sig) s h2 in
      record {
        request = signed_request adaptor.private_key body sig;
        answer = answer;
        payload = e1;
        signed = signed_request-IsSigned body sig is_key e2;
        answered = e3;
        read = h3;
      }

-- The address that a client is made with.
new_mempool_mapi_client-url :
    (chain : KeyChain) (host words password : Str) (adaptor : MempoolMapiAdaptor)
    → new_mempool_mapi_client chain host words password ≡ ok adaptor
    → adaptor.get_tx_state_url ≡ host ++ codes "/v1/mapi/tx/"
unfolding new_mempool_mapi_client
new_mempool_mapi_client-url chain host words password adaptor h =
    let (root, _, h1) = bind-eq-ok (chain.new_master (chain.new_seed words password)) _ h in
    let (key, _, h2) = bind-eq-ok (get_extended_key chain root) _ h1 in
    let (private_key, _, h3) = bind-eq-ok (chain.ec_priv_key key) _ h2 in
    ap (λ a. a.get_tx_state_url) (sym (ok_injective h3))

module _ {S : Type 0} (btcec : Btcec) (transport : Transport S) (adaptor : MempoolMapiAdaptor) where
  -- If a client is made for a host, its key's signatures are read back and verify as documented,
  -- and it gives the state of a transaction, then this was answered to a GET request of JSON for
  -- the transaction's id under /v1/mapi/tx/ at the host. Whoever receives that request can check
  -- it: its hexadecimal public key is the client's, and its signature verifies under it for the
  -- hash of its payload, which is the JSON of no parameter. The state is what the answer's
  -- payload holds, with the answer's certificate.
  pub mapi_get_tx_state-IsAnswer :
      (chain : KeyChain) (host words password : Str) (json : Payloads) (txid : Str) (s : S)
      (state : TxState)
      → IsKey btcec adaptor.private_key
      → new_mempool_mapi_client chain host words password ≡ ok adaptor
      → (mapi_get_tx_state (mempool_adaptor transport adaptor) json txid s).0 ≡ ok state
      → (response : MapiResponse) × IsAnswer btcec transport adaptor.private_key.pub_key
          (codes "GET")
          ((host ++ codes "/v1/mapi/tx/") ++ txid)
          transport.marshal_nil
          s
          response
        × (json.tx_state_payload response.payload ≡ ok state.payload)
        × (response.cert ≡ state.cert)
  unfolding mapi_get_tx_state mempool_adaptor
  mapi_get_tx_state-IsAnswer chain host words password json txid s state is_key made h =
      let url = adaptor.get_tx_state_url ++ txid in
      let m = do_request transport adaptor (codes "GET") url transport.marshal_nil in
      let build : MapiResponse → Action S TxState = λ r.
        lift (json.tx_state_payload r.payload) >>= λ p.
        pure (record { payload = p; cert = r.cert }) in
      let (response, e, h1) = >>=-eq-ok build state m s h in
      let (p, e', h2) =
        >>=-eq-ok (λ p. pure (record { payload = p; cert = response.cert })) state
          (lift (json.tx_state_payload response.payload)) (m s).1 h1 in
      let same = ok_injective h2 in
      let at = new_mempool_mapi_client-url chain host words password adaptor made in
      (
        response,
        subst
            (λ (u : Str).
              IsAnswer btcec transport adaptor.private_key.pub_key (codes "GET") (u ++ txid)
                transport.marshal_nil s response)
            at
            (do_request-IsAnswer btcec transport adaptor (codes "GET") url transport.marshal_nil s
              response is_key e),
        e' ∙ ap (λ t. ok t.payload) same,
        ap (λ t. t.cert) same,
      )
