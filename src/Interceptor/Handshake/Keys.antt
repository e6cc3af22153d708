-- ===== src/Interceptor/Handshake/Keys.antt =====
-- A peer's proof of its key with each request: the headers that a client adds are those that the
-- server accepts.
use touchstone.Base.{
  ◌≡◌, refl, ℤ, pos, Bytes, Str, str_eq, true, false, List, some, ok, bind-eq-ok, ok_injective, any,
  ltb_ℤ, ◌-64◌, subst,
}
use touchstone.Util.Hex.{IsBytes, encode_to_string, decode_string-encode_to_string}
use touchstone.Util.Script.{int64_to_bytes}
use touchstone.Services.PartitionHash.{decode_hex}
use touchstone.Interceptor.{Btcec, Metadata, allow, verify_timestamp_sig, intercept}
use touchstone.Interceptor.Handshake.{
  PrivateKey, PeerConfig, allow_pubkeys_of, get_request_metadata,
}

-- What is documented of `btcec`: the key's own encoding is read back, and so is each signature that
-- it makes, which verifies under it. Keys and signatures are strings of bytes.
pub record IsKey (btcec : Btcec) (key : PrivateKey) : Type 0 where
  pub public : btcec.PublicKey
  pub public_parsed : btcec.parse_pub_key key.pub_key ≡ ok public
  pub verifies :
      (bytes sig : Bytes)
      → key.sign bytes ≡ ok sig
      → (s : btcec.Signature) × (btcec.parse_signature sig ≡ ok s)
        × (btcec.verify s bytes public ≡ true)
  pub key_bytes : IsBytes key.pub_key
  pub sig_bytes : (bytes sig : Bytes) → key.sign bytes ≡ ok sig → IsBytes sig

-- The server's clock is not behind the client's, and in 64 bits at most ten seconds ahead.
pub record IsFresh (now sent_at : ℤ) : Type 0 where
  pub not_expired : ltb_ℤ (pos 10) (now -64 sent_at) ≡ false
  pub not_future : ltb_ℤ now sent_at ≡ false

decode_hex-encode_to_string : (bs : Bytes) → IsBytes bs → decode_hex (encode_to_string bs) ≡ ok bs
decode_hex-encode_to_string bs h = rw (decode_hex, decode_string-encode_to_string bs h) refl

module _ (btcec : Btcec) (key : PrivateKey) (is_key : IsKey btcec key) where
  pub verify_timestamp_sig-sign :
      (now sent_at : ℤ) (sig : Bytes)
      → IsFresh now sent_at
      → key.sign (int64_to_bytes sent_at) ≡ ok sig
      → verify_timestamp_sig btcec now key.pub_key sig sent_at ≡ ok tt
  unfolding verify_timestamp_sig
  verify_timestamp_sig-sign now sent_at sig fresh signed =
      let (s, parsed, good) = is_key.verifies (int64_to_bytes sent_at) sig signed in
      rw (fresh.not_expired, fresh.not_future) (rw is_key.public_parsed (rw parsed (rw good refl)))

  allow-ok :
      (keys : List Str) (k : Str) → any (λ x. str_eq x k) keys ≡ true → allow btcec keys k ≡ ok tt
  allow-ok keys k h = rw h refl

  -- A request that carries the headers of a client whose key is configured reaches the handler, if
  -- the server's clock is not behind the client's and at most ten seconds ahead.
  pub intercept-get_request_metadata :
      (configs : List PeerConfig) (format_int : ℤ → Str) (now sent_at : ℤ) (md : Metadata)
      → ((t : ℤ) → btcec.parse_int (format_int t) ≡ ok t)
      → any (λ x. str_eq x (encode_to_string key.pub_key)) (allow_pubkeys_of configs) ≡ true
      → IsFresh now sent_at
      → get_request_metadata key format_int sent_at ≡ ok md
      → intercept btcec (allow_pubkeys_of configs) now (some md) ≡ ok tt
  unfolding intercept get_request_metadata
  intercept-get_request_metadata configs format_int now sent_at md parsed known fresh made =
      let (sig, signed, e) = bind-eq-ok (key.sign (int64_to_bytes sent_at)) _ made in
      let is_md = ok_injective e in
      let sig_read =
        decode_hex-encode_to_string sig (is_key.sig_bytes (int64_to_bytes sent_at) sig signed) in
      let key_read = decode_hex-encode_to_string key.pub_key is_key.key_bytes in
      let let_in = allow-ok (allow_pubkeys_of configs) (encode_to_string key.pub_key) known in
      let read = parsed sent_at in
      let checked = verify_timestamp_sig-sign now sent_at sig fresh signed in
      subst (λ m. intercept btcec (allow_pubkeys_of configs) now (some m) ≡ ok tt) is_md (cc)
