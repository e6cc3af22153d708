-- ===== src/Interceptor/Handshake.antt =====
-- interceptor/p2p_interceptor.go: what a peer proves of its key, with each request
-- (`AuthPerRPCCredential`) and when it connects (`AuthCredential`).
pub mod Frame
pub mod Keys
pub mod Sent
pub mod Agree
pub mod Closing
pub mod Lost
pub mod Endless
use touchstone.Base.{
  ℕ, ℤ, Str, Bytes, codes, Bool, true, false, not, List, [], ◌∷◌, ◌++◌, Option, none, some, map,
  Outcome, ok, err, panic, hang, bind, Error, new_error, Action, pure, lift, ◌>>=◌, length, take,
  leb, ◌==◌, if◌then◌else◌,
}
use touchstone.Util.Hex.{encode_to_string, le_bytes, le_value}
use touchstone.Util.Script.{int64_to_bytes}
use touchstone.Interceptor.{Btcec, Metadata, verify_timestamp_sig}
use touchstone.Interceptor.Reader.{Feed, ConnReader, new_conn_reader, read}

-- A `*btcec.PrivateKey`: `Sign` with `Serialize` of the signature, and
-- `PubKey().SerializeCompressed()`.
pub record PrivateKey : Type 0 where
  pub sign : Bytes → Outcome Bytes
  pub pub_key : Bytes

-- `message.AuthRequest`
pub record AuthRequest : Type 0 where
  pub signature : Bytes
  pub pubkey : Bytes
  pub timestamp : ℤ

-- `proto.Marshal` and `proto.Unmarshal` of an `AuthRequest`.
pub record Proto : Type 0 where
  pub marshal : AuthRequest → Outcome Bytes
  pub unmarshal : Bytes → Outcome AuthRequest

-- One end of a `net.Conn`: what comes in, what was sent, and whether it was closed.
pub record Conn : Type 0 where
  pub incoming : Feed
  pub sent : Bytes
  pub closed : Bool

abbrev pub auth_head_long : ℕ
auth_head_long = 4

-- `conf.PeerConfig`
pub record PeerConfig : Type 0 where
  pub host : Str
  pub pubkey : Str

-- The keys of the map, the last first: a key that is set twice stands here twice.
unfoldable pub allow_pubkeys_of : List PeerConfig → List Str
allow_pubkeys_of configs = map (λ c. c.pubkey) configs

-- The headers of a request, at the time `now`. `format_int` is `strconv.FormatInt(timestamp, 10)`.
unfoldable pub get_request_metadata : PrivateKey → (ℤ → Str) → ℤ → Outcome Metadata
get_request_metadata key format_int now = bind (key.sign (int64_to_bytes now)) λ sig. ok (record {
  pubkey = some (encode_to_string key.pub_key ∷ []);
  timestamp = some (format_int now ∷ []);
  signature = some (encode_to_string sig ∷ []);
})

-- A call with `if err != nil { conn.Close(); return conn, nil, err }`.
abbrev pub or_close : {A : Type 0} → Outcome A → Action Conn A
or_close (ok a) c = (ok a, c)
or_close (err e) c = (err e, record c { closed = true })
or_close panic c = (panic, c)
or_close hang c = (hang, c)

-- The four bytes of the payload's length, then the payload.
unfoldable pub frame : Bytes → Bytes
frame payload = le_bytes auth_head_long (length payload) ++ payload

-- `n != len(authReqByte)`, where the connection took `n` bytes.
unfoldable pub note_sent : Bytes → ℕ → Action Conn (Unit {0})
note_sent bytes n c =
    let c' : Conn = record c { sent = c.sent ++ take n bytes } in
    if n == length bytes
    then (ok tt, c')
    else or_close (err (new_error (codes "n != len(authReqByte)"))) c'

-- `n, err = conn.Write(authReqByte)` and the rest; `write` says how many bytes the connection takes.
-- The result is the text of `AuthInfo`.
unfoldable pub send_payload : (Bytes → Outcome ℕ) → Bytes → Action Conn Str
unfolding frame note_sent
send_payload write payload = or_close (write (frame payload)) >>= note_sent (frame payload) >>= λ _.
    pure (codes "ClientHandshakeInfo")

-- The code behind the signature.
unfoldable pub send_signature :
    PrivateKey → Proto → (Bytes → Outcome ℕ) → ℤ → Bytes → Action Conn Str
unfolding send_payload
send_signature key proto write now sig =
    or_close (proto.marshal (record { signature = sig; pubkey = key.pub_key; timestamp = now }))
    >>= send_payload write

-- `ClientHandshake` at the time `now`. Writing to a buffer does not fail.
unfoldable pub client_handshake : PrivateKey → Proto → (Bytes → Outcome ℕ) → ℤ → Action Conn Str
unfolding send_signature
client_handshake key proto write now =
    or_close (key.sign (int64_to_bytes now)) >>= send_signature key proto write now

-- The test of the body's length, with the `err` in scope where it stands.
unfoldable pub check_body_len : ℕ → Option Error → Outcome (Unit {0})
check_body_len body_len error =
    if leb body_len 1000
    then ok tt
    else elim error [ none ↦ ok tt | some e ↦ err (new_error (codes "not support body size")) ]

-- The code behind the read of the head, whose error is nil there.
unfoldable pub read_rest : ℕ → Bytes → Action ConnReader Bytes
unfolding check_body_len read
read_rest f head = lift (check_body_len (le_value head) none) >>= λ _. read f (le_value head)

-- The reads of the head and the body, for some number of rounds each.
unfoldable pub read_body : ℕ → Action ConnReader Bytes
unfolding read read_rest
read_body f = read f auth_head_long >>= read_rest f

-- What is left of the connection when the reader, which is local, is dropped.
abbrev pub dropped : Conn → Outcome Bytes × ConnReader → Outcome Bytes × Conn
dropped c (r, reader) = or_close r (record c { incoming = reader.conn })

abbrev pub over_reader : Action ConnReader Bytes → Action Conn Bytes
over_reader m c = dropped c (m (new_conn_reader c.incoming))

-- The code behind the body at the time `now`, where `cleared` is the result of the second call of
-- `SetReadDeadline`. The result is the text of `AuthInfo`.
unfoldable pub check_request : Btcec → Outcome (Unit {0}) → ℤ → AuthRequest → Action Conn Str
check_request btcec cleared now request =
    or_close (verify_timestamp_sig btcec now request.pubkey request.signature request.timestamp)
    >>= λ _. or_close cleared >>= λ _. pure (codes "ServerHandshakeInfo")

unfoldable pub check_body : Btcec → Proto → Outcome (Unit {0}) → ℤ → Bytes → Action Conn Str
unfolding check_request
check_body btcec proto cleared now body =
    or_close (proto.unmarshal body) >>= check_request btcec cleared now

-- `ServerHandshake`, where `deadline` is the result of the first call of `SetReadDeadline`.
unfoldable pub server_handshake :
    Btcec → Proto → ℕ → Outcome (Unit {0}) → Outcome (Unit {0}) → ℤ → Action Conn Str
unfolding read_body check_body
server_handshake btcec proto f deadline cleared now =
    or_close deadline >>= λ _. over_reader (read_body f) >>= check_body btcec proto cleared now
