-- ===== src/Interceptor/Handshake/Agree.antt =====
-- The two sides of a handshake: what the client sends is what the server accepts.
use touchstone.Base.{
  ℕ, ◌≤◌, ◌<◌, ◌≡◌, ap, ◌∙◌, arith, ℤ, Bytes, Str, codes, [], ◌++◌, Outcome, ok, pure, ◌>>=◌,
  length, >>=_ok,
}
use mathlib.Core.List.{flatten}
use touchstone.Interceptor.{Btcec, verify_timestamp_sig}
use touchstone.Interceptor.Reader.{new_conn_reader}
use touchstone.Interceptor.Reader.Steps.{weight}
use touchstone.Interceptor.Handshake.{
  PrivateKey, AuthRequest, Proto, Conn, or_close, frame, client_handshake, check_request,
  check_body, read_body, dropped, over_reader, server_handshake,
}
use touchstone.Interceptor.Handshake.Frame.{read_body-frame, length-frame}
use touchstone.Interceptor.Handshake.Keys.{IsKey, IsFresh, verify_timestamp_sig-sign}
use touchstone.Interceptor.Handshake.Sent.{client_handshake-HasSent, or_close_ok}

-- What the server makes of a frame, in whatever chunks it comes.
over_reader-frame :
    (f : ℕ) (payload extra : Bytes) (s : Conn)
    → flatten s.incoming ≡ frame payload ++ extra
    → length payload ≤ 512
    → weight s.incoming < f
    → (s' : Conn) × (over_reader (read_body f) s ≡ (ok payload, s'))
over_reader-frame f payload extra s whole short fuel =
    let v = read_body f (new_conn_reader s.incoming) in
    (
      record s { incoming = v.1.conn },
      ap (λ x. dropped s (x, v.1)) (read_body-frame f payload extra s.incoming whole short fuel),
    )

check_body_ok :
    (btcec : Btcec) (proto : Proto) (now : ℤ) (payload : Bytes) (request : AuthRequest) (s : Conn)
    → proto.unmarshal payload ≡ ok request
    → verify_timestamp_sig btcec now request.pubkey request.signature request.timestamp ≡ ok tt
    → check_body btcec proto (ok tt) now payload s ≡ (ok (codes "ServerHandshakeInfo"), s)
unfolding check_body check_request
check_body_ok btcec proto now payload request s e h =
    or_close_ok (check_request btcec (ok tt) now) s (proto.unmarshal payload) e
    ∙ ap (λ r. (or_close r >>= λ _. or_close (ok tt) >>= λ _. pure (codes "ServerHandshakeInfo")) s)
        h

-- If a client's handshake is ok and what it sent, in whatever chunks and with whatever behind it,
-- comes to a server whose clock is not behind the client's and at most ten seconds ahead, then the
-- server's handshake is ok, within as many rounds as come chunks and bytes and one more. That is so
-- for any valid key. The frame has at most 516 bytes, the protobuf library reads back what it
-- writes, and the deadlines are set.
pub handshakes-agree :
    (btcec : Btcec) (key : PrivateKey) (proto : Proto) (write : Bytes → Outcome ℕ) (now sent_at : ℤ)
    (c s : Conn) (extra : Bytes) (f : ℕ) {info : Str}
    → IsKey btcec key
    → ((request : AuthRequest) (bytes : Bytes)
        → proto.marshal request ≡ ok bytes
        → proto.unmarshal bytes ≡ ok request)
    → IsFresh now sent_at
    → c.sent ≡ []
    → (client_handshake key proto write sent_at c).0 ≡ ok info
    → flatten s.incoming ≡ (client_handshake key proto write sent_at c).1.sent ++ extra
    → length (client_handshake key proto write sent_at c).1.sent ≤ 516
    → weight s.incoming < f
    → (server_handshake btcec proto f (ok tt) (ok tt) now s).0 ≡ ok (codes "ServerHandshakeInfo")
unfolding server_handshake
handshakes-agree btcec key proto write now sent_at c s extra f is_key law fresh start done whole
      short fuel =
    let k = client_handshake-HasSent key proto write sent_at c done in
    let request : AuthRequest = record {
      signature = k.sig;
      pubkey = key.pub_key;
      timestamp = sent_at;
    } in
    let sent = k.has_sent ∙ ap (λ x. x ++ frame k.payload) start in
    let (s', e) =
      over_reader-frame f k.payload extra s (whole ∙ ap (λ x. x ++ extra) sent)
        (omega (arith, ap length sent, length-frame k.payload)) fuel in
    ap (λ v. v.0)
      (>>=_ok (over_reader (read_body f)) (check_body btcec proto (ok tt) now) s e
        ∙ check_body_ok btcec proto now k.payload request s' (law request k.payload k.marshalled)
            (verify_timestamp_sig-sign btcec key is_key now sent_at k.sig fresh k.signed))
