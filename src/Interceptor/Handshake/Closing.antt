-- ===== src/Interceptor/Handshake/Closing.antt =====
-- Which handshakes close the connection.
use touchstone.Base.{
  ℕ, ◌≡◌, refl, ℤ, Bytes, codes, true, Bool-cases, inl, inr, Outcome, ok, err, panic, hang, Error,
  Action, pure, ◌>>=◌, length, resume, fail, ◌==◌,
}
use touchstone.Util.Script.{int64_to_bytes}
use touchstone.Interceptor.{Btcec, verify_timestamp_sig}
use touchstone.Interceptor.Reader.{ConnReader, new_conn_reader}
use touchstone.Interceptor.Handshake.{
  PrivateKey, Proto, Conn, AuthRequest, or_close, frame, note_sent, send_payload, send_signature,
  client_handshake, read_body, over_reader, check_request, check_body, server_handshake,
}

-- A result that is an error comes with a connection that is closed.
Closed : {A : Type 0} → Outcome A × Conn → Type 0
Closed v = (e : Error) → v.0 ≡ err e → v.1.closed ≡ true

module _ {A : Type 0} where
  or_close-Closed : (r : Outcome A) (c : Conn) → Closed (or_close r c)
  unfolding Closed
  or_close-Closed (ok a) c e h = absurd (cc)
  or_close-Closed (err e') c e h = refl
  or_close-Closed panic c e h = absurd (cc)
  or_close-Closed hang c e h = absurd (cc)

  pure-Closed : (a : A) (c : Conn) → Closed (pure a c)
  unfolding Closed
  pure-Closed a c e h = absurd (cc)

module _ {A B : Type 0} (f : A → Action Conn B) (g : (a : A) (c : Conn) → Closed (f a c)) where
  resume-Closed : (v : Outcome A × Conn) → Closed v → Closed (resume f fail v)
  unfolding Closed
  resume-Closed (ok a, c) h e k = g a c e k
  resume-Closed (err e', c) h e k = h e' refl
  resume-Closed (panic, c) h e k = absurd (cc)
  resume-Closed (hang, c) h e k = absurd (cc)

  or_close->>=-Closed : (r : Outcome A) (c : Conn) → Closed ((or_close r >>= f) c)
  or_close->>=-Closed r c = resume-Closed (or_close r c) (or_close-Closed r c)

note_sent-Closed : (bytes : Bytes) (n : ℕ) (c : Conn) → Closed (note_sent bytes n c)
unfolding Closed note_sent
note_sent-Closed bytes n c e = elim (Bool-cases (n == length bytes)) [
  | inl all_sent ↦ rw all_sent (λ h. absurd (cc))
  | inr short ↦ rw short (λ _. refl)
]

client_handshake-Closed :
    (key : PrivateKey) (proto : Proto) (write : Bytes → Outcome ℕ) (now : ℤ) (c : Conn)
    → Closed (client_handshake key proto write now c)
unfolding client_handshake send_signature send_payload
client_handshake-Closed key proto write now c =
    or_close->>=-Closed (send_signature key proto write now)
      (λ sig.
        or_close->>=-Closed (send_payload write)
          (λ payload c'.
            resume-Closed (λ _. pure (codes "ClientHandshakeInfo"))
              (λ _. pure-Closed (codes "ClientHandshakeInfo"))
              ((or_close (write (frame payload)) >>= note_sent (frame payload)) c')
              (or_close->>=-Closed (note_sent (frame payload)) (note_sent-Closed (frame payload))
                (write (frame payload)) c'))
          (proto.marshal (record { signature = sig; pubkey = key.pub_key; timestamp = now })))
      (key.sign (int64_to_bytes now)) c

over_reader-Closed : (m : Action ConnReader Bytes) (c : Conn) → Closed (over_reader m c)
over_reader-Closed m c =
    let v = m (new_conn_reader c.incoming) in or_close-Closed v.0 (record c { incoming = v.1.conn })

check_request-Closed :
    (btcec : Btcec) (cleared : Outcome (Unit {0})) (now : ℤ) (request : AuthRequest) (c : Conn)
    → Closed (check_request btcec cleared now request c)
unfolding check_request
check_request-Closed btcec cleared now request c =
    or_close->>=-Closed (λ _. or_close cleared >>= λ _. pure (codes "ServerHandshakeInfo"))
      (λ _.
        or_close->>=-Closed (λ _. pure (codes "ServerHandshakeInfo"))
          (λ _. pure-Closed (codes "ServerHandshakeInfo")) cleared)
      (verify_timestamp_sig btcec now request.pubkey request.signature request.timestamp) c

server_handshake-Closed :
    (btcec : Btcec) (proto : Proto) (f : ℕ) (deadline cleared : Outcome (Unit {0})) (now : ℤ)
    (c : Conn)
    → Closed (server_handshake btcec proto f deadline cleared now c)
unfolding server_handshake check_body
server_handshake-Closed btcec proto f deadline cleared now c =
    or_close->>=-Closed (λ _. over_reader (read_body f) >>= check_body btcec proto cleared now)
      (λ _ c'.
        resume-Closed (check_body btcec proto cleared now)
          (λ body.
            or_close->>=-Closed (check_request btcec cleared now)
              (check_request-Closed btcec cleared now) (proto.unmarshal body))
          (over_reader (read_body f) c') (over_reader-Closed (read_body f) c'))
      deadline c

-- A client's handshake that ends in an error, at whichever step, has closed the connection.
pub client_handshake-closed :
    (key : PrivateKey) (proto : Proto) (write : Bytes → Outcome ℕ) (now : ℤ) (c : Conn) (e : Error)
    → (client_handshake key proto write now c).0 ≡ err e
    → (client_handshake key proto write now c).1.closed ≡ true
unfolding Closed
client_handshake-closed key proto write now c = client_handshake-Closed key proto write now c

-- A server's handshake that ends in an error, at whichever step, has closed the connection.
pub server_handshake-closed :
    (btcec : Btcec) (proto : Proto) (f : ℕ) (deadline cleared : Outcome (Unit {0})) (now : ℤ)
    (c : Conn) (e : Error)
    → (server_handshake btcec proto f deadline cleared now c).0 ≡ err e
    → (server_handshake btcec proto f deadline cleared now c).1.closed ≡ true
unfolding Closed
server_handshake-closed btcec proto f deadline cleared now c =
    server_handshake-Closed btcec proto f deadline cleared now c
