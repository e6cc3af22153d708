-- ===== src/Interceptor/Handshake/Sent.antt =====
-- What a client sends whose handshake is ok.
use touchstone.Base.{
  ℕ, ◌≡◌, refl, sym, ap, ◌∙◌, arith, ℤ, Bytes, Str, codes, Bool-cases, inl, inr, [], ◌++◌, Outcome,
  ok, err, panic, hang, Action, pure, ◌>>=◌, >>=-eq-ok, length, take, ◌==◌, take-append_left,
  >>=_ok,
}
use mathlib.Core.List.{append-nil}
use touchstone.Util.Script.{int64_to_bytes}
use touchstone.Interceptor.Handshake.{
  PrivateKey, Proto, Conn, or_close, frame, note_sent, send_payload, send_signature,
  client_handshake,
}

-- What a client has done whose handshake is ok.
pub record HasSent (key : PrivateKey) (proto : Proto) (sent_at : ℤ) (c c' : Conn) : Type 0 where
  pub sig : Bytes
  pub payload : Bytes
  pub signed : key.sign (int64_to_bytes sent_at) ≡ ok sig
  pub marshalled :
      proto.marshal (record { signature = sig; pubkey = key.pub_key; timestamp = sent_at })
      ≡ ok payload
  pub has_sent : c'.sent ≡ c.sent ++ frame payload

module _ {A B : Type 0} (f : A → Action Conn B) (c : Conn) where
  or_close-eq-ok :
      (r : Outcome A) {b : B}
      → ((or_close r >>= f) c).0 ≡ ok b
      → (a : A) × (r ≡ ok a) × ((or_close r >>= f) c ≡ f a c)
  or_close-eq-ok (ok a) h = (a, refl, refl)
  or_close-eq-ok (err e) h = absurd (cc)
  or_close-eq-ok panic h = absurd (cc)
  or_close-eq-ok hang h = absurd (cc)

  pub or_close_ok : {a : A} (r : Outcome A) → r ≡ ok a → (or_close r >>= f) c ≡ f a c
  or_close_ok r h = ap (λ x. (or_close x >>= f) c) h

note_sent-sent :
    (bytes : Bytes) (n : ℕ) (c : Conn)
    → (note_sent bytes n c).0 ≡ ok tt
    → (note_sent bytes n c).1.sent ≡ c.sent ++ bytes
unfolding note_sent
note_sent-sent bytes n c h = elim (Bool-cases (n == length bytes)) [
  | inl all_taken ↦
      let same : n ≡ length bytes = ground arith in
      rw all_taken (
        ap (λ x. c.sent ++ x)
          (ap (λ k. take k bytes) same
            ∙ (ap (take (length bytes)) (sym (append-nil bytes)) ∙ take-append_left bytes [])))
  | inr short ↦ let wrong = rw short at h in absurd (cc)
]

send_payload-sent :
    (write : Bytes → Outcome ℕ) (payload : Bytes) (c : Conn) {info : Str}
    → (send_payload write payload c).0 ≡ ok info
    → (send_payload write payload c).1.sent ≡ c.sent ++ frame payload
unfolding send_payload
send_payload-sent write payload c h =
    let bytes = frame payload in
    let m = or_close (write bytes) >>= note_sent bytes in
    let end : Unit {0} → Action Conn Str = λ _. pure (codes "ClientHandshakeInfo") in
    let (_, e, _) = >>=-eq-ok end _ m c h in
    let (n, _, e') = or_close-eq-ok (note_sent bytes) c (write bytes) e in
    let same = note_sent-sent bytes n c (ap (λ v. v.0) (sym e') ∙ e) in
    ap (λ v. v.1.sent) (>>=_ok m end c (ap (λ x. (x, (m c).1)) e)) ∙ (ap (λ v. v.1.sent) e' ∙ same)

pub client_handshake-HasSent :
    (key : PrivateKey) (proto : Proto) (write : Bytes → Outcome ℕ) (sent_at : ℤ) (c : Conn)
    {info : Str}
    → (client_handshake key proto write sent_at c).0 ≡ ok info
    → HasSent key proto sent_at c (client_handshake key proto write sent_at c).1
unfolding client_handshake send_signature
client_handshake-HasSent key proto write sent_at c h =
    let (sig, signed, e) =
      or_close-eq-ok (send_signature key proto write sent_at) c (key.sign (int64_to_bytes sent_at))
        h in
    let (payload, marshalled, e') =
      or_close-eq-ok (send_payload write) c
        (proto.marshal (record { signature = sig; pubkey = key.pub_key; timestamp = sent_at }))
        (ap (λ v. v.0) (sym e) ∙ h) in
    let whole = e ∙ e' in
    record {
      sig = sig;
      payload = payload;
      signed = signed;
      marshalled = marshalled;
      has_sent =
          ap (λ v. v.1.sent) whole
          ∙ send_payload-sent write payload c (ap (λ v. v.0) (sym whole) ∙ h);
    }
