-- ===== src/Interceptor/Handshake/Lost.antt =====
-- What a handshake takes from the connection.
use touchstone.Base.{
  ℕ, suc, ◌+◌, ◌≤◌, ◌≡◌, refl, sym, ap, ◌∙◌, arith, ℤ, Bytes, codes, true, [], ◌∷◌, ◌++◌, Outcome,
  ok, err, panic, hang, Action, pure, ◌>>=◌, >>=_ok, length, length-append, take, leb, resume, fail,
  if◌then◌else◌,
}
use touchstone.Util.Hex.{le_bytes, le_value, length-le_bytes, le_value-le_bytes}
use touchstone.Interceptor.{Btcec, verify_timestamp_sig}
use touchstone.Interceptor.Reader.{
  Feed, ConnReader, unread, pending, conn_read, overlay, new_conn_reader, check_and_make_room,
  filled, fill, deliver, read_loop, read,
}
use touchstone.Interceptor.Reader.Slices.{take-append_exact}
use touchstone.Interceptor.Reader.Steps.{take-overlay}
use touchstone.Interceptor.Handshake.Frame.{length-frame, read_rest-eq}
use mathlib.Core.List.{append_assoc}
use touchstone.Interceptor.Handshake.{
  Proto, Conn, or_close, frame, read_rest, read_body, dropped, over_reader, check_request,
  check_body, server_handshake,
}

-- The buffer of a reader, once it has taken a first chunk.
abbrev full_reader : Bytes → Feed → ℕ → ConnReader
unfolding new_conn_reader overlay
full_reader chunk cs at = record {
  conn = cs;
  buf = overlay (new_conn_reader []).buf 0 chunk;
  write_pos = 0 + length chunk;
  read_pos = at;
}

fill-chunk :
    (chunk : Bytes) (cs : Feed)
    → length chunk ≤ 1024
    → fill (new_conn_reader (chunk ∷ cs)) ≡ (ok tt, full_reader chunk cs 0)
unfolding fill filled conn_read new_conn_reader overlay
fill-chunk chunk cs h = let fits : leb (length chunk) 1024 ≡ true = ground arith in rw fits refl

-- A first chunk that fits the buffer is in the buffer as a whole after the first read.
read-chunk :
    (f : ℕ) (chunk : Bytes) (cs : Feed)
    → 4 ≤ length chunk
    → length chunk ≤ 1024
    → read (suc f) 4 (new_conn_reader (chunk ∷ cs))
      ≡ (ok (take 4 (pending (full_reader chunk cs 0))), full_reader chunk cs 4)
unfolding read read_loop new_conn_reader check_and_make_room deliver
read-chunk f chunk cs h small =
    let there : leb 4 (unread (full_reader chunk cs 0)) ≡ true = ground arith in
    let go : Unit {0} → Action ConnReader Bytes =
      λ _ r'. let more = read_loop f 4 r' in if leb 4 (unread r') then deliver 4 r' else more in
    >>=_ok fill go (new_conn_reader (chunk ∷ cs)) (fill-chunk chunk cs small) ∙ rw there refl

-- The frame that stands at the front of a chunk is read, and the whole chunk is taken.
read_body-chunk :
    (f : ℕ) (payload extra : Bytes) (cs : Feed)
    → length (frame payload ++ extra) ≤ 1024
    → (got : Bytes) × (r : ConnReader) × (read_body
          (suc f)
          (new_conn_reader ((frame payload ++ extra) ∷ cs))
        ≡ (ok got, r))
      × (r.conn ≡ cs)
unfolding read_body read_rest read deliver frame full_reader le_bytes
read_body-chunk f payload extra cs small =
    let chunk = frame payload ++ extra in
    let n = length payload in
    let size : length chunk ≡ 4 + n + length extra =
      omega (arith, length-append (frame payload) extra, length-frame payload) in
    let r1 = full_reader chunk cs 4 in
    let head : take 4 (pending (full_reader chunk cs 0)) ≡ le_bytes 4 n =
      ap (take 4) (take-overlay (new_conn_reader []).buf 0 chunk (omega arith))
      ∙ (ap (take 4) (append_assoc (le_bytes 4 n) payload extra)
          ∙ take-append_exact 4 (le_bytes 4 n) (payload ++ extra) (sym (length-le_bytes 4 n))) in
    let value : le_value (le_bytes 4 n) ≡ n = le_value-le_bytes 4 n (omega (arith, size)) in
    let there : leb n (unread r1) ≡ true = ground (arith, size) in
    let first : read (suc f) 4 (new_conn_reader (chunk ∷ cs)) ≡ (ok (le_bytes 4 n), r1) =
      read-chunk f chunk cs (omega (arith, size)) small ∙ ap (λ x. (ok x, r1)) head in
    (
      take n (pending r1),
      (deliver n r1).1,
      >>=_ok (read (suc f) 4) (read_rest (suc f)) (new_conn_reader (chunk ∷ cs)) first
          ∙ (read_rest-eq (suc f) (le_bytes 4 n) r1
              ∙ (ap (λ k. read (suc f) k r1) value ∙ rw there refl)),
      refl,
    )

module _ {A B : Type 0} (feed : Feed) (f : A → Action Conn B)
    (g : (a : A) (c : Conn) → c.incoming ≡ feed → (f a c).1.incoming ≡ feed) where
  resume-incoming :
      (v : Outcome A × Conn) → v.1.incoming ≡ feed → (resume f fail v).1.incoming ≡ feed
  resume-incoming (ok a, c) h = g a c h
  resume-incoming (err e, c) h = h
  resume-incoming (panic, c) h = h
  resume-incoming (hang, c) h = h

  or_close->>=-incoming :
      (r : Outcome A) (c : Conn) → c.incoming ≡ feed → ((or_close r >>= f) c).1.incoming ≡ feed
  or_close->>=-incoming (ok a) c h = g a c h
  or_close->>=-incoming (err e) c h = h
  or_close->>=-incoming panic c h = h
  or_close->>=-incoming hang c h = h

check_body-incoming :
    (btcec : Btcec) (proto : Proto) (cleared : Outcome (Unit {0})) (now : ℤ) (body : Bytes)
    (feed : Feed) (c : Conn)
    → c.incoming ≡ feed
    → (check_body btcec proto cleared now body c).1.incoming ≡ feed
unfolding check_body check_request
check_body-incoming btcec proto cleared now body feed =
    or_close->>=-incoming feed (check_request btcec cleared now)
      (λ request.
        or_close->>=-incoming feed
          (λ _. or_close cleared >>= λ _. pure (codes "ServerHandshakeInfo"))
          (λ _.
            or_close->>=-incoming feed (λ _. pure (codes "ServerHandshakeInfo")) (λ _ c h. h)
              cleared)
          (verify_timestamp_sig btcec now request.pubkey request.signature request.timestamp))
      (proto.unmarshal body)

-- If the first chunk that comes to a server is a frame and what the client sent behind it, and it
-- fits the buffer of 1024 bytes, the handshake takes the whole chunk off the connection, whatever
-- its result: what was sent behind the frame is gone.
pub server_handshake-lost :
    (btcec : Btcec) (proto : Proto) (f : ℕ) (cleared : Outcome (Unit {0})) (now : ℤ)
    (payload extra : Bytes) (cs : Feed) (s : Conn)
    → s.incoming ≡ (frame payload ++ extra) ∷ cs
    → length (frame payload ++ extra) ≤ 1024
    → (server_handshake btcec proto (suc f) (ok tt) cleared now s).1.incoming ≡ cs
unfolding server_handshake
server_handshake-lost btcec proto f cleared now payload extra cs s first small =
    let (got, r, e, left) = read_body-chunk f payload extra cs small in
    let taken : over_reader (read_body (suc f)) s ≡ (ok got, record s { incoming = r.conn }) =
      ap (λ feed. dropped s (read_body (suc f) (new_conn_reader feed))) first ∙ ap (dropped s) e in
    ap (λ v. v.1.incoming)
      (>>=_ok (over_reader (read_body (suc f))) (check_body btcec proto cleared now) s taken)
    ∙ check_body-incoming btcec proto cleared now got cs (record s { incoming = r.conn }) left
