-- ===== src/Tests/Connections.antt =====
-- Connections: a reader, and a handshake between two ends.
use touchstone.Base.{
  ℕ, zero, suc, ◌%◌, ◌≡◌, refl, ap, arith, ℤ, pos, negsuc, Bytes, Str, codes, str_eq, str_eq_refl,
  true, false, List, [], ◌∷◌, ◌++◌, map, some, Outcome, ok, err, hang, new_error, ok_injective,
  length, length-append, take, drop, subst, take-append_left, drop-append_left, ◌-64◌, ◌-ℤ◌,
  to_int64,
}
use mathlib.Core.List.{flatten}
use touchstone.Util.Hex.{IsBytes, encode_to_string, le_bytes}
use touchstone.Interceptor.{Btcec, Metadata, intercept}
use touchstone.Interceptor.Reader.{
  Feed, ConnReader, overlay, read, read_loop, fill, filled, conn_read, check_and_make_room, deliver,
  zeros, new_conn_reader,
}
use touchstone.Interceptor.Reader.Refine.{Reads, read-Reads}
use touchstone.Interceptor.Handshake.{
  PrivateKey, AuthRequest, Proto, Conn, PeerConfig, allow_pubkeys_of, get_request_metadata, frame,
  note_sent, send_payload, send_signature, client_handshake, read_body, server_handshake,
}
use touchstone.Interceptor.Handshake.Keys.{IsKey, IsFresh, intercept-get_request_metadata}
use touchstone.Interceptor.Handshake.Agree.{handshakes-agree}
use touchstone.Interceptor.Handshake.Closing.{server_handshake-closed}
use touchstone.Interceptor.Handshake.Frame.{length-zeros}
use touchstone.Interceptor.Handshake.Lost.{server_handshake-lost}
use touchstone.Interceptor.Handshake.Endless.{server_handshake-hang}

abbrev two_chunks : Feed
two_chunks = (1 ∷ 2 ∷ 3 ∷ []) ∷ (4 ∷ 5 ∷ []) ∷ []

-- One byte is unread, and there is no space behind it.
abbrev small_reader : ConnReader
small_reader = record { conn = two_chunks; buf = 8 ∷ 9 ∷ 0 ∷ 7 ∷ []; write_pos = 4; read_pos = 3 }

read-Reads_example : Reads 3 small_reader (read 10 3 small_reader)
unfolding flatten
read-Reads_example =
    read-Reads 10 3 small_reader (record { ordered = omega arith; within = omega arith })
      (λ _. omega arith) (omega arith) (omega arith)

read_run : (read 10 3 small_reader).0 ≡ ok (7 ∷ 1 ∷ 2 ∷ [])
unfolding read read_loop fill filled conn_read check_and_make_room deliver overlay
read_run = refl

-- A number modulo 256 at each place is a string of bytes.
abbrev to_bytes : List ℕ → Bytes
to_bytes bs = map (λ b. b % 256) bs

to_bytes-IsBytes : (bs : List ℕ) → IsBytes (to_bytes bs)
to_bytes-IsBytes [] = tt
to_bytes-IsBytes (b ∷ bs) = (omega arith, to_bytes-IsBytes bs)

-- An integer as two numbers.
abbrev format_int : ℤ → Str
format_int (pos n) = 0 ∷ n ∷ []
format_int (negsuc n) = 1 ∷ n ∷ []

abbrev parse_int : Str → ℤ
parse_int (zero ∷ n ∷ _) = pos n
parse_int (suc _ ∷ n ∷ _) = negsuc n
parse_int _ = pos 0

parse_int-format_int : (t : ℤ) → parse_int (format_int t) ≡ t
parse_int-format_int (pos n) = refl
parse_int-format_int (negsuc n) = refl

-- A signature is the key before the bytes.
abbrev ec : Btcec
ec = record {
  PublicKey = Bytes;
  Signature = Bytes;
  parse_pub_key = λ bytes. ok bytes;
  parse_signature = λ bytes. ok bytes;
  verify = λ sig bytes key. str_eq sig (key ++ to_bytes bytes);
  parse_int = λ text. ok (parse_int text);
}

abbrev key : PrivateKey
key = record { sign = λ bytes. ok (7 ∷ to_bytes bytes); pub_key = 7 ∷ [] }

is_key : IsKey ec key
is_key = record {
  public = 7 ∷ [];
  public_parsed = refl;
  verifies = λ bytes sig h. (
    sig,
    refl,
    subst (λ x. str_eq x (7 ∷ to_bytes bytes) ≡ true) (ok_injective h)
        (str_eq_refl (7 ∷ to_bytes bytes)),
  );
  key_bytes = (omega arith, tt);
  sig_bytes = λ bytes sig h. subst IsBytes (ok_injective h) (omega arith, to_bytes-IsBytes bytes);
}

-- The lengths and parts of a request, one after the other.
abbrev marshal : AuthRequest → Bytes
marshal r = length r.pubkey ∷ (format_int r.timestamp ++ (r.pubkey ++ r.signature))

abbrev unmarshal : Bytes → Outcome AuthRequest
unmarshal (n ∷ s ∷ t ∷ rest) =
    ok
      (record { signature = drop n rest; pubkey = take n rest; timestamp = parse_int (s ∷ t ∷ []) })
unmarshal _ = err (new_error (codes "proto"))

abbrev proto : Proto
proto = record { marshal = λ r. ok (marshal r); unmarshal = unmarshal }

parts_of :
    (sig pk : Bytes) (t : ℤ)
    → ◌≡◌ {A = Outcome AuthRequest}
        (ok (record {
          signature = drop (length pk) (pk ++ sig);
          pubkey = take (length pk) (pk ++ sig);
          timestamp = t;
        }))
        (ok (record { signature = sig; pubkey = pk; timestamp = t }))
parts_of sig pk t = rw (take-append_left pk sig, drop-append_left pk sig) refl

unmarshal-marshal :
    (sig pk : Bytes) (t : ℤ)
    → unmarshal (marshal (record { signature = sig; pubkey = pk; timestamp = t }))
      ≡ ok (record { signature = sig; pubkey = pk; timestamp = t })
unmarshal-marshal sig pk (pos n) = parts_of sig pk (pos n)
unmarshal-marshal sig pk (negsuc n) = parts_of sig pk (negsuc n)

proto_law :
    (r : AuthRequest) (bytes : Bytes) → proto.marshal r ≡ ok bytes → proto.unmarshal bytes ≡ ok r
proto_law r bytes h =
    subst (λ b. unmarshal b ≡ ok r) (ok_injective h)
      (unmarshal-marshal r.signature r.pubkey r.timestamp)

fresh : IsFresh (pos 8) (pos 5)
unfolding ◌-64◌ ◌-ℤ◌ to_int64
fresh = record { not_expired = refl; not_future = refl }

abbrev configs : List PeerConfig
configs = record { host = codes "peer"; pubkey = codes "07" } ∷ []

abbrev headers : Metadata
headers = record {
  pubkey = some (codes "07" ∷ []);
  timestamp = some (format_int (pos 5) ∷ []);
  signature = some (codes "070500000000000000" ∷ []);
}

made : get_request_metadata key format_int (pos 5) ≡ ok headers
unfolding get_request_metadata encode_to_string le_bytes
made = refl

intercept-get_request_metadata_example :
    intercept ec (allow_pubkeys_of configs) (pos 8) (some headers) ≡ ok tt
unfolding allow_pubkeys_of encode_to_string str_eq
intercept-get_request_metadata_example =
    intercept-get_request_metadata ec key is_key configs format_int (pos 8) (pos 5) headers
      (λ t. ap ok (parse_int-format_int t)) refl fresh made

abbrev wire : Bytes
wire = 13 ∷ 0 ∷ 0 ∷ 0 ∷ 1 ∷ 0 ∷ 5 ∷ 7 ∷ 7 ∷ 5 ∷ 0 ∷ 0 ∷ 0 ∷ 0 ∷ 0 ∷ 0 ∷ 0 ∷ []

abbrev no_bytes : Conn
no_bytes = record { incoming = []; sent = []; closed = false }

-- The frame in two chunks, with two bytes more.
abbrev server : Conn
server = record {
  incoming =
      (13 ∷ 0 ∷ 0 ∷ []) ∷ (0 ∷ 1 ∷ 0 ∷ 5 ∷ 7 ∷ 7 ∷ 5 ∷ 0 ∷ 0 ∷ 0 ∷ 0 ∷ 0 ∷ 0 ∷ 0 ∷ 8 ∷ 9 ∷ []) ∷ [];
  sent = [];
  closed = false;
}

abbrev write : Bytes → Outcome ℕ
write bytes = ok (length bytes)

client_run :
    client_handshake key proto write (pos 5) no_bytes
    ≡ (ok (codes "ClientHandshakeInfo"), record no_bytes { sent = wire })
unfolding client_handshake send_signature send_payload note_sent frame le_bytes
client_run = refl

handshakes-agree_example :
    (server_handshake ec proto 30 (ok tt) (ok tt) (pos 8) server).0
    ≡ ok (codes "ServerHandshakeInfo")
unfolding flatten client_handshake send_signature send_payload note_sent frame le_bytes
handshakes-agree_example =
    handshakes-agree ec key proto write (pos 8) (pos 5) no_bytes server (8 ∷ 9 ∷ []) 30 is_key
      proto_law fresh refl (ap (λ v. v.0) client_run) refl (omega arith) (omega arith)

abbrev no_write : Bytes → Outcome ℕ
no_write bytes = err (new_error (codes "EOF"))

server_handshake-closed_example :
    (server_handshake ec proto 30 (ok tt) (ok tt) (pos 5) no_bytes).1.closed ≡ true
unfolding server_handshake read_body read read_loop fill filled conn_read check_and_make_room
    new_conn_reader zeros
server_handshake-closed_example =
    server_handshake-closed ec proto 30 (ok tt) (ok tt) (pos 5) no_bytes (new_error (codes "EOF"))
      refl

-- The frame of one byte with two bytes behind it, then another chunk.
abbrev in_one_chunk : Conn
unfolding frame
in_one_chunk = record {
  incoming = (frame (5 ∷ []) ++ (8 ∷ 9 ∷ [])) ∷ (3 ∷ []) ∷ [];
  sent = [];
  closed = false;
}

server_handshake-lost_example :
    (server_handshake ec proto 30 (ok tt) (ok tt) (pos 5) in_one_chunk).1.incoming ≡ (3 ∷ []) ∷ []
unfolding frame in_one_chunk le_bytes
server_handshake-lost_example =
    server_handshake-lost ec proto 29 (ok tt) (pos 5) (5 ∷ []) (8 ∷ 9 ∷ []) ((3 ∷ []) ∷ [])
      in_one_chunk refl (omega arith)

-- A head that announces 1025 bytes, and many bytes behind it.
abbrev long_body : Conn
long_body = record { incoming = (1 ∷ 4 ∷ 0 ∷ 0 ∷ []) ∷ zeros 2048 ∷ []; sent = []; closed = false }

server_handshake-hang_example :
    (server_handshake ec proto 3000 (ok tt) (ok tt) (pos 5) long_body).0 ≡ hang
unfolding le_bytes flatten
server_handshake-hang_example =
    server_handshake-hang ec proto 3000 1025 (ok tt) (pos 5) (zeros 2048 ++ []) long_body refl
      (omega arith) (omega arith) (omega (arith, length-append (zeros 2048) [], length-zeros 2048))
      (omega (arith, length-zeros 2048))
