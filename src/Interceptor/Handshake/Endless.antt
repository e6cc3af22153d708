-- ===== src/Interceptor/Handshake/Endless.antt =====
-- A body that is longer than the reader's buffer.
use touchstone.Base.{ℕ, ◌^◌, ◌≤◌, ◌<◌, ◌≡◌, ap, ℤ, Bytes, ◌++◌, Outcome, ok, hang, >>=_hang, length}
use mathlib.Core.List.{flatten}
use touchstone.Util.Hex.{le_bytes}
use touchstone.Interceptor.{Btcec}
use touchstone.Interceptor.Reader.{new_conn_reader}
use touchstone.Interceptor.Reader.Steps.{weight}
use touchstone.Interceptor.Handshake.{
  Proto, Conn, read_body, dropped, over_reader, check_body, server_handshake,
}
use touchstone.Interceptor.Handshake.Frame.{read_body-hang}

-- A peer that announces a body of more than 1024 bytes, in the four bytes of its head, and sends
-- 2048 bytes or more behind it, keeps the server's handshake from ending, however many rounds its
-- loops are given from as many on as come chunks and bytes and one more. The test of the length
-- does not refuse it.
pub server_handshake-hang :
    (btcec : Btcec) (proto : Proto) (f n : ℕ) (cleared : Outcome (Unit {0})) (now : ℤ)
    (tail : Bytes) (s : Conn)
    → flatten s.incoming ≡ le_bytes 4 n ++ tail
    → 1024 < n
    → n < 2 ^ 32
    → 2048 ≤ length tail
    → weight s.incoming < f
    → (server_handshake btcec proto f (ok tt) cleared now s).0 ≡ hang
unfolding server_handshake
server_handshake-hang btcec proto f n cleared now tail s whole long small plenty fuel =
    let v = read_body f (new_conn_reader s.incoming) in
    let s' : Conn = record s { incoming = v.1.conn } in
    let endless : over_reader (read_body f) s ≡ (hang, s') =
      ap (λ r. dropped s (r, v.1))
        (read_body-hang f n tail s.incoming whole long small plenty fuel) in
    ap (λ w. w.0)
      (>>=_hang (over_reader (read_body f)) (check_body btcec proto cleared now) s endless)
