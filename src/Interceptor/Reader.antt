-- ===== src/Interceptor/Reader.antt =====
-- `ConnReader` of interceptor/p2p_interceptor.go: a buffer between a connection and its reader.
pub mod Slices
pub mod Steps
pub mod Refine
pub mod Stuck
use touchstone.Base.{
  ℕ, zero, suc, ◌+◌, ◌-◌, ◌*◌, Bytes, codes, List, [], ◌∷◌, ◌++◌, Outcome, ok, err, panic, hang,
  Error, new_error, Action, pure, ◌>>=◌, length, take, drop, ltb, leb, if◌then◌else◌,
}

-- What is still to come over a connection: the bytes that each `Read` finds, in order.
abbrev pub Feed : Type 0
Feed = List Bytes

-- `io.EOF`, or the deadline: nothing more comes.
abbrev pub eof : Error
eof = new_error (codes "EOF")

-- `net.Conn.Read` into a slice of some length. It gives what is there, up to that length; an empty
-- slice is answered at once with no bytes and no error.
unfoldable pub conn_read : ℕ → Feed → Outcome Bytes × Feed
conn_read zero feed = (ok [], feed)
conn_read (suc room) [] = (err eof, [])
conn_read (suc room) (c ∷ cs) =
    if leb (length c) (suc room)
    then (ok c, cs)
    else (ok (take (suc room) c), drop (suc room) c ∷ cs)

-- `copy(buf[pos:], bytes)`, for bytes that fit.
unfoldable pub overlay : Bytes → ℕ → Bytes → Bytes
overlay buf pos bytes = take pos buf ++ (bytes ++ drop (pos + length bytes) buf)

-- `ConnReader`
pub record ConnReader : Type 0 where
  pub conn : Feed
  pub buf : Bytes
  pub write_pos : ℕ
  pub read_pos : ℕ

-- A buffer of `n` bytes that are zero.
unfoldable pub zeros : ℕ → Bytes
zeros zero = []
zeros (suc n) = 0 ∷ zeros n

unfoldable pub new_conn_reader : Feed → ConnReader
unfolding zeros
new_conn_reader conn = record { conn = conn; buf = zeros 1024; write_pos = 0; read_pos = 0 }

-- `len(this.buf[this.readPos:this.writePos])` and `len(this.buf[this.writePos:])`
abbrev pub unread : ConnReader → ℕ
unread r = r.write_pos - r.read_pos

abbrev pub room : ConnReader → ℕ
room r = length r.buf - r.write_pos

-- `this.buf[this.readPos:this.writePos]`
abbrev pub pending : ConnReader → Bytes
pending r = drop r.read_pos (take r.write_pos r.buf)

-- The second branch moves what is unread to the front. The third makes a larger buffer, and drops
-- it; it moves the positions all the same.
unfoldable pub check_and_make_room : ℕ → ConnReader → ConnReader
unfolding overlay
check_and_make_room need r =
    if leb need (room r)
    then r
    else if leb need (room r + r.read_pos)
    then record r { buf = overlay r.buf 0 (pending r); write_pos = unread r; read_pos = 0 }
    else record r { write_pos = unread r; read_pos = 0 }

-- What `n, err := this.conn.Read(…)` and `this.writePos += n` make of the reader.
unfoldable pub filled : ConnReader → Outcome Bytes × Feed → Outcome (Unit {0}) × ConnReader
unfolding overlay
filled r (ok got, conn) = (
  ok tt,
  record r {
    conn = conn;
    buf = overlay r.buf r.write_pos got;
    write_pos = r.write_pos + length got;
  },
)
filled r (err e, conn) = (err e, record r { conn = conn })
filled r (panic, conn) = (panic, record r { conn = conn })
filled r (hang, conn) = (hang, record r { conn = conn })

unfoldable pub fill : Action ConnReader (Unit {0})
unfolding filled conn_read
fill r = filled r (conn_read (room r) r.conn)

-- `copy(buf, …)` and `this.readPos += len(buf)`, once there are enough bytes.
unfoldable pub deliver : ℕ → Action ConnReader Bytes
deliver n r = (ok (take n (pending r)), record r { read_pos = r.read_pos + n })

-- The loop of `Read`, for some number of rounds.
unfoldable pub read_loop : ℕ → ℕ → Action ConnReader Bytes
read_loop zero n r = (hang, r)
read_loop (suc f) n r =
    ◌>>=◌ fill
      (λ _ r'. let more = read_loop f n r' in if leb n (unread r') then deliver n r' else more) r

-- `Read` of `n` bytes.
unfoldable pub read : ℕ → ℕ → Action ConnReader Bytes
unfolding read_loop deliver check_and_make_room
read f n r =
    let more = read_loop f n (check_and_make_room n r) in
    if leb n (unread r) then deliver n r else more
