-- ===== src/Interceptor/Handshake/Frame.antt =====
-- The frame that a client sends, read back by the server.
use touchstone.Base.{
  ℕ, zero, suc, ◌+◌, ◌^◌, ◌≤◌, ◌<◌, ◌≡◌, refl, sym, ap, ◌∙◌, arith, Bytes, Bool-cases, inl, inr,
  ◌++◌, none, ok, hang, length, length-append, take, drop, leb, >>=_ok,
}
use mathlib.Core.List.{flatten, append_assoc}
use touchstone.Util.Hex.{le_bytes, le_value, length-le_bytes, le_value-le_bytes}
use touchstone.Interceptor.Reader.{Feed, ConnReader, unread, pending, zeros, new_conn_reader, read}
use touchstone.Interceptor.Reader.Slices.{take-append_exact, drop-append_exact}
use touchstone.Interceptor.Reader.Steps.{stream, IsValid, weight, length-pending}
use touchstone.Interceptor.Reader.Refine.{read-Reads}
use touchstone.Interceptor.Reader.Stuck.{read-hang}
use touchstone.Interceptor.Handshake.{frame, check_body_len, read_rest, read_body}

pub length-zeros : (n : ℕ) → length (zeros n) ≡ n
unfolding zeros
length-zeros zero = refl
length-zeros (suc n) = omega (arith, length-zeros n)

pub new_conn_reader-IsValid : (feed : Feed) → IsValid (new_conn_reader feed)
unfolding new_conn_reader
new_conn_reader-IsValid feed = record { ordered = omega arith; within = omega arith }

new_conn_reader-size : (feed : Feed) → length (new_conn_reader feed).buf ≡ 1024
unfolding new_conn_reader
new_conn_reader-size feed = length-zeros 1024

new_conn_reader-stream : (feed : Feed) → stream (new_conn_reader feed) ≡ flatten feed
unfolding new_conn_reader
new_conn_reader-stream feed = refl

new_conn_reader-conn : (feed : Feed) → (new_conn_reader feed).conn ≡ feed
unfolding new_conn_reader
new_conn_reader-conn feed = refl

new_conn_reader-unread : (feed : Feed) → unread (new_conn_reader feed) ≡ 0
unfolding new_conn_reader
new_conn_reader-unread feed = refl

-- The server test of the length lets every length pass.
check_body_len_ok : (n : ℕ) → check_body_len n none ≡ ok tt
unfolding check_body_len
check_body_len_ok n = elim (Bool-cases (leb n 1000)) [
  | inl small ↦ rw small refl
  | inr large ↦ rw large refl
]

pub read_rest-eq :
    (f : ℕ) (head : Bytes) (r : ConnReader) → read_rest f head r ≡ read f (le_value head) r
unfolding read_rest
read_rest-eq f head r = rw (check_body_len_ok (le_value head)) refl

-- What the reader is like once it has read a head that announces `n` bytes.
record AfterHead (f n : ℕ) (tail : Bytes) (feed : Feed) (r : ConnReader) : Type 0 where
  goes_on : read_body f (new_conn_reader feed) ≡ read f n r
  left : stream r ≡ tail
  valid : IsValid r
  size : length r.buf ≡ 1024
  lighter : weight r.conn ≤ weight feed

read_body-head :
    (f n : ℕ) (tail : Bytes) (feed : Feed)
    → flatten feed ≡ le_bytes 4 n ++ tail
    → n < 2 ^ 32
    → weight feed < f
    → (r : ConnReader) × AfterHead f n tail feed r
unfolding read_body
read_body-head f n tail feed whole small fuel =
    let r0 = new_conn_reader feed in
    let at0 : stream r0 ≡ le_bytes 4 n ++ tail = new_conn_reader-stream feed ∙ whole in
    let four = length-le_bytes 4 n in
    let first =
      read-Reads f 4 r0 (new_conn_reader-IsValid feed)
        (λ _. omega (arith, new_conn_reader-unread feed, new_conn_reader-size feed))
        (omega (arith, ap length at0, length-append (le_bytes 4 n) tail, four))
        (omega (arith, ap weight (new_conn_reader-conn feed), fuel)) in
    let r1 = (read f 4 r0).1 in
    let got : read f 4 r0 ≡ (ok (le_bytes 4 n), r1) =
      ap (λ z. (z, r1))
        (first.got
          ∙ ap ok (ap (take 4) at0 ∙ take-append_exact 4 (le_bytes 4 n) tail (sym four))) in
    let value : le_value (le_bytes 4 n) ≡ n = le_value-le_bytes 4 n (omega arith) in
    (
      r1,
      record {
        goes_on =
            >>=_ok (read f 4) (read_rest f) r0 got
            ∙ (read_rest-eq f (le_bytes 4 n) r1 ∙ ap (λ k. read f k r1) value);
        left = first.rest ∙ (ap (drop 4) at0 ∙ drop-append_exact 4 (le_bytes 4 n) tail (sym four));
        valid = first.valid;
        size = first.same_size ∙ new_conn_reader-size feed;
        lighter = omega (arith, first.lighter, ap weight (new_conn_reader-conn feed));
      },
    )

pub length-frame : (payload : Bytes) → length (frame payload) ≡ 4 + length payload
unfolding frame
length-frame payload =
    omega (
      arith,
      length-append (le_bytes 4 (length payload)) payload,
      length-le_bytes 4 (length payload),
    )

-- The body that a server reads is the payload that a client framed, if it has at most 512 bytes,
-- in whatever chunks the frame and what follows it come.
pub read_body-frame :
    (f : ℕ) (payload extra : Bytes) (feed : Feed)
    → flatten feed ≡ frame payload ++ extra
    → length payload ≤ 512
    → weight feed < f
    → (read_body f (new_conn_reader feed)).0 ≡ ok payload
unfolding frame
read_body-frame f payload extra feed whole short fuel =
    let n = length payload in
    let split = whole ∙ append_assoc (le_bytes 4 n) payload extra in
    let (r, h) = read_body-head f n (payload ++ extra) feed split (omega arith) fuel in
    let body =
      read-Reads f n r h.valid (λ few. omega (arith, few, h.size))
        (omega (arith, ap length h.left, length-append payload extra))
        (omega (arith, h.lighter, fuel)) in
    ap (λ v. v.0) h.goes_on
    ∙ (body.got ∙ ap ok (ap (take n) h.left ∙ take-append_exact n payload extra refl))

-- A head that announces more than 1024 bytes keeps the server in its loop, however many rounds
-- there are, once 2048 bytes have followed.
pub read_body-hang :
    (f n : ℕ) (tail : Bytes) (feed : Feed)
    → flatten feed ≡ le_bytes 4 n ++ tail
    → 1024 < n
    → n < 2 ^ 32
    → 2048 ≤ length tail
    → weight feed < f
    → (read_body f (new_conn_reader feed)).0 ≡ hang
read_body-hang f n tail feed whole large small plenty fuel =
    let (r, h) = read_body-head f n tail feed whole small fuel in
    let v = h.valid in
    ap (λ w. w.0) h.goes_on
    ∙ read-hang f n r v (omega (arith, h.size)) (
        omega (
          arith,
          h.size,
          ap length h.left,
          length-append (pending r) (flatten r.conn),
          length-pending r v,
          v.within,
        ))
