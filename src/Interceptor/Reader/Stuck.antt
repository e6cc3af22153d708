-- ===== src/Interceptor/Reader/Stuck.antt =====
-- `Read` of more bytes than the buffer holds: the larger buffer is dropped, and the loop reads into
-- an empty slice.
use touchstone.Base.{
  ℕ, zero, suc, ◌+◌, ◌≤◌, ◌<◌, ◌≡◌, refl, ap, ◌∙◌, arith, [], ok, hang, length, length-append, leb,
  List-cases, Bool-cases, inl, inr, false, >>=_ok, if◌then◌else◌,
}
use mathlib.Core.List.{flatten}
use touchstone.Interceptor.Reader.{
  conn_read, overlay, ConnReader, unread, room, check_and_make_room, filled, fill, deliver,
  read_loop, read,
}
use touchstone.Interceptor.Reader.Steps.{IsValid, conn_read-Receives, length-overlay}

-- More is asked for than the buffer holds, and enough comes to fill it.
record IsOver (n : ℕ) (r : ConnReader) : Type 0 where
  valid : IsValid r
  small : length r.buf < n
  plenty : room r ≤ length (flatten r.conn)

fill-full :
    (r : ConnReader)
    → length r.buf ≤ r.write_pos
    → IsValid r
    → fill r ≡ (ok tt, record r { buf = overlay r.buf r.write_pos []; write_pos = r.write_pos + 0 })
unfolding fill filled conn_read
fill-full r full v =
    let empty : room r ≡ 0 = omega arith in ap (λ k. filled r (conn_read k r.conn)) empty

fill-IsOver :
    (n : ℕ) (r : ConnReader) → IsOver n r → (r' : ConnReader) × (fill r ≡ (ok tt, r')) × IsOver n r'
unfolding fill filled flatten
fill-IsOver n r o = elim (Bool-cases (leb (length r.buf) r.write_pos)) [
  | inl full ↦
      let there : length r.buf ≤ r.write_pos = ground arith in
      let v = o.valid in
      let sized = length-overlay r.buf r.write_pos [] (omega (arith, v.within)) in
      (
        record r { buf = overlay r.buf r.write_pos []; write_pos = r.write_pos + 0 },
        fill-full r there v,
        record {
          valid = record {
            ordered = omega (arith, v.ordered);
            within = omega (arith, v.within, sized);
          };
          small = omega (arith, sized, o.small);
          plenty = omega (arith, sized);
        },
      )
  | inr free ↦ elim (List-cases r.conn) [
    | inl none_left ↦ absurd (ground (arith, o.plenty, ap length (ap flatten none_left)))
    | inr (c, cs, e) ↦
        let v = o.valid in
        let (got, feed', k) = conn_read-Receives (room r) c cs (ground arith) in
        let sized = length-overlay r.buf r.write_pos got (omega (arith, k.fits, v.within)) in
        let next : ConnReader = record r {
          conn = feed';
          buf = overlay r.buf r.write_pos got;
          write_pos = r.write_pos + length got;
        } in
        (
          next,
          ap (filled r) (ap (conn_read (room r)) e ∙ k.result),
          record {
            valid = record {
              ordered = omega (arith, v.ordered);
              within = omega (arith, k.fits, sized, v.within);
            };
            small = omega (arith, sized, o.small);
            plenty = omega (
              arith,
              sized,
              o.plenty,
              length-append got (flatten feed'),
              ap length k.joined,
              ap length (ap flatten e),
            );
          },
        )
  ]
]

read_loop-hang : (f n : ℕ) (r : ConnReader) → IsOver n r → (read_loop f n r).0 ≡ hang
unfolding read_loop
read_loop-hang zero n r o = refl
read_loop-hang (suc f) n r o =
    let (r1, went, o1) = fill-IsOver n r o in
    let v1 = o1.valid in
    let never : leb n (unread r1) ≡ false = ground (arith, o1.small, v1.within) in
    ap (λ v. v.0)
      (>>=_ok fill
        (λ _ r'. let more = read_loop f n r' in if leb n (unread r') then deliver n r' else more) r
        went)
    ∙ (rw never (read_loop-hang f n r1 o1))

-- A `Read` of more bytes than a valid reader's buffer holds never returns, however many rounds its
-- loop is given, once as many bytes come as the buffer holds.
pub read-hang :
    (f n : ℕ) (r : ConnReader)
    → IsValid r
    → length r.buf < n
    → length r.buf ≤ length (flatten r.conn)
    → (read f n r).0 ≡ hang
unfolding read check_and_make_room
read-hang f n r v small plenty =
    let never : leb n (unread r) ≡ false = ground (arith, v.within) in
    let no_room : leb n (room r) ≡ false = ground arith in
    let no_shift : leb n (room r + r.read_pos) ≡ false = ground (arith, v.within, v.ordered) in
    rw never (
      rw (no_room, no_shift)
        (read_loop-hang f n (record r { write_pos = unread r; read_pos = 0 })
          record {
            valid = record { ordered = omega arith; within = omega (arith, v.within) };
            small = small;
            plenty = omega (arith, plenty);
          }))
