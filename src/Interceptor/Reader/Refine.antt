-- ===== src/Interceptor/Reader/Refine.antt =====
-- `Read` against a stream: it takes the next bytes of what is unread and what is still to come.
use touchstone.Base.{
  ℕ, zero, suc, ◌+◌, ◌≤◌, ◌<◌, ◌≡◌, refl, sym, ap, ◌∙◌, Bytes, [], ◌++◌, arith, Outcome, ok, length,
  length-append, take, drop, leb, leb→le, List-cases, subst, Bool-cases, inl, inr, >>=_ok,
  if◌then◌else◌,
}
use mathlib.Core.List.{flatten}
use touchstone.Interceptor.Reader.{
  overlay, ConnReader, unread, room, pending, check_and_make_room, fill, deliver, read_loop, read,
}
use touchstone.Interceptor.Reader.Slices.{take-append_le, drop-append_le, drop-drop}
use touchstone.Interceptor.Reader.Steps.{
  stream, IsValid, weight, length-pending, take-overlay, length-overlay, Keeps, fill-Keeps,
}

-- What `Read` of `n` bytes gives: the next `n` bytes of the stream, and a reader of the rest.
pub record Reads (n : ℕ) (r : ConnReader) (v : Outcome Bytes × ConnReader) : Type 0 where
  pub got : v.0 ≡ ok (take n (stream r))
  pub rest : stream v.1 ≡ drop n (stream r)
  pub valid : IsValid v.1
  pub same_size : length v.1.buf ≡ length r.buf
  pub lighter : weight v.1.conn ≤ weight r.conn

deliver-Reads : (n : ℕ) (r : ConnReader) → IsValid r → n ≤ unread r → Reads n r (deliver n r)
unfolding deliver
deliver-Reads n r v h =
    let there : n ≤ length (pending r) = omega (arith, length-pending r v) in
    record {
      got = ap ok (sym (take-append_le n (pending r) (flatten r.conn) there));
      rest =
          ap (λ x. x ++ flatten r.conn) (sym (drop-drop n r.read_pos (take r.write_pos r.buf)))
          ∙ sym (drop-append_le n (pending r) (flatten r.conn) there);
      valid = record { ordered = omega (arith, v.ordered); within = v.within };
      same_size = refl;
      lighter = omega arith;
    }

Reads-Keeps :
    (n : ℕ) (r r' : ConnReader) (v : Outcome Bytes × ConnReader)
    → Keeps r r'
    → Reads n r' v
    → Reads n r v
Reads-Keeps n r r' v k d = record {
  got = d.got ∙ ap (λ s. ok (take n s)) k.same_stream;
  rest = d.rest ∙ ap (drop n) k.same_stream;
  valid = d.valid;
  same_size = d.same_size ∙ k.same_size;
  lighter = omega (arith, d.lighter, k.lighter);
}

-- The loop ends within as many rounds as the feed is good for.
read_loop-Reads :
    (f n : ℕ) (r : ConnReader)
    → IsValid r
    → n + r.read_pos ≤ length r.buf
    → unread r < n
    → n ≤ length (stream r)
    → weight r.conn < f
    → Reads n r (read_loop f n r)
unfolding read_loop flatten
read_loop-Reads zero n r v fits short enough fuel = absurd (omega arith)
read_loop-Reads (suc f) n r v fits short enough fuel = elim (List-cases r.conn) [
  | inl none_left ↦
      let no_more : flatten r.conn ≡ [] = ap flatten none_left in
      absurd (
        omega (
          arith,
          length-append (pending r) (flatten r.conn),
          length-pending r v,
          ap length no_more,
        ))
  | inr (c, cs, e) ↦
      let (r1, went, k, at_same, less) = fill-Keeps r c cs v (omega (arith, v.within)) e in
      let step =
        >>=_ok fill
          (λ _ r'. let more = read_loop f n r' in if leb n (unread r') then deliver n r' else more)
          r went in
      elim (Bool-cases (leb n (unread r1))) [
        | inl there ↦ subst (Reads n r) (sym (step ∙ (rw there refl))) (
            Reads-Keeps n r r1 (deliver n r1) k
              (deliver-Reads n r1 k.valid (leb→le n (unread r1) there)))
        | inr lacking ↦ subst (Reads n r) (sym (step ∙ (rw lacking refl))) (
            Reads-Keeps n r r1 (read_loop f n r1) k (
              read_loop-Reads f n r1 k.valid (omega (arith, k.same_size, at_same)) (ground arith)
                (omega (arith, ap length k.same_stream)) (omega arith)))
      ]
]

-- A reader that is ready for `n` bytes has them still before it, with the space to hold them.
record Ready (n : ℕ) (r r' : ConnReader) : Type 0 where
  kept : Keeps r r'
  same_conn : r'.conn ≡ r.conn
  same_unread : unread r' ≡ unread r
  fits : n + r'.read_pos ≤ length r'.buf

check_and_make_room-Ready :
    (n : ℕ) (r : ConnReader)
    → IsValid r
    → n + unread r ≤ length r.buf
    → unread r < n
    → Ready n r (check_and_make_room n r)
unfolding check_and_make_room
check_and_make_room-Ready n r v fits short = elim (Bool-cases (leb n (room r))) [
  | inl free ↦ rw free record {
    kept = record { valid = v; same_stream = refl; same_size = refl; lighter = omega arith };
    same_conn = refl;
    same_unread = refl;
    fits = ground arith;
  }
  | inr taken ↦ elim (Bool-cases (leb n (room r + r.read_pos))) [
    | inl shifted ↦
        let sized =
          length-overlay r.buf 0 (pending r) (omega (arith, length-pending r v, v.within)) in
        rw (taken, shifted)
          record {
            kept = record {
              valid = record { ordered = omega arith; within = omega (arith, v.within, sized) };
              same_stream =
                  ap (λ x. x ++ flatten r.conn)
                    (ap (λ k. take k (overlay r.buf 0 (pending r))) (sym (length-pending r v))
                      ∙ (ap (λ k. take k (overlay r.buf 0 (pending r))) (omega arith)
                          ∙ take-overlay r.buf 0 (pending r) (omega arith)));
              same_size = sized;
              lighter = omega arith;
            };
            same_conn = refl;
            same_unread = omega arith;
            fits = omega (arith, sized);
          }
    | inr full ↦ absurd (ground arith)
  ]
]

-- A `Read` of `n` bytes gives the next `n` bytes of the stream if the stream has them, the reader
-- is valid and, where fewer than `n` bytes are unread, they leave room in the buffer for `n` more;
-- what is left of the stream is the rest. It ends within as many rounds as come chunks and bytes,
-- and one more.
pub read-Reads :
    (f n : ℕ) (r : ConnReader)
    → IsValid r
    → (unread r < n → n + unread r ≤ length r.buf)
    → n ≤ length (stream r)
    → weight r.conn < f
    → Reads n r (read f n r)
unfolding read
read-Reads f n r v fits enough fuel = elim (Bool-cases (leb n (unread r))) [
  | inl there ↦ rw there (deliver-Reads n r v (leb→le n (unread r) there))
  | inr lacking ↦
      let short : unread r < n = ground arith in
      let k = check_and_make_room-Ready n r v (fits short) short in
      let r1 = check_and_make_room n r in
      rw lacking (
        Reads-Keeps n r r1 (read_loop f n r1) k.kept (
          read_loop-Reads f n r1 k.kept.valid k.fits (ground (arith, k.same_unread))
            (omega (arith, ap length k.kept.same_stream)) (omega (arith, ap weight k.same_conn))))
]
