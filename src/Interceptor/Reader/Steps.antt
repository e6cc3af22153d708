-- ===== src/Interceptor/Reader/Steps.antt =====
-- The stream of a reader, and the steps that leave it as it is: `Read` of the connection into the
-- buffer.
use touchstone.Base.{
  ℕ, zero, suc, ◌+◌, ◌≤◌, ◌<◌, ◌≡◌, refl, sym, ap, ◌∙◌, Bytes, [], ◌∷◌, ◌++◌, arith, ok, length,
  length-append, length-take, length-drop, take, drop, take-append-drop, leb, Bool-cases, inl, inr,
}
use mathlib.Core.List.{flatten, append_assoc}
use touchstone.Interceptor.Reader.{
  Feed, conn_read, overlay, ConnReader, unread, room, pending, filled, fill,
}
use touchstone.Interceptor.Reader.Slices.{take-append_exact, drop-append_le, take-append_plus}

-- All that a reader can still give.
abbrev pub stream : ConnReader → Bytes
stream r = pending r ++ flatten r.conn

-- The positions are in order and within the buffer.
pub record IsValid (r : ConnReader) : Type 0 where
  pub ordered : r.read_pos ≤ r.write_pos
  pub within : r.write_pos ≤ length r.buf

-- How many rounds a feed is good for.
abbrev pub weight : Feed → ℕ
weight [] = 0
weight (c ∷ cs) = suc (length c) + weight cs

pub length-pending : (r : ConnReader) → IsValid r → length (pending r) ≡ unread r
length-pending r v =
    omega (arith, length-drop r.read_pos (take r.write_pos r.buf), length-take r.write_pos r.buf)

pub take-overlay :
    (buf : Bytes) (pos : ℕ) (got : Bytes)
    → pos ≤ length buf
    → take (pos + length got) (overlay buf pos got) ≡ take pos buf ++ got
unfolding overlay
take-overlay buf pos got h =
    let front : length (take pos buf) ≡ pos = omega (arith, length-take pos buf) in
    let rest = drop (pos + length got) buf in
    ap (λ k. take (k + length got) (take pos buf ++ (got ++ rest))) (sym front)
    ∙ (take-append_plus (length got) (take pos buf) (got ++ rest)
        ∙ ap (◌++◌ (take pos buf)) (take-append_exact (length got) got rest refl))

pub length-overlay :
    (buf : Bytes) (pos : ℕ) (got : Bytes)
    → pos + length got ≤ length buf
    → length (overlay buf pos got) ≡ length buf
unfolding overlay
length-overlay buf pos got h = omega (
  arith,
  length-append (take pos buf) (got ++ drop (pos + length got) buf),
  length-append got (drop (pos + length got) buf),
  length-take pos buf,
  length-drop (pos + length got) buf,
)

-- What a `Read` of the connection gives where something is still to come.
pub record Receives (n : ℕ) (feed : Feed) (got : Bytes) (feed' : Feed) : Type 0 where
  pub result : conn_read n feed ≡ (ok got, feed')
  pub joined : got ++ flatten feed' ≡ flatten feed
  pub fits : length got ≤ n
  pub less : weight feed' < weight feed

pub conn_read-Receives :
    (n : ℕ) (c : Bytes) (cs : Feed)
    → 0 < n
    → (got : Bytes) × (feed' : Feed) × Receives n (c ∷ cs) got feed'
unfolding conn_read flatten
conn_read-Receives zero c cs h = absurd (omega arith)
conn_read-Receives (suc n) c cs h = elim (Bool-cases (leb (length c) (suc n))) [
  | inl whole ↦ (
    c,
    cs,
    record { result = rw whole refl; joined = refl; fits = ground arith; less = omega arith },
  )
  | inr part ↦ (
    take (suc n) c,
    drop (suc n) c ∷ cs,
    record {
      result = rw part refl;
      joined =
          sym (append_assoc (take (suc n) c) (drop (suc n) c) (flatten cs))
          ∙ ap (λ x. x ++ flatten cs) (take-append-drop (suc n) c);
      fits = omega (arith, length-take (suc n) c);
      less = ground (arith, length-drop (suc n) c);
    },
  )
]

-- A step that leaves the stream and the size of the buffer as they are.
pub record Keeps (r r' : ConnReader) : Type 0 where
  pub valid : IsValid r'
  pub same_stream : stream r' ≡ stream r
  pub same_size : length r'.buf ≡ length r.buf
  pub lighter : weight r'.conn ≤ weight r.conn

pub fill-Keeps :
    (r : ConnReader) (c : Bytes) (cs : Feed)
    → IsValid r
    → r.write_pos < length r.buf
    → r.conn ≡ c ∷ cs
    → (r' : ConnReader) × (fill r ≡ (ok tt, r'))
      × Keeps r r'
      × (r'.read_pos ≡ r.read_pos)
      × (weight r'.conn < weight r.conn)
unfolding fill filled
fill-Keeps r c cs v free e =
    let (got, feed', k) = conn_read-Receives (room r) c cs (omega arith) in
    let sized = length-overlay r.buf r.write_pos got (omega (arith, k.fits)) in
    let next : ConnReader = record r {
      conn = feed';
      buf = overlay r.buf r.write_pos got;
      write_pos = r.write_pos + length got;
    } in
    (
      next,
      ap (filled r) (ap (conn_read (room r)) e ∙ k.result),
      record {
        valid = record { ordered = omega arith; within = omega (arith, k.fits, sized) };
        same_stream =
            ap (λ x. drop r.read_pos x ++ flatten feed')
              (take-overlay r.buf r.write_pos got v.within)
            ∙ (ap (λ x. x ++ flatten feed')
                  (drop-append_le r.read_pos (take r.write_pos r.buf) got
                    (omega (arith, length-take r.write_pos r.buf)))
                ∙ (append_assoc (pending r) got (flatten feed')
                    ∙ (ap (◌++◌ (pending r)) k.joined ∙ ap (λ x. pending r ++ flatten x) (sym e))));
        same_size = sized;
        lighter = rw e (omega (arith, k.less));
      },
      refl,
      rw e k.less,
    )
