-- ===== src/Util/Script/Sound.antt =====
-- The parser accepts nothing but the scripts that `CreateBadgeLockScript` makes.
use native.Mathlib.Nat.{suc-add, zero-add}
use touchstone.Base.{
  ℕ, zero, suc, ◌+◌, ◌≡◌, refl, sym, ap, ap₂, ◌∙◌, Bytes, Str, false, [], ◌∷◌, ◌++◌, some, length,
  length-take, length-drop, take, drop, take-append-drop, get_elem?, ok, arith, Option-cases, inl,
  inr,
}
use touchstone.Util.Hex.{
  encode_to_string, decode_string, le_bytes, le_value, IsBytes, le_bytes-le_value,
  decode_string-encode_to_string,
}
use touchstone.Util.Script.Occurrence.{take_of_has_prefix, has_prefix_of_index_of}
use touchstone.Util.Script.Layout.{
  prefix_bytes, suffix_bytes, layout, encode_prefix, encode_suffix, encode_push,
}
use touchstone.Util.Script.RoundTrip.{BtcUtilLaws, create-layout}
use touchstone.Util.Script.{
  BtcUtil, BadgeVout, badge_code_part_hex_prefix, badge_code_part_hex_suffix, bytes_differ,
  create_badge_lock_script, parse_badge_vout_script,
}
use touchstone.Util.Script.Parsed.{Parsed, parse-Parsed, parse_value-value}

abbrev double : ℕ → ℕ
double zero = 0
double (suc n) = suc (suc (double n))

-- Taking and dropping bytes takes and drops twice as many digits.
encode-take :
    (n : ℕ) (bs : Bytes) → encode_to_string (take n bs) ≡ take (double n) (encode_to_string bs)
unfolding encode_to_string
encode-take zero bs = refl
encode-take (suc n) [] = refl
encode-take (suc n) (b ∷ bs) = rw (encode-take n bs)

encode-drop :
    (n : ℕ) (bs : Bytes) → encode_to_string (drop n bs) ≡ drop (double n) (encode_to_string bs)
unfolding encode_to_string
encode-drop zero bs = refl
encode-drop (suc n) [] = refl
encode-drop (suc n) (b ∷ bs) = encode-drop n bs

IsBytes-take : (n : ℕ) (bs : Bytes) → IsBytes bs → IsBytes (take n bs)
IsBytes-take zero bs h = tt
IsBytes-take (suc n) [] h = tt
IsBytes-take (suc n) (b ∷ bs) h = (h.0, IsBytes-take n bs h.1)

IsBytes-drop : (n : ℕ) (bs : Bytes) → IsBytes bs → IsBytes (drop n bs)
IsBytes-drop zero bs h = h
IsBytes-drop (suc n) [] h = tt
IsBytes-drop (suc n) (b ∷ bs) h = IsBytes-drop n bs h.1

encode-injective :
    (a b : Bytes) → IsBytes a → IsBytes b → encode_to_string a ≡ encode_to_string b → a ≡ b
encode-injective a b ha hb e =
    cc
      (decode_string-encode_to_string a ha, decode_string-encode_to_string b hb, ap decode_string e)

drop_at : (s : Str) (i : ℕ) {c : ℕ} → get_elem? s i ≡ some c → drop i s ≡ c ∷ drop (i + 1) s
drop_at [] i e = cc
drop_at (x ∷ s) zero e = cc
drop_at (x ∷ s) (suc i) e = rw (drop_at s i e, suc-add)

-- The characters that the parser compares one by one are those it compares them with.
take_of_bytes_differ :
    (s : Str) (i : ℕ) (cs : Str) → bytes_differ s i cs ≡ ok false → take (length cs) (drop i s) ≡ cs
unfolding bytes_differ
take_of_bytes_differ s i [] h = refl
take_of_bytes_differ s i (c ∷ cs) h = elim (Option-cases (get_elem? s i)) [
  | inl missing ↦ absurd (ground arith)
  | inr (d, found) ↦
      let same : d ≡ c = ground arith in
      let later : bytes_differ s (i + 1) cs ≡ ok false = ground arith in
      rw (drop_at s i found, same, take_of_bytes_differ s (i + 1) cs later)
]

cut : (n m : ℕ) (xs : Bytes) → take n (drop m xs) ++ drop (m + n) xs ≡ drop m xs
cut n zero xs = rw zero-add (take-append-drop n xs)
cut zero (suc m) [] = rw suc-add
cut (suc n) (suc m) [] = rw suc-add
cut n (suc m) (x ∷ xs) = rw suc-add (cut n m xs)

five_parts :
    (xs : Bytes)
    → xs
      ≡ take 13 xs
        ++ (take 20 (drop 13 xs) ++ (take 40 (drop 33 xs) ++ (take 2 (drop 73 xs) ++ drop 75 xs)))
five_parts xs = rw (cut 2 73 xs, cut 40 33 xs, cut 20 13 xs, cut 13 0 xs)

module _ (btc : BtcUtil) (script : Bytes) (vout : BadgeVout (BtcUtil.Address btc)) where
  module _ (bytes : IsBytes script) (p : Parsed btc script vout) where
    prefix-eq : take 13 script ≡ prefix_bytes
    unfolding prefix_bytes
    prefix-eq =
        encode-injective (take 13 script) prefix_bytes (IsBytes-take 13 script bytes) (omega arith)
          (encode-take 13 script
            ∙ take_of_has_prefix (encode_to_string script) badge_code_part_hex_prefix p.prefix
            ∙ sym encode_prefix)

    suffix-eq : take 40 (drop 33 script) ≡ suffix_bytes
    unfolding suffix_bytes
    suffix-eq =
        encode-injective (take 40 (drop 33 script)) suffix_bytes
          (IsBytes-take 40 (drop 33 script) (IsBytes-drop 33 script bytes)) (omega arith)
          (encode-take 40 (drop 33 script)
            ∙ ap (take 80) (encode-drop 33 script)
            ∙ take_of_has_prefix (drop 66 (encode_to_string script)) badge_code_part_hex_suffix (
                has_prefix_of_index_of (encode_to_string script) badge_code_part_hex_suffix 66
                  p.suffix)
            ∙ sym encode_suffix)

    op_return-eq : take 2 (drop 73 script) ≡ 0x6a ∷ 0x08 ∷ []
    unfolding encode_to_string
    op_return-eq =
        encode-injective (take 2 (drop 73 script)) (0x6a ∷ 0x08 ∷ [])
          (IsBytes-take 2 (drop 73 script) (IsBytes-drop 73 script bytes)) (omega arith)
          (encode-take 2 (drop 73 script)
            ∙ ap (take 4) (encode-drop 73 script)
            ∙ take_of_bytes_differ (encode_to_string script) 146 (0x36 ∷ 0x61 ∷ 0x30 ∷ 0x38 ∷ [])
                p.op_return
            ∙ sym (encode_push []))

    value-eq : le_bytes 8 (le_value (drop 75 script)) ≡ drop 75 script
    value-eq =
        let long : length (drop 75 script) ≡ 8 = omega (arith, length-drop 75 script, p.sized) in
        rw long at (le_bytes-le_value (drop 75 script) (IsBytes-drop 75 script bytes))

    -- A script that the parser accepts is the layout of its hash and its value.
    script-layout : script ≡ layout (take 20 (drop 13 script)) (le_value (drop 75 script))
    unfolding layout
    script-layout =
        let tail : take 2 (drop 73 script) ++ drop 75 script
            ≡ 0x6a ∷ 0x08 ∷ le_bytes 8 (le_value (drop 75 script)) =
          rw (op_return-eq, value-eq) refl in
        five_parts script
        ∙ ap₂ ◌++◌ prefix-eq (ap (◌++◌ (take 20 (drop 13 script))) (ap₂ ◌++◌ suffix-eq tail))

-- If the Bitcoin libraries do as they document, then `CreateBadgeLockScript` makes every script of
-- bytes that the parser accepts, from the address and the value that the parser reads in it.
pub create-parse :
    (btc : BtcUtil) (script : Bytes) (vout : BadgeVout (BtcUtil.Address btc))
    → BtcUtilLaws btc
    → IsBytes script
    → parse_badge_vout_script btc script ≡ ok vout
    → create_badge_lock_script btc vout.address vout.badge_value ≡ ok script
create-parse btc script vout laws bytes h =
    let p = parse-Parsed btc script vout h in
    let hash = take 20 (drop 13 script) in
    let n = le_value (drop 75 script) in
    let long : length (drop 75 script) ≡ 8 = omega (arith, length-drop 75 script, p.sized) in
    let (value, small) = parse_value-value btc (drop 75 script) vout.address vout long p.valued in
    let twenty : length hash ≡ 20 =
      omega (arith, length-take 20 (drop 13 script), length-drop 13 script, p.sized) in
    let (a, made, same) = laws.hash_address hash twenty in
    let reads : BtcUtil.script_address btc vout.address ≡ hash = cc (made, same, p.hashed) in
    ap (create_badge_lock_script btc vout.address) value
    ∙ create-layout btc vout.address n laws small
    ∙ ap (λ x. ok (layout x n)) reads
    ∙ ap ok (sym (script-layout btc script vout bytes p))
