-- ===== src/Util/Script/Layout.antt =====
-- The bytes of a badge script, and the parts that the parser finds in them.
use touchstone.Base.{
  ℕ, zero, suc, ◌+◌, ◌≡◌, refl, sym, ap, ◌∙◌, Bytes, Str, true, false, List, [], ◌∷◌, ◌++◌, none,
  some, length, length-append, take, drop, get_elem?, take-append_left, drop-append_left,
  has_prefix, index_of, ok, arith,
}
use mathlib.Core.List.{append_assoc}
use native.Mathlib.Nat.{suc-add, zero-add}
use touchstone.Util.Hex.{
  encode_to_string, decode_string, le_bytes, length-encode_to_string, encode_to_string-append,
  length-le_bytes,
}
use touchstone.Util.Script.Occurrence.{index_of-suffix, has_prefix_self}
use touchstone.Util.Script.{
  badge_code_part_hex_prefix, badge_code_part_hex_suffix, must_decode, byte_at, bytes_differ,
}

bytes_of : Str → Bytes
bytes_of s = elim (decode_string s) [ none ↦ [] | some bs ↦ bs ]

unfoldable pub prefix_bytes : Bytes
unfolding bytes_of decode_string
prefix_bytes = bytes_of badge_code_part_hex_prefix

unfoldable pub suffix_bytes : Bytes
unfolding bytes_of decode_string
suffix_bytes = bytes_of badge_code_part_hex_suffix

pub must_decode_prefix : must_decode badge_code_part_hex_prefix ≡ ok prefix_bytes
unfolding prefix_bytes
must_decode_prefix = refl

pub must_decode_suffix : must_decode badge_code_part_hex_suffix ≡ ok suffix_bytes
unfolding suffix_bytes
must_decode_suffix = refl

pub encode_prefix : encode_to_string prefix_bytes ≡ badge_code_part_hex_prefix
unfolding prefix_bytes encode_to_string
encode_prefix = refl

pub encode_suffix : encode_to_string suffix_bytes ≡ badge_code_part_hex_suffix
unfolding suffix_bytes encode_to_string
encode_suffix = refl

pub encode_push :
    (bs : Bytes)
    → encode_to_string (0x6a ∷ 0x08 ∷ bs) ≡ 0x36 ∷ 0x61 ∷ 0x30 ∷ 0x38 ∷ encode_to_string bs
unfolding encode_to_string
encode_push bs = refl

pub length_prefix : length prefix_bytes ≡ 13
unfolding prefix_bytes
length_prefix = refl

pub length_suffix : length suffix_bytes ≡ 40
unfolding suffix_bytes
length_suffix = refl

-- The bytes of a badge script.
unfoldable pub layout : Bytes → ℕ → Bytes
layout hash n = prefix_bytes ++ (hash ++ (suffix_bytes ++ (0x6a ∷ 0x08 ∷ le_bytes 8 n)))

module _ {A : Type 0} where
  pub drop_front : (n : ℕ) (a b : List A) → n ≡ length a → drop n (a ++ b) ≡ b
  drop_front n a b e = rw e (drop-append_left a b)

  pub take_front : (n : ℕ) (a b : List A) → n ≡ length a → take n (a ++ b) ≡ a
  take_front n a b e = rw e (take-append_left a b)

  pub take_all : (n : ℕ) (a : List A) → length a ≡ n → take n a ≡ a
  take_all n [] e = rw (← e)
  take_all n (x ∷ a) e = rw (← e) (ap (◌∷◌ x) (take_all (length a) a refl))

  pub drop_append : (n m : ℕ) (a b : List A) → length a ≡ n → drop (n + m) (a ++ b) ≡ drop m b
  drop_append n m [] b e = rw (← e, zero-add)
  drop_append n m (x ∷ a) b e = rw (← e, suc-add) (drop_append (length a) m a b refl)

  pub get_elem?-drop :
      (s : List A) (i : ℕ) {c : A} {r : List A}
      → drop i s ≡ c ∷ r
      → (get_elem? s i ≡ some c) × (drop (i + 1) s ≡ r)
  get_elem?-drop [] zero e = cc
  get_elem?-drop [] (suc i) e = cc
  get_elem?-drop (x ∷ s) zero e = (cc, cc)
  get_elem?-drop (x ∷ s) (suc i) e =
      let (here, next) = get_elem?-drop s i e in (here, rw suc-add next)

pub bytes_differ-eq :
    (s : Str) (i : ℕ) (cs rest : Str) → drop i s ≡ cs ++ rest → bytes_differ s i cs ≡ ok false
unfolding bytes_differ
bytes_differ-eq s i [] rest e = refl
bytes_differ-eq s i (c ∷ cs) rest e =
    let (here, next) = get_elem?-drop s i e in
    let later = bytes_differ-eq s (i + 1) cs rest next in rw (here, byte_at) (ground arith)

module _ (hash : Bytes) (n : ℕ) (twenty : length hash ≡ 20) where
  pub length-layout : length (layout hash n) ≡ 83
  unfolding layout
  length-layout = omega (
    arith,
    length-append prefix_bytes (hash ++ (suffix_bytes ++ (0x6a ∷ 0x08 ∷ le_bytes 8 n))),
    length-append hash (suffix_bytes ++ (0x6a ∷ 0x08 ∷ le_bytes 8 n)),
    length-append suffix_bytes (0x6a ∷ 0x08 ∷ le_bytes 8 n),
    length-le_bytes 8 n,
    length_prefix,
    length_suffix,
  )

  -- The script in hexadecimal, in its five parts.
  hex_layout :
      encode_to_string (layout hash n)
      ≡ badge_code_part_hex_prefix
        ++ (encode_to_string hash
            ++ (badge_code_part_hex_suffix
                ++ (0x36 ∷ 0x61 ∷ 0x30 ∷ 0x38 ∷ encode_to_string (le_bytes 8 n))))
  unfolding layout
  hex_layout = rw (
    encode_to_string-append prefix_bytes (hash ++ (suffix_bytes ++ (0x6a ∷ 0x08 ∷ le_bytes 8 n))),
    encode_to_string-append hash (suffix_bytes ++ (0x6a ∷ 0x08 ∷ le_bytes 8 n)),
    encode_to_string-append suffix_bytes (0x6a ∷ 0x08 ∷ le_bytes 8 n),
    encode_prefix,
    encode_suffix,
    encode_push (le_bytes 8 n),
  )

  -- The four tests of the parser pass.
  pub layout-has_prefix :
      has_prefix (encode_to_string (layout hash n)) badge_code_part_hex_prefix ≡ true
  layout-has_prefix = rw hex_layout (has_prefix_self badge_code_part_hex_prefix _)

  pub layout_index :
      index_of (encode_to_string (layout hash n)) badge_code_part_hex_suffix ≡ some 66
  layout_index =
      let front = badge_code_part_hex_prefix ++ encode_to_string hash in
      let long : length front ≡ 66 = omega (
        arith,
        length-append badge_code_part_hex_prefix (encode_to_string hash),
        length-encode_to_string hash,
      ) in
      rw (hex_layout, ← append_assoc badge_code_part_hex_prefix (encode_to_string hash) _)
        (index_of-suffix front _ (omega arith) ∙ ap some long)

  pub layout_bytes :
      bytes_differ (encode_to_string (layout hash n)) 146 (0x36 ∷ 0x61 ∷ 0x30 ∷ 0x38 ∷ [])
      ≡ ok false
  layout_bytes =
      bytes_differ-eq (encode_to_string (layout hash n)) 146 (0x36 ∷ 0x61 ∷ 0x30 ∷ 0x38 ∷ [])
        (encode_to_string (le_bytes 8 n)) at_data
    where
      hex_value : Str
      hex_value = 0x36 ∷ 0x61 ∷ 0x30 ∷ 0x38 ∷ encode_to_string (le_bytes 8 n)

      at_data : drop 146 (encode_to_string (layout hash n)) ≡ hex_value
      at_data = rw (
        hex_layout,
        drop_append 26 120 badge_code_part_hex_prefix
            (encode_to_string hash ++ (badge_code_part_hex_suffix ++ hex_value)) refl,
        drop_append 40 80 (encode_to_string hash) (badge_code_part_hex_suffix ++ hex_value)
            (omega (arith, length-encode_to_string hash)),
        drop_append 80 0 badge_code_part_hex_suffix hex_value refl,
      )

  pub layout_hash : take 20 (drop 13 (layout hash n)) ≡ hash
  unfolding layout
  layout_hash =
      rw
        (drop_front 13 prefix_bytes (hash ++ (suffix_bytes ++ (0x6a ∷ 0x08 ∷ le_bytes 8 n)))
          (sym length_prefix))
        (take_front 20 hash (suffix_bytes ++ (0x6a ∷ 0x08 ∷ le_bytes 8 n)) (sym twenty))

  pub layout_value : drop 75 (layout hash n) ≡ le_bytes 8 n
  unfolding layout
  layout_value = rw (
    drop_append 13 62 prefix_bytes (hash ++ (suffix_bytes ++ (0x6a ∷ 0x08 ∷ le_bytes 8 n)))
        length_prefix,
    drop_append 20 42 hash (suffix_bytes ++ (0x6a ∷ 0x08 ∷ le_bytes 8 n)) twenty,
    drop_append 40 2 suffix_bytes (0x6a ∷ 0x08 ∷ le_bytes 8 n) length_suffix,
  )
