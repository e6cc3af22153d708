-- ===== src/Tests/Scripts.antt =====
-- Locking scripts, pieces and keys.
use touchstone.Base.{
  ◌≡◌, refl, pos, Str, Bytes, codes, List, [], ◌∷◌, ok, err, panic, hang, some, arith, Bool, true,
  Bool-cases, inl, inr, ltb, ltb→lt, ◌&&◌, has_prefix, index_of,
}
use touchstone.Util.Hex.{IsBytes, encode_to_string, decode_string, le_bytes, le_value}
use touchstone.Util.Common.{split_string}
use touchstone.Util.Common.Pieces.{IsSplit, split_string-IsSplit}
use touchstone.Util.Script.{
  create_badge_lock_script, parse_badge_vout_script, bytes_differ, parse_value,
}
use touchstone.Util.Script.RoundTrip.{parse-create}
use touchstone.Util.Script.Sound.{create-parse}
use touchstone.Tests.Store.{test_btc, test_laws, test_addr}

parse-create_example :
    (script : Bytes) × (a : Bytes) × (create_badge_lock_script test_btc test_addr (pos 60)
      ≡ ok script)
    × (parse_badge_vout_script test_btc script ≡ ok (record { badge_value = pos 60; address = a }))
    × (a ≡ test_addr)
parse-create_example = parse-create test_btc test_addr 60 test_laws refl (omega arith)

-- The script that locks 60.
abbrev script_60 : Bytes
unfolding create_badge_lock_script
script_60 = elim (create_badge_lock_script test_btc test_addr (pos 60)) [
  | ok b ↦ b
  | err e ↦ []
  | panic ↦ []
  | hang ↦ []
]

abbrev all_small : Bytes → Bool
all_small [] = true
all_small (b ∷ bs) = ltb b 256 && all_small bs

IsBytes-of_all_small : (bs : Bytes) → all_small bs ≡ true → IsBytes bs
IsBytes-of_all_small [] h = tt
IsBytes-of_all_small (b ∷ bs) h = elim (Bool-cases (ltb b 256)) [
  | inl small ↦ (ltb→lt b 256 small, IsBytes-of_all_small bs (rw small at h))
  | inr big ↦ let wrong = rw big at h in absurd (cc)
]

script_60-IsBytes : IsBytes script_60
unfolding create_badge_lock_script le_bytes decode_string
script_60-IsBytes = IsBytes-of_all_small script_60 refl

script_60-parse :
    parse_badge_vout_script test_btc script_60
    ≡ ok (record { badge_value = pos 60; address = test_addr })
unfolding parse_badge_vout_script create_badge_lock_script encode_to_string has_prefix index_of
    bytes_differ parse_value le_value le_bytes decode_string
script_60-parse = refl

create-parse_example : create_badge_lock_script test_btc test_addr (pos 60) ≡ ok script_60
create-parse_example =
    create-parse test_btc script_60 (record { badge_value = pos 60; address = test_addr }) test_laws
      script_60-IsBytes script_60-parse

split_string-IsSplit_example :
    (pieces : List Str) × (split_string (codes "abcde") 2 ≡ some pieces)
    × IsSplit 2 (codes "abcde") pieces
split_string-IsSplit_example = split_string-IsSplit (codes "abcde") 2 (omega arith)
