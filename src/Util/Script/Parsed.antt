-- ===== src/Util/Script/Parsed.antt =====
-- What a successful parse of `ParseBadgeVoutScript` says of the script.
use touchstone.Base.{
  ℕ, ◌^◌, ◌<◌, ◌≡◌, sym, ap, ◌∙◌, pos, Bytes, true, false, [], ◌∷◌, some, length, take, drop,
  has_prefix, index_of, ok, arith, ◌==◌, bind-eq-ok, ==_iff, IsInt64, ◌≤ℤ◌, Option-cases,
  Bool-cases, inl, inr,
}
use touchstone.Util.Hex.{encode_to_string, le_value}
use touchstone.Util.Script.Layout.{take_all}
use touchstone.Util.Script.{
  BtcUtil, BadgeVout, badge_code_part_hex_prefix, badge_code_part_hex_suffix, bytes_differ,
  parse_badge_vout_script, parse_value,
}

-- What a successful parse says of the script.
pub record Parsed (btc : BtcUtil) (script : Bytes) (vout : BadgeVout (BtcUtil.Address btc))
    : Type 1 where
  pub sized : length script ≡ 83
  pub prefix : has_prefix (encode_to_string script) badge_code_part_hex_prefix ≡ true
  pub suffix : index_of (encode_to_string script) badge_code_part_hex_suffix ≡ some 66
  pub op_return :
      bytes_differ (encode_to_string script) 146 (0x36 ∷ 0x61 ∷ 0x30 ∷ 0x38 ∷ []) ≡ ok false
  pub hashed : BtcUtil.new_address_pub_key_hash btc (take 20 (drop 13 script)) ≡ ok vout.address
  pub valued : parse_value btc (drop 75 script) vout.address ≡ ok vout

parse_value-address :
    (btc : BtcUtil) (bytes : Bytes) (a : BtcUtil.Address btc)
    (vout : BadgeVout (BtcUtil.Address btc))
    → parse_value btc bytes a ≡ ok vout
    → vout.address ≡ a
unfolding parse_value
parse_value-address btc bytes a vout h = ground arith

-- The parser from its third test on, where it has found the suffix.
parse_rest :
    (btc : BtcUtil) (script : Bytes) (vout : BadgeVout (BtcUtil.Address btc))
    → (length script == 83) ≡ true
    → has_prefix (encode_to_string script) badge_code_part_hex_prefix ≡ true
    → (i : ℕ) → index_of (encode_to_string script) badge_code_part_hex_suffix ≡ some i
    → (i == 66) ≡ true
    → parse_badge_vout_script btc script ≡ ok vout
    → Parsed btc script vout
unfolding parse_badge_vout_script
parse_rest btc script vout sized prefix i found at h =
    let h' = rw (sized, prefix, found, at) at h in
    let (differ, compared, h'') =
      bind-eq-ok (bytes_differ (encode_to_string script) 146 (0x36 ∷ 0x61 ∷ 0x30 ∷ 0x38 ∷ [])) _
        h' in
    elim (Bool-cases differ) [
      | inl bad ↦ let wrong = rw bad at h'' in cc
      | inr good ↦
          let h3 = rw good at h'' in
          let (a, made, parsed) =
            bind-eq-ok (BtcUtil.new_address_pub_key_hash btc (take 20 (drop 13 script))) _ h3 in
          let same = parse_value-address btc (drop 75 script) a vout parsed in
          record {
            sized = (==_iff (length script) 83).0 sized;
            prefix = prefix;
            suffix = rw found (ap some ((==_iff i 66).0 at));
            op_return = rw compared (ap ok good);
            hashed = made ∙ ap ok (sym same);
            valued = ap (parse_value btc (drop 75 script)) same ∙ parsed;
          }
    ]

pub parse-Parsed :
    (btc : BtcUtil) (script : Bytes) (vout : BadgeVout (BtcUtil.Address btc))
    → parse_badge_vout_script btc script ≡ ok vout
    → Parsed btc script vout
unfolding parse_badge_vout_script
parse-Parsed btc script vout h = elim (Bool-cases (length script == 83)) [
  | inr bad ↦ let wrong = rw bad at h in cc
  | inl sized ↦
      let h1 = rw sized at h in
      elim (Bool-cases (has_prefix (encode_to_string script) badge_code_part_hex_prefix)) [
        | inr bad ↦ let wrong = rw bad at h1 in cc
        | inl prefix ↦
            let h2 = rw prefix at h1 in
            elim (Option-cases (index_of (encode_to_string script) badge_code_part_hex_suffix)) [
              | inl missing ↦ let wrong = rw missing at h2 in cc
              | inr (i, found) ↦ elim (Bool-cases (i == 66)) [
                | inr bad ↦ let wrong = rw (found, bad) at h2 in cc
                | inl at ↦ parse_rest btc script vout sized prefix i found at h
              ]
            ]
      ]
]

pub parse_value-value :
    (btc : BtcUtil) (bytes : Bytes) (a : BtcUtil.Address btc)
    (vout : BadgeVout (BtcUtil.Address btc))
    → length bytes ≡ 8
    → parse_value btc bytes a ≡ ok vout
    → (vout.badge_value ≡ pos (le_value bytes)) × (le_value bytes < 2 ^ 63)
unfolding parse_value
parse_value-value btc bytes a vout eight h = ground (arith, take_all 8 bytes eight)

parse_value_range :
    (btc : BtcUtil) (bytes : Bytes) (a : BtcUtil.Address btc)
    (vout : BadgeVout (BtcUtil.Address btc))
    → parse_value btc bytes a ≡ ok vout
    → (pos 0 ≤ℤ vout.badge_value) × IsInt64 vout.badge_value
unfolding parse_value
parse_value_range btc bytes a vout h = ground arith

-- The value that the parser reads is not negative.
pub parse_range :
    (btc : BtcUtil) (script : Bytes) (vout : BadgeVout (BtcUtil.Address btc))
    → parse_badge_vout_script btc script ≡ ok vout
    → (pos 0 ≤ℤ vout.badge_value) × IsInt64 vout.badge_value
parse_range btc script vout h =
    parse_value_range btc (drop 75 script) vout.address vout (parse-Parsed btc script vout h).valued
