-- ===== src/Util/Script/RoundTrip.antt =====
-- Creating a badge script and parsing it are inverse to one another.
use touchstone.Base.{ℕ, ◌^◌, ◌<◌, ◌≡◌, ap, pos, Bytes, ◌∷◌, length, ok, arith}
use touchstone.Util.Hex.{le_bytes, length-le_bytes, le_value-le_bytes}
use touchstone.Util.Script.{
  BtcUtil, create_badge_lock_script, parse_badge_vout_script, int64_to_bytes, parse_value,
}
use touchstone.Util.Script.Layout.{
  layout, must_decode_prefix, must_decode_suffix, length-layout, layout-has_prefix, layout_index,
  layout_bytes, layout_hash, layout_value, take_all,
}

-- The documented behaviour of the libraries: a 20-byte hash makes an address that gives it back,
-- and eight bytes behind OP_RETURN are pushed with the opcode of their length.
pub record BtcUtilLaws (btc : BtcUtil) : Type 1 where
  pub hash_address :
      (hash : Bytes)
      → length hash ≡ 20
      → (a : BtcUtil.Address btc) × (BtcUtil.new_address_pub_key_hash btc hash ≡ ok a)
        × (BtcUtil.script_address btc a ≡ hash)
  pub push_eight :
      (bytes : Bytes)
      → length bytes ≡ 8
      → BtcUtil.op_return_script btc bytes ≡ ok (0x6a ∷ 0x08 ∷ bytes)

module _ (btc : BtcUtil) where
  parse-layout :
      (hash : Bytes) (n : ℕ) {a : BtcUtil.Address btc}
      → length hash ≡ 20
      → n < 2 ^ 63
      → BtcUtil.new_address_pub_key_hash btc hash ≡ ok a
      → parse_badge_vout_script btc (layout hash n)
        ≡ ok (record { badge_value = pos n; address = a })
  unfolding parse_badge_vout_script parse_value
  parse-layout hash n twenty small made =
      rw
        (
          length-layout hash n twenty,
          layout-has_prefix hash n twenty,
          layout_index hash n twenty,
          layout_bytes hash n twenty,
          layout_hash hash n twenty,
          made,
          layout_value hash n twenty,
          take_all 8 (le_bytes 8 n) (length-le_bytes 8 n),
          length-le_bytes 8 n,
          le_value-le_bytes 8 n (omega arith),
        )
        (ground arith)

  pub create-layout :
      (address : BtcUtil.Address btc) (n : ℕ)
      → BtcUtilLaws btc
      → n < 2 ^ 63
      → create_badge_lock_script btc address (pos n)
        ≡ ok (layout (BtcUtil.script_address btc address) n)
  unfolding create_badge_lock_script layout
  create-layout address n laws small =
      let word : int64_to_bytes (pos n) ≡ le_bytes 8 n = ap (le_bytes 8) (omega arith) in
      rw
        (
          must_decode_prefix,
          must_decode_suffix,
          word,
          laws.push_eight (le_bytes 8 n) (length-le_bytes 8 n),
        )
        (ground arith)

  -- If the Bitcoin libraries do as they document, then a script is created for every address with
  -- a 20-byte hash and every value from 0 to 2 ^ 63 - 1, and it is parsed to that value and to an
  -- address with the same hash.
  pub parse-create :
      (address : BtcUtil.Address btc) (n : ℕ)
      → BtcUtilLaws btc
      → length (BtcUtil.script_address btc address) ≡ 20
      → n < 2 ^ 63
      → (script : Bytes) × (a : BtcUtil.Address btc) × (create_badge_lock_script btc address (pos n)
          ≡ ok script)
        × (parse_badge_vout_script btc script ≡ ok (record { badge_value = pos n; address = a }))
        × (BtcUtil.script_address btc a ≡ BtcUtil.script_address btc address)
  parse-create address n laws twenty small =
      let hash = BtcUtil.script_address btc address in
      let (a, made, same) = laws.hash_address hash twenty in
      (
        layout hash n,
        a,
        create-layout address n laws small,
        parse-layout hash n twenty small made,
        same,
      )
