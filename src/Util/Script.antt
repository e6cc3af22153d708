-- ===== src/Util/Script.antt =====
-- The badge locking script of util/bitcoin_util.go: `CreateBadgeLockScript` and
-- `ParseBadgeVoutScript`.
pub mod Occurrence
pub mod Layout
pub mod RoundTrip
pub mod Parsed
pub mod Sound
use touchstone.Base.{
  ℕ, ◌+◌, ◌*◌, ◌/◌, ◌^◌, ℤ, pos, Bytes, Str, codes, Bool, true, false, not, List, [], ◌∷◌, ◌++◌,
  Option, none, some, length, take, drop, get_elem?, has_prefix, index_of, Outcome, ok, err, panic,
  hang, bind, new_error, ltb_ℤ, leb, ltb, ◌==◌, if◌then◌else◌, to_uint64, of_uint64,
}
use touchstone.Util.Hex.{encode_to_string, decode_string, le_bytes, le_value}

-- What the program uses of `btcutil` and `txscript`, for the configured network.
pub record BtcUtil : Type 1 where
  pub Address : Type 0
  -- `btcutil.NewAddressPubKeyHash(hash, net)`
  pub new_address_pub_key_hash : Bytes → Outcome Address
  -- `btcutil.DecodeAddress(text, net)`
  pub decode_address : Str → Outcome Address
  -- `address.ScriptAddress()`
  pub script_address : Address → Bytes
  -- `address.String()`
  pub address_string : Address → Str
  -- `txscript.NewScriptBuilder().AddOp(txscript.OP_RETURN).AddData(data).Script()`
  pub op_return_script : Bytes → Outcome Bytes

abbrev pub badge_code_part_hex_prefix : Str
badge_code_part_hex_prefix = codes "5101400100015101b101b26114"

abbrev pub badge_code_part_hex_suffix : Str
badge_code_part_hex_suffix =
    codes "005179517a7561587905626164676587695979a9517987695a795a79ac7777777777777777777777"

abbrev pub pubkey_hash_len : ℕ
pubkey_hash_len = 20

abbrev pub hex_pubkey_hash_len : ℕ
hex_pubkey_hash_len = 2 * pubkey_hash_len

abbrev pub badge_code_part_len : ℕ
badge_code_part_len =
    length badge_code_part_hex_prefix / 2 + length badge_code_part_hex_suffix / 2 + pubkey_hash_len

abbrev pub badge_data_part_hex_prefix : Str
badge_data_part_hex_prefix = codes "6a08"

abbrev pub badge_data_len : ℕ
badge_data_len = 8

abbrev pub badge_locking_script_len : ℕ
badge_locking_script_len =
    badge_code_part_len + (length badge_data_part_hex_prefix / 2 + badge_data_len)

-- `prefix, err := hex.DecodeString(…)`, with a panic on an error.
abbrev pub must_decode : Str → Outcome Bytes
must_decode s = elim (decode_string s) [ none ↦ panic | some bs ↦ ok bs ]

-- The eight bytes of an `int64`, the least first. Writing to a buffer does not fail.
abbrev pub int64_to_bytes : ℤ → Bytes
int64_to_bytes num = le_bytes 8 (to_uint64 num)

-- A byte of a string, with Go's panic beyond its end.
abbrev pub byte_at : Str → ℕ → Outcome ℕ
byte_at s i = elim (get_elem? s i) [ none ↦ panic | some c ↦ ok c ]

-- `BadgeVout`
pub record BadgeVout (A : Type 0) : Type 0 where
  pub badge_value : ℤ
  pub address : A

abbrev must_succeed : {A : Type 0} → Outcome A → Outcome A
must_succeed (ok a) = ok a
must_succeed (err e) = panic
must_succeed panic = panic
must_succeed hang = hang

-- `index == len(BADGE_CODE_PART_HEX_PREFIX) + HEX_PUBKEY_HASH_LEN`
abbrev pub suffix_at : Option ℕ → Bool
suffix_at none = false
suffix_at (some i) = i == length badge_code_part_hex_prefix + hex_pubkey_hash_len

-- `hexScript[i] != c₀ || hexScript[i+1] != c₁ || …`
unfoldable pub bytes_differ : Str → ℕ → Str → Outcome Bool
bytes_differ s i [] = ok false
bytes_differ s i (c ∷ cs) =
    let rest = bytes_differ s (i + 1) cs in bind (byte_at s i) λ d. if d == c then rest else ok true

module _ (btc : BtcUtil) where
  open btc use {Address, new_address_pub_key_hash, script_address, op_return_script}

  unfoldable pub create_badge_lock_script : Address → ℤ → Outcome Bytes
  create_badge_lock_script address value =
      if ltb_ℤ value (pos 0)
      then err (new_error (codes "error value"))
      else bind (must_decode badge_code_part_hex_prefix) λ prefix.
        bind (must_decode badge_code_part_hex_suffix) λ suffix.
          bind (must_succeed (op_return_script (int64_to_bytes value)))
            λ data_part. ok (prefix ++ (script_address address ++ (suffix ++ data_part)))

  -- The value at the end of the script: `int64(binary.LittleEndian.Uint64(script[75:]))`. Fewer
  -- than eight bytes make `Uint64` panic.
  unfoldable pub parse_value : Bytes → Address → Outcome (BadgeVout Address)
  parse_value value_bytes address =
      let value = of_uint64 (le_value (take 8 value_bytes)) in
      if ltb (length value_bytes) 8
      then panic
      else if ltb_ℤ value (pos 0)
      then err (new_error (codes "error value"))
      else ok (record { badge_value = value; address = address })

  unfoldable pub parse_badge_vout_script : Bytes → Outcome (BadgeVout Address)
  parse_badge_vout_script script =
      if not (length script == badge_locking_script_len)
      then err (new_error (codes "not badge vout 1"))
      else let hex_script = encode_to_string script in
        if not (has_prefix hex_script badge_code_part_hex_prefix)
        then err (new_error (codes "not badge vout 2"))
        else if not (suffix_at (index_of hex_script badge_code_part_hex_suffix))
        then err (new_error (codes "not badge vout 3"))
        else bind (bytes_differ hex_script 146 (0x36 ∷ 0x61 ∷ 0x30 ∷ 0x38 ∷ [])) λ differ.
          if differ
          then err (new_error (codes "not badge vout 4"))
          else bind
              (new_address_pub_key_hash
                (take pubkey_hash_len (drop (length badge_code_part_hex_prefix / 2) script)))
              λ address.
                parse_value
                  (drop
                    ((length badge_code_part_hex_prefix
                        + hex_pubkey_hash_len
                        + length badge_code_part_hex_suffix
                        + length badge_data_part_hex_prefix)
                      / 2)
                    script)
                  address
