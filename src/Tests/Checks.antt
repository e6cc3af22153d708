-- ===== src/Tests/Checks.antt =====
-- Runs of the check of a transaction.
use touchstone.Base.{
  ◌≡◌, refl, pos, negsuc, ◌≤ℤ◌, ◌-ℤ◌, Bytes, codes, str_eq, true, Bool-cases, inl, inr, [], ◌∷◌,
  Outcome, ok, err, panic, hang, new_error, arith, contains, has_prefix, index_of, ◌+64◌, ◌-64◌,
  ◌+ℤ◌, to_int64, none,
}
use touchstone.Wire.{MsgTx}
use touchstone.Util.Hex.{encode_to_string, decode_string, le_bytes, le_value}
use touchstone.Util.Script.{
  create_badge_lock_script, parse_badge_vout_script, bytes_differ, parse_value,
}
use touchstone.Models.Collection.{mongo_not_found}
use touchstone.Models.TxPoints.{get_tx_point, is_point}
use touchstone.Models.TxInfos.{RawTxInfo, brief, get_msg_tx_brief_info}
use touchstone.Services.Env.{Env}
use touchstone.Services.Validate.{
  TxInventory, nothing_spent, has_badge_flag, add_badge_value, parse_msg_tx, parse_vins, parse_vin,
  server_get_tx_point, use_point, parse_outputs, outputs_within, parse_vouts,
  max_create_badge_value,
}
use touchstone.Services.Validate.Group.{total}
use touchstone.Services.Validate.Inputs.{HoldsValues}
use touchstone.Services.Validate.Conserve.{Conserves, parse_msg_tx-Conserves}
use touchstone.Services.Validate.Illegal.{IsIllegal, parse_msg_tx-illegal}
use touchstone.Tests.Store.{State, test_btc, test_addr, test_env, out_100, child_tx, spending_in}

abbrev env : Env State
env = test_env (out_100 ∷ []) []

-- A transaction that spends 100 and gives 60.
abbrev pub script_60 : Bytes
unfolding create_badge_lock_script
script_60 = elim (create_badge_lock_script test_btc test_addr (pos 60)) [
  | ok b ↦ b
  | err e ↦ []
  | panic ↦ []
  | hang ↦ []
]

abbrev pub tx_60 : MsgTx
tx_60 = record child_tx { tx_out = record { value = pos 888; pk_script = script_60 } ∷ [] }

abbrev inventory_of : Outcome TxInventory → TxInventory
inventory_of (ok i) = i
inventory_of (err e) = record { vins = []; vouts = [] }
inventory_of panic = record { vins = []; vouts = [] }
inventory_of hang = record { vins = []; vouts = [] }

abbrev inventory_60 : TxInventory
unfolding parse_msg_tx
inventory_60 = inventory_of (parse_msg_tx env tx_60 (pos 2) tt).0

checked : (parse_msg_tx env tx_60 (pos 2) tt).0 ≡ ok inventory_60
unfolding parse_msg_tx parse_vins parse_vin has_badge_flag server_get_tx_point get_tx_point
    use_point add_badge_value parse_outputs outputs_within parse_vouts str_eq encode_to_string
    parse_badge_vout_script create_badge_lock_script has_prefix index_of bytes_differ parse_value
    le_value le_bytes decode_string ◌-64◌ to_int64 ◌-ℤ◌ ◌+64◌ ◌+ℤ◌
checked = refl

fixed-HoldsValues : HoldsValues env
unfolding server_get_tx_point get_tx_point get_msg_tx_brief_info contains has_prefix index_of str_eq
fixed-HoldsValues txid index s p h = elim (Bool-cases (is_point txid index 2 out_100)) [
  | inl found ↦
      let stored = rw found at h in let same : out_100 ≡ p = cc in rw (← same) (omega arith)
  | inr missing ↦ let wrong = rw missing at h in absurd (cc)
]

spent-low : (pos 0 -ℤ total inventory_60.vins) ≤ℤ max_create_badge_value
unfolding parse_msg_tx parse_vins parse_vin has_badge_flag server_get_tx_point get_tx_point
    use_point add_badge_value parse_outputs outputs_within parse_vouts str_eq encode_to_string
    parse_badge_vout_script create_badge_lock_script has_prefix index_of bytes_differ parse_value
    le_value le_bytes decode_string ◌-64◌ to_int64 ◌-ℤ◌ ◌+64◌ ◌+ℤ◌ total
spent-low = omega arith

parse_msg_tx-Conserves_example : Conserves env tx_60 (pos 2) inventory_60
parse_msg_tx-Conserves_example =
    parse_msg_tx-Conserves env tx_60 (pos 2) tt inventory_60 fixed-HoldsValues checked spent-low

-- The transaction that is spent from is known and closed, and made no badge.
abbrev closed_info : RawTxInfo
closed_info = record {
  txid = codes "00";
  index = negsuc 0;
  text = [];
  height = none;
  block_hash = [];
  timestamp = none;
  state = 3;
  hash = none;
}

abbrev bare_env : Env State
bare_env = test_env [] (closed_info ∷ [])

abbrev illegal : IsIllegal bare_env spending_in tt
unfolding get_tx_point get_msg_tx_brief_info str_eq contains has_prefix index_of
illegal = record {
  first_error = new_error mongo_not_found;
  second_error = new_error mongo_not_found;
  info = brief closed_info;
  between = tt;
  after = tt;
  last = tt;
  missing = refl;
  first_missing = refl;
  known = refl;
  closed = refl;
  still_missing = refl;
  second_missing = refl;
}

no_inputs : parse_vins bare_env child_tx 0 (pos 2) [] nothing_spent tt ≡ (ok nothing_spent, tt)
unfolding parse_vins
no_inputs = refl

flagged : has_badge_flag spending_in.signature_script ≡ true
unfolding has_badge_flag str_eq
flagged = refl

parse_msg_tx-illegal_example : parse_msg_tx bare_env child_tx (pos 2) tt ≡ (panic, tt)
parse_msg_tx-illegal_example =
    parse_msg_tx-illegal bare_env child_tx (pos 2) [] [] spending_in nothing_spent tt tt refl
      no_inputs flagged illegal
