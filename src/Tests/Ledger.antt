-- ===== src/Tests/Ledger.antt =====
-- A badge that is issued, and then moved.
use touchstone.Base.{
  ◌≡◌, ◌++◌, select, ap, refl, sym, arith, pos, negsuc, codes, [], ◌∷◌, ok, str_eq, ◌-64◌, to_int64,
  ◌+64◌, ◌+ℤ◌, ◌≤ℤ◌, has_prefix, index_of, ◌-ℤ◌,
}
use touchstone.Wire.{MsgTx}
use touchstone.Util.Hex.{encode_to_string, decode_string, le_bytes, le_value}
use touchstone.Util.Script.{
  create_badge_lock_script, parse_badge_vout_script, bytes_differ, parse_value,
}
use touchstone.Util.Sort.{sort_msg_tx, sort_from, init_in_result, find_ready}
use touchstone.Models.TxPoints.{TxPoint, get_tx_point, add_tx_point}
use touchstone.Models.TxInfos.{set_msg_tx_state}
use touchstone.Services.Validate.{
  TxInventory, max_create_badge_value, has_badge_flag, add_badge_value, parse_msg_tx, parse_vins,
  parse_vin, server_get_tx_point, use_point, parse_outputs, outputs_within, parse_vouts,
}
use touchstone.Services.Validate.Group.{total}
use touchstone.Services.Validate.Conserve.{Conserves}
use touchstone.Services.Process.{
  process_msg_txs, process_all, process_msg_tx, parse_and_add_tx_points, add_tx_points,
}
use touchstone.Services.Store.Reached.{Reached, Reached-Conserves}
use touchstone.Services.Process.Recorded.{IsUnknown}
use touchstone.Services.Store.Nets.{of_badge}
use touchstone.Services.Store.Held.{held}
use touchstone.Services.Store.Supply.{Ledger, Ledger-supply}
use touchstone.Tests.Store.{test_wire, parent_tx, out_100}
use touchstone.Tests.Checks.{script_60, tx_60}
use touchstone.Tests.Records.{env, kept, kept_points}

-- It makes an output of 60 and spends nothing.
abbrev issue_60 : MsgTx
issue_60 = record parent_tx { tx_out = record { value = pos 888; pk_script = script_60 } ∷ [] }

abbrev issued : TxPoint
issued = record out_100 { value = pos 60 }

abbrev moved : TxInventory
moved = record {
  vins =
      record issued {
        txid = codes "01";
        kind = 1;
        value = negsuc 59;
        pre_txid = codes "00";
        pre_index = pos 0;
        timestamp = pos 2;
      }
      ∷ [];
  vouts = record issued { txid = codes "01"; timestamp = pos 2 } ∷ [];
}

issue_run : (process_msg_txs env (issue_60 ∷ []) (pos 1) []).1 ≡ issued ∷ []
unfolding process_msg_txs process_all sort_msg_tx sort_from init_in_result find_ready process_msg_tx
    parse_and_add_tx_points add_tx_points add_tx_point set_msg_tx_state kept_points parse_msg_tx
    parse_vins parse_vin has_badge_flag server_get_tx_point get_tx_point use_point add_badge_value
    parse_outputs outputs_within parse_vouts str_eq encode_to_string parse_badge_vout_script
    create_badge_lock_script has_prefix index_of bytes_differ parse_value le_value le_bytes
    decode_string ◌-64◌ to_int64 ◌-ℤ◌ ◌+64◌ ◌+ℤ◌
issue_run = refl

move_run : (parse_msg_tx env tx_60 (pos 2) (issued ∷ [])).0 ≡ ok moved
unfolding kept_points parse_msg_tx parse_vins parse_vin has_badge_flag server_get_tx_point
    get_tx_point use_point add_badge_value parse_outputs outputs_within parse_vouts str_eq
    encode_to_string parse_badge_vout_script create_badge_lock_script has_prefix index_of
    bytes_differ parse_value le_value le_bytes decode_string ◌-64◌ to_int64 ◌-ℤ◌ ◌+64◌ ◌+ℤ◌
move_run = refl

Reached-issued : Reached env (λ s. s) (issued ∷ [])
Reached-issued = Reached.processed (issue_60 ∷ []) (pos 1) (Reached.start refl) (sym issue_run)

moved-low : (pos 0 -ℤ total moved.vins) ≤ℤ max_create_badge_value
unfolding ◌-ℤ◌ ◌+ℤ◌ total
moved-low = omega arith

Reached-Conserves_example : Conserves env tx_60 (pos 2) moved
Reached-Conserves_example =
    Reached-Conserves env (λ s. s) kept (issued ∷ []) tx_60 (pos 2) moved Reached-issued move_run
      moved-low

abbrev issuing : TxInventory
issuing = record { vins = []; vouts = issued ∷ [] }

issue_one : process_msg_tx env issue_60 (pos 1) [] ≡ (ok issuing, issued ∷ [])
unfolding process_msg_tx parse_and_add_tx_points add_tx_points add_tx_point set_msg_tx_state
    kept_points parse_msg_tx parse_vins parse_vin has_badge_flag server_get_tx_point get_tx_point
    use_point add_badge_value parse_outputs outputs_within parse_vouts str_eq encode_to_string
    parse_badge_vout_script create_badge_lock_script has_prefix index_of bytes_differ parse_value
    le_value le_bytes decode_string ◌-64◌ to_int64 ◌-ℤ◌ ◌+64◌ ◌+ℤ◌
issue_one = refl

move_one :
    process_msg_tx env tx_60 (pos 2) (issued ∷ [])
    ≡ (ok moved, issued ∷ (moved.vins ++ moved.vouts))
unfolding process_msg_tx parse_and_add_tx_points add_tx_points add_tx_point set_msg_tx_state
    kept_points parse_msg_tx parse_vins parse_vin has_badge_flag server_get_tx_point get_tx_point
    use_point add_badge_value parse_outputs outputs_within parse_vouts str_eq encode_to_string
    parse_badge_vout_script create_badge_lock_script has_prefix index_of bytes_differ parse_value
    le_value le_bytes decode_string ◌-64◌ to_int64 ◌-ℤ◌ ◌+64◌ ◌+ℤ◌
move_one = refl

issuing-low : (pos 0 -ℤ total issuing.vins) ≤ℤ max_create_badge_value
unfolding ◌-ℤ◌ ◌+ℤ◌ total
issuing-low = omega arith

tx_60-IsUnknown : IsUnknown (test_wire.tx_hash tx_60) (issued ∷ [])
unfolding str_eq encode_to_string
tx_60-IsUnknown = (refl, tt)

Ledger-moved : Ledger env (λ s. s) (issued ∷ (moved.vins ++ moved.vouts))
Ledger-moved =
    Ledger.taken_in tx_60 (pos 2) moved
      (Ledger.taken_in issue_60 (pos 1) issuing (Ledger.empty refl) tt (ap (λ r. r.0) issue_one)
        issuing-low (sym (ap (λ r. r.1) issue_one)))
      tx_60-IsUnknown (ap (λ r. r.0) move_one) moved-low (sym (ap (λ r. r.1) move_one))

Ledger-supply_example :
    (total (select (of_badge (codes "00")) (issued ∷ (moved.vins ++ moved.vouts)))
      ≤ℤ held (codes "00") (codes "00") (issued ∷ (moved.vins ++ moved.vouts)))
    × (held (codes "00") (codes "00") (issued ∷ (moved.vins ++ moved.vouts))
        ≤ℤ max_create_badge_value)
Ledger-supply_example =
    Ledger-supply env (λ s. s) kept (issued ∷ (moved.vins ++ moved.vouts)) (codes "00") Ledger-moved
