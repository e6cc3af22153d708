-- ===== src/Tests/Answers.antt =====
-- Unspent outputs, inventories, payments, stored transactions and requests.
use touchstone.Base.{
  ℕ, zero, suc, ◌≤◌, ◌≡◌, refl, pos, Bytes, codes, str_eq, List, [], ◌∷◌, Option, some, ok, err,
  panic, hang, arith, length, select, ◌-64◌, ◌-ℤ◌, to_int64,
}
use touchstone.Util.Hex.{encode_to_string, decode_string}
use touchstone.Models.TxPoints.{TxPoint, get_tx_points_by_addr}
use touchstone.Models.TxInfos.{RawTxInfo, piece_doc, by_index, get_msg_tx_info}
use touchstone.Models.TxInfos.Reading.{get_msg_tx_info-hang}
use touchstone.Services.Env.{Env}
use touchstone.Services.Utxos.{calculate_utxos, get_user_tx_points}
use touchstone.Services.Utxos.Unspent.{is_unspent, calculate_utxos-select}
use touchstone.Services.Inventories.{tx_points2_addr_inventory}
use touchstone.Services.Inventories.Totals.{
  entry_value, is_of_tx, sum_of_some, tx_points2_addr_inventory-value,
}
use touchstone.Services.Send.{AddrAmount, SendBadgeToAddressRsp, send_badge_to_address}
use touchstone.Interceptor.{Btcec, Metadata, intercept, verify_timestamp_sig}
use touchstone.Interceptor.Auth.{IsAuthentic, intercept-IsAuthentic}
use touchstone.Tests.Store.{State, test_wire, test_addr, test_env, out_100, in_100, out_60, fixed}

abbrev points : List TxPoint
points = out_100 ∷ in_100 ∷ out_60 ∷ []

abbrev env : Env State
env = test_env points []

calculate_utxos-select_example : calculate_utxos points ≡ select (is_unspent points) points
calculate_utxos-select_example = calculate_utxos-select points

points-read :
    get_tx_points_by_addr env.tx_points (encode_to_string test_addr) (codes "00") 1 tt
    ≡ (ok points, tt)
unfolding get_tx_points_by_addr str_eq encode_to_string
points-read = refl

user_points-read :
    get_user_tx_points env (codes "app") (pos 1) (pos 0) (codes "00") 1 tt ≡ (ok points, tt)
unfolding get_user_tx_points str_eq encode_to_string
user_points-read = refl

tx_points2_addr_inventory-value_example :
    entry_value (codes "01") (tx_points2_addr_inventory points)
    ≡ sum_of_some (select (is_of_tx (codes "01")) points)
tx_points2_addr_inventory-value_example = tx_points2_addr_inventory-value (codes "01") points

abbrev amounts : List AddrAmount
amounts =
    record { addr = codes "a"; amount = pos 60 } ∷ record { addr = codes "b"; amount = pos 30 } ∷ []

abbrev paying_env : Env State
paying_env = test_env (out_100 ∷ []) []

abbrev response : SendBadgeToAddressRsp
unfolding send_badge_to_address
response =
    elim (send_badge_to_address paying_env (codes "app") (pos 1) (pos 0) (codes "00") (codes "c")
      amounts (pos 5) tt).0 [
        | ok rsp ↦ rsp
        | err e ↦ record { unfinished_tx = []; vins = [] }
        | panic ↦ record { unfinished_tx = []; vins = [] }
        | hang ↦ record { unfinished_tx = []; vins = [] }
      ]

-- A transaction of 64 pieces.
abbrev repeat : ℕ → RawTxInfo → List RawTxInfo
repeat zero d = []
repeat (suc n) d = d ∷ repeat n d

abbrev stored : List RawTxInfo
stored = repeat 64 (piece_doc (codes "00") 0 [])

all-read :
    (fixed stored).get_many (λ d. str_eq d.txid (codes "00")) by_index (pos 0) (pos 128) tt
    ≡ (ok stored, tt)
unfolding str_eq
all-read = refl

many : 64 ≤ length stored
many = omega arith

get_msg_tx_info-hang_example :
    get_msg_tx_info (fixed stored) test_wire 1000 (codes "00") tt ≡ (hang, tt)
get_msg_tx_info-hang_example =
    get_msg_tx_info-hang (fixed stored) (codes "00") tt stored test_wire 1000 all-read many

-- A request whose key and signature are taken as they are.
abbrev test_btcec : Btcec
test_btcec = record {
  PublicKey = Bytes;
  Signature = Bytes;
  parse_pub_key = λ bytes. ok bytes;
  parse_signature = λ bytes. ok bytes;
  verify = λ sig bytes key. str_eq sig key;
  parse_int = λ text. ok (pos 1600000000);
}

abbrev request : Option Metadata
request = some (record {
  pubkey = some (codes "02ab" ∷ []);
  signature = some (codes "02ab" ∷ []);
  timestamp = some (codes "1600000000" ∷ []);
})

let_through : intercept test_btcec (codes "02ab" ∷ []) (pos 1600000005) request ≡ ok tt
unfolding intercept verify_timestamp_sig decode_string str_eq ◌-64◌ ◌-ℤ◌ to_int64
let_through = refl

intercept-IsAuthentic_example : IsAuthentic test_btcec (codes "02ab" ∷ []) (pos 1600000005) request
intercept-IsAuthentic_example =
    intercept-IsAuthentic test_btcec (codes "02ab" ∷ []) (pos 1600000005) request let_through
