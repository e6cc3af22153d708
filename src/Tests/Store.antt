-- ===== src/Tests/Store.antt =====
-- A database of fixed documents and libraries of a few lines, for examples.
use touchstone.Base.{
  pos, negsuc, Bytes, codes, List, [], ◌∷◌, Outcome, ok, err, new_error, length, select, refl,
}
use touchstone.Wire.{Wire, MsgTx, TxIn}
use touchstone.Util.Hex.{encode_to_string}
use touchstone.Util.Script.{BtcUtil}
use touchstone.Util.Script.RoundTrip.{BtcUtilLaws}
use touchstone.Models.Collection.{Collection, mongo_not_found}
use touchstone.Models.TxPoints.{TxPoint}
use touchstone.Models.TxInfos.{RawTxInfo}
use touchstone.Services.Env.{Env}

abbrev pub State : Type 0
State = Unit {0}

abbrev pub first_of : {D : Type 0} → List D → Outcome D
first_of [] = err (new_error mongo_not_found)
first_of (d ∷ ds) = ok d

-- A collection of fixed documents, which takes no change.
abbrev pub fixed : {S D : Type 0} → List D → Collection S D
fixed docs = record {
  insert = λ d s. (ok tt, s);
  get_one = λ test s. (first_of (select test docs), s);
  get_all = λ test order s. (ok (select test docs), s);
  get_many = λ test order offset limit s. (ok (select test docs), s);
  count = λ test s. (ok (pos (length (select test docs))), s);
  update_one = λ test f s. (ok tt, s);
  update_all = λ test f s. (ok tt, s);
  delete_all = λ test s. (ok tt, s);
  foreach = λ test f s. (ok tt, s);
}

abbrev read_tx : Bytes → Outcome MsgTx
read_tx (n ∷ []) = ok (record { version = 2; tx_in = []; tx_out = []; lock_time = n })
read_tx _ = err (new_error (codes "EOF"))

-- A transaction's id is its lock time in hexadecimal.
abbrev pub test_wire : Wire
test_wire = record {
  tx_hash = λ tx. encode_to_string (tx.lock_time ∷ []);
  serialize = λ tx. tx.lock_time ∷ [];
  deserialize = read_tx;
}

-- A hash of 20 bytes.
abbrev pub test_addr : Bytes
test_addr =
    1 ∷ 2 ∷ 3 ∷ 4 ∷ 5 ∷ 6 ∷ 7 ∷ 8 ∷ 9 ∷ 10 ∷ 11 ∷ 12 ∷ 13 ∷ 14 ∷ 15 ∷ 16 ∷ 17 ∷ 18 ∷ 19 ∷ 20 ∷ []

-- An address is its hash, and all texts are read as one address.
abbrev pub test_btc : BtcUtil
test_btc = record {
  Address = Bytes;
  new_address_pub_key_hash = λ hash. ok hash;
  decode_address = λ text. ok test_addr;
  script_address = λ a. a;
  address_string = λ a. encode_to_string a;
  op_return_script = λ bytes. ok (0x6a ∷ 0x08 ∷ bytes);
}

pub test_laws : BtcUtilLaws test_btc
test_laws = record {
  hash_address = λ hash twenty. (hash, refl, refl);
  push_eight = λ bytes eight. refl;
}

abbrev pub test_env : {S : Type 0} → List TxPoint → List RawTxInfo → Env S
test_env points infos = record {
  wire = test_wire;
  btc = test_btc;
  tx_points = fixed points;
  tx_infos = fixed infos;
  partitions = fixed [];
  addr_infos = fixed [];
  aggregate_tx_points = λ of_user of_badge s. (ok (select of_badge points), s);
  get_tx_state = λ txid s. (err (new_error (codes "offline")), s);
  get_fee_quote = λ s. (ok (pos 650100), s);
  now = λ s. (ok (pos 1600000000), s);
  start_height = pos 650000;
  get_cache = λ s. [];
  set_cache = λ ids s. s;
  new_hash_from_str = λ text. ok text;
  sort = λ less xs. xs;
  peers = [];
  sha256 = λ bytes. bytes;
}

-- The records of an output of 100, of the input that spends it, and of an output of 60.
abbrev pub out_100 : TxPoint
out_100 = record {
  addr = encode_to_string test_addr;
  txid = codes "00";
  index = pos 0;
  kind = 2;
  value = pos 100;
  pre_txid = [];
  pre_index = negsuc 0;
  badge_code = codes "00";
  timestamp = pos 1;
  state = 1;
}

abbrev pub in_100 : TxPoint
in_100 = record out_100 {
  txid = codes "01";
  kind = 1;
  value = negsuc 99;
  pre_txid = codes "00";
  pre_index = pos 0;
  timestamp = pos 2;
}

abbrev pub out_60 : TxPoint
out_60 = record out_100 { txid = codes "01"; value = pos 60; timestamp = pos 2 }

-- A transaction that spends the output of 100 and bears the badge flag.
abbrev pub spending_in : TxIn
spending_in = record { prev_hash = codes "00"; prev_index = 0; signature_script = codes "badge" }

abbrev pub parent_tx : MsgTx
parent_tx = record { version = 2; tx_in = []; tx_out = []; lock_time = 0 }

abbrev pub child_tx : MsgTx
child_tx = record { version = 2; tx_in = spending_in ∷ []; tx_out = []; lock_time = 1 }
