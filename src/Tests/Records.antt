-- ===== src/Tests/Records.antt =====
-- Records that a collection keeps, as a list, and what processing adds to them.
use touchstone.Base.{
  Bool, true, ◌≡◌, ◌-64◌, to_int64, ◌-ℤ◌, refl, ap, arith, pos, not, Bool-cases, inl, inr, List, [],
  ◌∷◌, ◌++◌, any, select, length, ok, err, new_error, str_eq, if◌then◌else◌,
}
use mathlib.Core.List.{Memᴰ}
use touchstone.Util.Hex.{encode_to_string}
use touchstone.Models.Collection.{Collection, mongo_error_duplicate}
use touchstone.Models.Kept.{sort_docs}
use touchstone.Models.TxPoints.{
  TxPoint, same_point, get_tx_point, add_tx_point, get_tx_points_by_addr, delete_tx_points,
}
use touchstone.Services.Env.{Env}
use touchstone.Services.Validate.{
  TxInventory, has_badge_flag, add_badge_value, parse_msg_tx, parse_vins, parse_vin,
  server_get_tx_point, use_point, parse_outputs, outputs_within, parse_vouts,
}
use touchstone.Services.Process.{process_msg_tx, parse_and_add_tx_points, add_tx_points}
use touchstone.Services.Process.Recorded.{KeepsPoints, IsUnknown, process_msg_tx-docs}
use touchstone.Services.Chain.{clear_msg_tx}
use touchstone.Services.Chain.Cleared.{clear_msg_tx-process_msg_tx}
use touchstone.Services.Inventories.{get_transaction_inventory}
use touchstone.Services.Inventories.Recorded.{get_transaction_inventory-process_msg_tx}
use touchstone.Util.Common.{generate_str_from_str_int, decimal}
use touchstone.Services.Utxos.{
  calculate_utxos, unspent_outputs, spent_utxo_set, in_set, get_all_addr_utxos,
}
use touchstone.Services.Utxos.Spent.{process_msg_tx-unspent}
use touchstone.Models.TxInfos.{delete_msg_tx, set_msg_tx_state}
use touchstone.Tests.Store.{first_of, test_env, test_wire, child_tx, out_100, in_100}

-- An insertion with a key that is there is refused.
unfoldable pub kept_points : Collection (List TxPoint) TxPoint
unfolding sort_docs
kept_points = record {
  insert = λ p s.
      if any (same_point p) s
      then (err (new_error mongo_error_duplicate), s)
      else (ok tt, s ++ (p ∷ []));
  get_one = λ test s. (first_of (select test s), s);
  get_all = λ test order s. (ok (sort_docs order (select test s)), s);
  get_many = λ test order offset limit s. (ok (select test s), s);
  count = λ test s. (ok (pos (length (select test s))), s);
  update_one = λ test f s. (ok tt, s);
  update_all = λ test f s. (ok tt, s);
  delete_all = λ test s. (ok tt, select (λ p. not (test p)) s);
  foreach = λ test f s. (ok tt, s);
}

abbrev pub env : Env (List TxPoint)
env = record (test_env [] []) { tx_points = kept_points }

select-mem :
    (test : TxPoint → Bool) (p : TxPoint) (ps : List TxPoint) → Memᴰ p (select test ps) → Memᴰ p ps
select-mem test p [] m = elim m [ ]
select-mem test p (q ∷ ps) m = elim (Bool-cases (test q)) [
  | inl there ↦ elim (rw there at m) [
    | Memᴰ.head e ↦ Memᴰ.head e
    | Memᴰ.tail m' ↦ Memᴰ.tail (select-mem test p ps m')
  ]
  | inr gone ↦ Memᴰ.tail (select-mem test p ps (rw gone at m))
]

first_of-found :
    (test : TxPoint → Bool) (p : TxPoint) (ps : List TxPoint)
    → first_of (select test ps) ≡ ok p
    → Memᴰ p ps × (test p ≡ true)
first_of-found test p [] h = absurd (cc)
first_of-found test p (q ∷ ps) h = elim (Bool-cases (test q)) [
  | inl there ↦ let h' = rw there at h in let same : p ≡ q = cc in (Memᴰ.head same, rw same there)
  | inr gone ↦ let (m, passed) = first_of-found test p ps (rw gone at h) in (Memᴰ.tail m, passed)
]

pub kept : KeepsPoints env (λ s. s)
unfolding kept_points
kept = record {
  keeps = record {
    insert_either = λ p s. elim (Bool-cases (any (same_point p) s)) [
      | inl there ↦ inr (rw there refl)
      | inr new ↦ inl (rw new refl)
    ];
    insert_ok = λ p s h. elim (Bool-cases (any (same_point p) s)) [
      | inl there ↦ let wrong = rw there at h in absurd (cc)
      | inr new ↦ rw new refl
    ];
    insert_duplicate = λ p s e h dup. elim (Bool-cases (any (same_point p) s)) [
      | inl there ↦ there
      | inr new ↦ let wrong = rw new at h in absurd (cc)
    ];
    get_one_found = λ test p s h. first_of-found test p s h;
    get_one_keeps = λ test s. refl;
    get_all_sorted = λ test order s. refl;
    delete_ok = λ test s h. refl;
    delete_some = λ test p s m. select-mem (λ q. not (test q)) p s m;
    update_some = λ test f p s m. inl m;
  };
  apart = record {
    get_one_leaves = λ test s. refl;
    update_one_leaves = λ test f s. refl;
    delete_all_leaves = λ test s. refl;
  };
}

-- An output of 100 that is spent, and one beside it.
abbrev beside : TxPoint
beside = record out_100 { index = pos 1 }

abbrev spent : TxInventory
spent = record { vins = in_100 ∷ []; vouts = [] }

abbrev before : List TxPoint
before = out_100 ∷ beside ∷ []

new : IsUnknown (test_wire.tx_hash child_tx) before
unfolding str_eq encode_to_string
new = (refl, (refl, tt))

process_run : process_msg_tx env child_tx (pos 2) before ≡ (ok spent, before ++ (in_100 ∷ []))
unfolding process_msg_tx parse_and_add_tx_points add_tx_points add_tx_point parse_msg_tx parse_vins
    parse_vin server_get_tx_point get_tx_point use_point has_badge_flag add_badge_value
    parse_outputs outputs_within parse_vouts set_msg_tx_state str_eq encode_to_string kept_points
    ◌-64◌ to_int64 ◌-ℤ◌
process_run = refl

processed : (process_msg_tx env child_tx (pos 2) before).0 ≡ ok spent
processed = ap (λ r. r.0) process_run

process_msg_tx-docs_example :
    ((process_msg_tx env child_tx (pos 2) before).1 ≡ before ++ (spent.vins ++ spent.vouts))
    × ((parse_msg_tx env child_tx (pos 2) before).0 ≡ ok spent)
process_msg_tx-docs_example =
    process_msg_tx-docs env (λ s. s) kept child_tx (pos 2) before spent new processed

clear_msg_tx-process_msg_tx_example :
    (clear_msg_tx env (test_wire.tx_hash child_tx) (process_msg_tx env child_tx (pos 2) before).1).1
    ≡ before
unfolding clear_msg_tx delete_tx_points delete_msg_tx kept_points
clear_msg_tx-process_msg_tx_example =
    clear_msg_tx-process_msg_tx env (λ s. s) kept child_tx (pos 2) before spent new processed refl

get_transaction_inventory-process_msg_tx_example :
    get_transaction_inventory env
      (test_wire.tx_hash child_tx)
      (process_msg_tx env child_tx (pos 2) before).1
    ≡ (ok spent, (process_msg_tx env child_tx (pos 2) before).1)
get_transaction_inventory-process_msg_tx_example =
    get_transaction_inventory-process_msg_tx env (λ s. s) kept child_tx (pos 2) before spent new
      processed (omega arith)

unspent_run :
    (get_all_addr_utxos env in_100.addr in_100.badge_code
      (process_msg_tx env child_tx (pos 2) before).1).0
    ≡ ok (beside ∷ [])
unfolding get_all_addr_utxos get_tx_points_by_addr calculate_utxos unspent_outputs spent_utxo_set
    in_set generate_str_from_str_int str_eq encode_to_string kept_points decimal
unspent_run = rw process_run refl

process_msg_tx-unspent_example :
    ¬ ((in_100.pre_txid ≡ beside.txid) × (in_100.pre_index ≡ beside.index))
process_msg_tx-unspent_example =
    process_msg_tx-unspent env (λ s. s) kept child_tx (pos 2) before spent (beside ∷ []) in_100
      beside new processed (Memᴰ.head refl) unspent_run (Memᴰ.head refl)
