-- ===== src/Tests/Documents.antt =====
-- A collection that keeps its documents, as a list.
use touchstone.Base.{
  Outcome, ◌≡◌, refl, ap, true, str_eq, Option, none, some, arith, pos, pos_part, codes, List, [],
  ◌∷◌, ◌++◌, any, select, take, drop, length, ok, err, new_error, if◌then◌else◌,
}
use touchstone.Util.Hex.{encode_to_string}
use touchstone.Util.Common.{split_string}
use touchstone.Models.Collection.{Collection, mongo_error_duplicate, mongo_not_found}
use touchstone.Models.TxInfos.{
  RawTxInfo, MsgTxBriefInfo, brief, info_doc, set_msg_tx_height_hash, get_msg_tx_brief_info,
  add_msg_tx_info, get_msg_tx_info, tx_state_new,
}
use touchstone.Models.TxInfos.Stored.{StoreLaws, same_key}
use touchstone.Models.Kept.{sort_docs}
use touchstone.Models.TxInfos.RoundTrip.{get_msg_tx_info-add}
use touchstone.Services.Env.{TxState}
use touchstone.Services.Chain.{is_moved}
use touchstone.Services.Chain.Moved.{
  first_doc, update_first, UpdateLaws, is_moved-set_msg_tx_height_hash,
}
use touchstone.Tests.Store.{test_wire, parent_tx}

abbrev or_not_found : Option RawTxInfo → Outcome RawTxInfo
or_not_found none = err (new_error mongo_not_found)
or_not_found (some d) = ok d

abbrev updated : Option RawTxInfo → Outcome (Unit {0})
updated none = err (new_error mongo_not_found)
updated (some d) = ok tt

-- An insertion with a key that is there is refused; what is not called here is left out.
abbrev kept_docs : Collection (List RawTxInfo) RawTxInfo
unfolding sort_docs first_doc update_first
kept_docs = record {
  insert = λ d s.
      if any (same_key d) s
      then (err (new_error mongo_error_duplicate), s)
      else (ok tt, s ++ (d ∷ []));
  get_one = λ test s. (or_not_found (first_doc test s), s);
  get_all = λ test order s. (ok (sort_docs order (select test s)), s);
  get_many = λ test order offset limit s.
      (ok (take (pos_part limit) (drop (pos_part offset) (sort_docs order (select test s)))), s);
  count = λ test s. (ok (pos (length (select test s))), s);
  update_one = λ test f s. (updated (first_doc test s), update_first test f s);
  update_all = λ test f s. (ok tt, s);
  delete_all = λ test s. (ok tt, s);
  foreach = λ test f s. (ok tt, s);
}

kept_docs_laws : StoreLaws kept_docs (λ s. s)
unfolding kept_docs
kept_docs_laws = record {
  insert_new = λ d s new. (s ++ (d ∷ []), rw new refl, refl);
  get_many_sorted = λ test order offset limit s. refl;
}

get_msg_tx_info-add_example :
    (s' : List RawTxInfo) × (add_msg_tx_info kept_docs test_wire parent_tx
        (pos 650000)
        (codes "ab")
        (pos 1600000000)
        []
      ≡ (ok tt, s'))
    × (get_msg_tx_info kept_docs test_wire 1 (test_wire.tx_hash parent_tx) s' ≡ (
      ok (record {
        msg_tx = parent_tx;
        height = pos 650000;
        block_hash = codes "ab";
        timestamp = pos 1600000000;
        state = tx_state_new;
      }),
      s',
    ))
unfolding split_string encode_to_string
get_msg_tx_info-add_example =
    get_msg_tx_info-add kept_docs (λ s. s) kept_docs_laws test_wire 0 parent_tx (pos 650000)
      (codes "ab") (pos 1600000000) (codes "00" ∷ []) [] refl (omega arith, tt) refl (omega arith)
      tt

update_laws : UpdateLaws kept_docs (λ s. s)
unfolding kept_docs
update_laws = record {
  get_first = λ test d s found. ap (λ o. (or_not_found o, s)) found;
  update_found = λ test f d s found.
      (update_first test f s, ap (λ o. (updated o, update_first test f s)) found, refl);
}

abbrev old_state : RawTxInfo
old_state = info_doc (codes "00") (pos 650000) (codes "ab") (pos 1600000000)

abbrev new_state : TxState
new_state = record {
  return_result = codes "success";
  result_description = [];
  block_hash = codes "cd";
  block_height = pos 650001;
}

is_moved-set_msg_tx_height_hash_example :
    (is_moved (brief old_state) new_state ≡ true)
    × ((s' : List RawTxInfo) × (i : MsgTxBriefInfo) × (set_msg_tx_height_hash kept_docs
            (codes "00")
            (pos 650001)
            (codes "cd")
            (old_state ∷ [])
          ≡ (ok tt, s'))
        × (get_msg_tx_brief_info kept_docs (codes "00") s' ≡ (ok i, s'))
        × (is_moved i new_state ≡ true))
unfolding str_eq first_doc
is_moved-set_msg_tx_height_hash_example =
    is_moved-set_msg_tx_height_hash kept_docs (λ s. s) update_laws (codes "00") new_state old_state
      (old_state ∷ []) refl refl
