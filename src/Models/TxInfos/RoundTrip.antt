-- ===== src/Models/TxInfos/RoundTrip.antt =====
-- A transaction that is added is read back.
use touchstone.Base.{
  ℕ, zero, suc, ◌+◌, ◌/◌, ◌≤◌, ◌<◌, ◌≡◌, refl, sym, ap, ◌∙◌, arith, ℤ, pos, negsuc, Str, str_eq,
  str_eq_refl, Bool, true, false, Bool-cases, inl, inr, ◌==ℤ◌, leb_ℤ, List, [], ◌∷◌, ◌++◌, All,
  All-map, select, select-append, select-none, str_eq_flip, take, length, Option, none, some, ok,
  Action, lift, >>=_ok, if◌then◌else◌, ltb, ==ℤ_iff,
}
use mathlib.Core.List.{flatten, append_assoc, append-nil}
use touchstone.Wire.{Wire, MsgTx}
use touchstone.Util.Hex.{IsBytes, encode_to_string, decode_string-encode_to_string}
use touchstone.Util.Common.{split_string}
use touchstone.Util.Common.Pieces.{split_string-IsSplit}
use touchstone.Models.Collection.{Collection}
use touchstone.Models.TxInfos.{
  RawTxInfo, Collected, collect, by_index, is_index, omit_empty, or_zero, tx_state_new,
  max_segment_size, piece_doc, info_doc, deserialize_tx_str, read_parts, finish_msg_tx_info,
  get_msg_tx_info, add_msg_tx_info,
}
use touchstone.Models.Kept.{sort_docs, insert_sorted}
use touchstone.Models.TxInfos.Stored.{StoreLaws, piece_docs, insert_info-docs}

some_injective : {A : Type 0} {a b : A} → ◌≡◌ {A = Option A} (some a) (some b) → a ≡ b
some_injective h = cc

or_zero-omit_empty : (n : ℤ) → or_zero (omit_empty n) ≡ n
or_zero-omit_empty n = elim (Bool-cases (n ==ℤ pos 0)) [
  | inl none_left ↦ rw none_left (sym ((==ℤ_iff n (pos 0)).0 none_left))
  | inr some_left ↦ rw some_left refl
]

take-all : {A : Type 0} (n : ℕ) (xs : List A) → length xs ≤ n → take n xs ≡ xs
take-all zero [] h = refl
take-all zero (x ∷ xs) h = absurd (omega arith)
take-all (suc n) [] h = refl
take-all (suc n) (x ∷ xs) h = ap (◌∷◌ x) (take-all n xs (omega arith))

length-piece_docs : (txid : Str) (i : ℕ) (ps : List Str) → length (piece_docs txid i ps) ≡ length ps
unfolding piece_docs
length-piece_docs txid i [] = refl
length-piece_docs txid i (p ∷ ps) = omega (arith, length-piece_docs txid (i + 1) ps)

insert_sorted-piece :
    (txid p : Str) (i : ℕ) (ps : List Str)
    → insert_sorted by_index (piece_doc txid i p) (piece_docs txid (i + 1) ps)
      ≡ piece_doc txid i p ∷ piece_docs txid (i + 1) ps
unfolding piece_docs
insert_sorted-piece txid p i [] = refl
insert_sorted-piece txid p i (q ∷ ps) =
    let less : leb_ℤ (pos i) (pos (i + 1)) ≡ true = ground arith in rw less refl

module _ (txid : Str) (d : RawTxInfo) (of_tx : d.txid ≡ txid) (at_info : d.index ≡ negsuc 0) where
  -- The query finds the documents of the transaction.
  select-docs :
      (i : ℕ) (ps : List Str)
      → select (λ e. str_eq e.txid txid) (piece_docs txid i ps ++ (d ∷ []))
        ≡ piece_docs txid i ps ++ (d ∷ [])
  unfolding piece_docs
  select-docs i [] = rw of_tx (rw (str_eq_refl txid) refl)
  select-docs i (p ∷ ps) =
      rw (str_eq_refl txid) (ap (◌∷◌ (piece_doc txid i p)) (select-docs (i + 1) ps))

  -- Sorted by index, what is known of the transaction comes first.
  sort_docs-pieces :
      (i : ℕ) (ps : List Str)
      → sort_docs by_index (piece_docs txid i ps ++ (d ∷ [])) ≡ d ∷ piece_docs txid i ps
  unfolding piece_docs sort_docs
  sort_docs-pieces i [] = refl
  sort_docs-pieces i (p ∷ ps) =
      ap (insert_sorted by_index (piece_doc txid i p)) (sort_docs-pieces (i + 1) ps)
      ∙ (let below : leb_ℤ (pos i) d.index ≡ false = rw at_info (ground arith) in
          rw below (ap (◌∷◌ d) (insert_sorted-piece txid p i ps)))

  collect-pieces :
      (i : ℕ) (ps : List Str) (c : Collected)
      → collect c (piece_docs txid i ps) ≡ record { parts = c.parts ++ ps; info = c.info }
  unfolding piece_docs
  collect-pieces i [] c = ap (λ x. record { parts = x; info = c.info }) (sym (append-nil c.parts))
  collect-pieces i (p ∷ ps) c =
      let piece : is_index (piece_doc txid i p) ≡ false = ground arith in
      let c' : Collected = record c { parts = c.parts ++ (p ∷ []) } in
      rw (piece, collect)
        (collect-pieces (i + 1) ps c'
          ∙ ap (λ x. record { parts = x; info = c.info }) (append_assoc c.parts (p ∷ []) ps))

module _ {S : Type 0} (col : Collection S RawTxInfo) (docs : S → List RawTxInfo)
    (laws : StoreLaws col docs) (wire : Wire) where
  -- Reading a transaction whose documents the collection keeps.
  read_parts-docs :
      (f : ℕ) (txid : Str) (height : ℤ) (block_hash : Str) (timestamp : ℤ) (ps : List Str)
      (old : List RawTxInfo) (s : S)
      → docs s ≡ old ++ (piece_docs txid 0 ps ++ (info_doc txid height block_hash timestamp ∷ []))
      → All (λ e. str_eq e.txid txid ≡ false) old
      → length ps < 63
      → read_parts col (suc f) txid (record { parts = []; info = none }) s
        ≡ (ok (record { parts = ps; info = some (info_doc txid height block_hash timestamp) }), s)
  unfolding read_parts
  read_parts-docs f txid height block_hash timestamp ps old s kept others few =
      let d = info_doc txid height block_hash timestamp in
      let test : RawTxInfo → Bool = λ e. str_eq e.txid txid in
      let ours = piece_docs txid 0 ps in
      let found : sort_docs by_index (select test (docs s)) ≡ d ∷ ours =
        ap (λ x. sort_docs by_index (select test x)) kept
        ∙ (ap (sort_docs by_index) (
              select-append test old (ours ++ (d ∷ []))
              ∙ (ap (λ x. x ++ select test (ours ++ (d ∷ []))) (select-none test old others)
                  ∙ select-docs txid d refl refl 0 ps))
            ∙ sort_docs-pieces txid d refl refl 0 ps) in
      let short : length (d ∷ ours) < 64 = omega (arith, length-piece_docs txid 0 ps) in
      let got : col.get_many test by_index (pos 0) (pos 128) s ≡ (ok (d ∷ ours), s) =
        laws.get_many_sorted test by_index 0 128 s
        ∙ ap (λ x. (ok x, s)) (ap (take 128) found ∙ take-all 128 (d ∷ ours) (omega arith)) in
      let last : ltb (length (d ∷ ours)) (128 / 2) ≡ true = ground arith in
      let none_yet : Collected = record { parts = []; info = none } in
      let go_on : List RawTxInfo → Action S Collected = λ ds s'.
        let more = read_parts col f txid (collect none_yet ds) s' in
        if ltb (length ds) (128 / 2) then (ok (collect none_yet ds), s') else more in
      let collected = collect-pieces txid d refl refl 0 ps (record { parts = []; info = some d }) in
      >>=_ok (col.get_many test by_index (pos 0) (pos 128)) go_on s got
      ∙ (rw last (ap (λ c. (ok c, s)) collected))

  finish-docs :
      (msg_tx : MsgTx) (txid : Str) (height : ℤ) (block_hash : Str) (timestamp : ℤ)
      (pieces : List Str)
      → wire.deserialize (wire.serialize msg_tx) ≡ ok msg_tx
      → IsBytes (wire.serialize msg_tx)
      → split_string (encode_to_string (wire.serialize msg_tx)) max_segment_size ≡ some pieces
      → finish_msg_tx_info col wire
          (record { parts = pieces; info = some (info_doc txid height block_hash timestamp) })
        ≡ ok (record {
          msg_tx = msg_tx;
          height = height;
          block_hash = block_hash;
          timestamp = timestamp;
          state = tx_state_new;
        })
  unfolding finish_msg_tx_info
  finish-docs msg_tx txid height block_hash timestamp pieces law bytes cut =
      let raw = encode_to_string (wire.serialize msg_tx) in
      let (pieces', cut', split) = split_string-IsSplit raw max_segment_size (omega arith) in
      let same : pieces ≡ pieces' = some_injective (sym cut ∙ cut') in
      let joined : flatten pieces ≡ raw = ap flatten same ∙ split.joined in
      let decoded = decode_string-encode_to_string (wire.serialize msg_tx) bytes in
      let h = or_zero-omit_empty height in
      let t = or_zero-omit_empty timestamp in
      let read : deserialize_tx_str col wire (flatten pieces) ≡ ok msg_tx =
        rw joined (rw (deserialize_tx_str, decoded) law) in
      rw read (rw (h, t) refl)

  -- A transaction whose documents are not there yet is added without an error, and reading it then
  -- gives it with the height, the block's hash and the time that it was added with, as new, if it
  -- has fewer than 63 pieces. The collection keeps what is inserted, the library reads the bytes
  -- that it writes, and one round of the loop is enough.
  pub get_msg_tx_info-add :
      (f : ℕ) (msg_tx : MsgTx) (height : ℤ) (block_hash : Str) (timestamp : ℤ) (pieces : List Str)
      (s : S)
      → wire.deserialize (wire.serialize msg_tx) ≡ ok msg_tx
      → IsBytes (wire.serialize msg_tx)
      → split_string (encode_to_string (wire.serialize msg_tx)) max_segment_size ≡ some pieces
      → length pieces < 63
      → All (λ e. str_eq (wire.tx_hash msg_tx) e.txid ≡ false) (docs s)
      → (s' : S) × (add_msg_tx_info col wire msg_tx height block_hash timestamp s ≡ (ok tt, s'))
        × (get_msg_tx_info col wire (suc f) (wire.tx_hash msg_tx) s' ≡ (
          ok (record {
            msg_tx = msg_tx;
            height = height;
            block_hash = block_hash;
            timestamp = timestamp;
            state = tx_state_new;
          }),
          s',
        ))
  unfolding add_msg_tx_info get_msg_tx_info finish_msg_tx_info
  get_msg_tx_info-add f msg_tx height block_hash timestamp pieces s law bytes cut few new =
      let txid = wire.tx_hash msg_tx in
      let d = info_doc txid height block_hash timestamp in
      let (s', added, kept) =
        insert_info-docs col docs laws txid height block_hash timestamp pieces s new in
      let read =
        read_parts-docs f txid height block_hash timestamp pieces (docs s) s' kept
          (All-map (λ e. str_eq_flip txid e.txid) (docs s) new) few in
      let finished = finish-docs msg_tx txid height block_hash timestamp pieces law bytes cut in
      (
        s',
        rw (cut, add_msg_tx_info) added,
        >>=_ok (read_parts col (suc f) txid (record { parts = []; info = none }))
              (λ c. lift (finish_msg_tx_info col wire c)) s' read
            ∙ ap (λ r. (r, s')) finished,
      )
