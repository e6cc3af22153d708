-- ===== src/Models/TxInfos/Stored.antt =====
-- What `AddMsgTxInfo` leaves in a collection that keeps what is inserted.
use touchstone.Base.{
  ℕ, ◌+◌, ◌<◌, ◌≡◌, refl, sym, ap, ◌∙◌, arith, ℤ, pos, Str, str_eq, Bool, false, Bool-cases, inl,
  inr, ◌⊎◌, ◌&&◌, ◌==ℤ◌, List, [], ◌∷◌, ◌++◌, All, All-append, All-map, any, any-none, select, take,
  drop, ok, pure, fail, handle_ok, ◌>>◌, >>=_ok, if◌then◌else◌, subst,
}
use mathlib.Core.List.{append_assoc, append-nil}
use touchstone.Models.Collection.{Collection, is_duplicate}
use touchstone.Models.Kept.{sort_docs}
use touchstone.Models.TxInfos.{RawTxInfo, piece_doc, info_doc, insert_once, add_pieces}

-- The unique index of the collection.
abbrev pub same_key : RawTxInfo → RawTxInfo → Bool
same_key d e = str_eq d.txid e.txid && d.index ==ℤ e.index

-- A collection that keeps its documents: one with a new key is added, and a query gives those that
-- pass the test, sorted, from an offset on and up to a limit.
pub record StoreLaws {S : Type 0} (col : Collection S RawTxInfo) (docs : S → List RawTxInfo)
    : Type 0 where
  pub insert_new :
      (d : RawTxInfo) (s : S)
      → any (same_key d) (docs s) ≡ false
      → (s' : S) × (col.insert d s ≡ (ok tt, s')) × (docs s' ≡ docs s ++ (d ∷ []))
  pub get_many_sorted :
      (test : RawTxInfo → Bool) (order : RawTxInfo → RawTxInfo → Bool) (offset limit : ℕ) (s : S)
      → col.get_many test order (pos offset) (pos limit) s
        ≡ (ok (take limit (drop offset (sort_docs order (select test (docs s))))), s)

-- The pieces of a transaction from the `i`th on.
unfoldable pub piece_docs : Str → ℕ → List Str → List RawTxInfo
piece_docs txid i [] = []
piece_docs txid i (p ∷ ps) = piece_doc txid i p ∷ piece_docs txid (i + 1) ps

-- A document is of another transaction, or a piece before the `i`th.
unfoldable pub Free : Str → ℕ → RawTxInfo → Type 0
Free txid i e = (str_eq txid e.txid ≡ false) ⊎ ((j : ℕ) × (e.index ≡ pos j) × (j < i))

Free-piece :
    (txid p : Str) (i : ℕ) (e : RawTxInfo) → Free txid i e → same_key (piece_doc txid i p) e ≡ false
unfolding Free
Free-piece txid p i e (inl other) = rw other refl
Free-piece txid p i e (inr (j, is_j, less)) = elim (Bool-cases (str_eq txid e.txid)) [
  | inl same ↦ rw same (rw is_j (ground arith))
  | inr other ↦ rw other refl
]

Free-info :
    (txid : Str) (height : ℤ) (block_hash : Str) (timestamp : ℤ) (i : ℕ) (e : RawTxInfo)
    → Free txid i e
    → same_key (info_doc txid height block_hash timestamp) e ≡ false
unfolding Free
Free-info txid height block_hash timestamp i e (inl other) = rw other refl
Free-info txid height block_hash timestamp i e (inr (j, is_j, less)) =
    elim (Bool-cases (str_eq txid e.txid)) [
      | inl same ↦ rw same (rw is_j (ground arith))
      | inr other ↦ rw other refl
    ]

Free-next : (txid : Str) (i : ℕ) (e : RawTxInfo) → Free txid i e → Free txid (i + 1) e
unfolding Free
Free-next txid i e (inl other) = inl other
Free-next txid i e (inr (j, is_j, less)) = inr (j, is_j, omega arith)

module _ {S : Type 0} (col : Collection S RawTxInfo) (docs : S → List RawTxInfo)
    (laws : StoreLaws col docs) where
  insert_once-new :
      (d : RawTxInfo) (s : S)
      → any (same_key d) (docs s) ≡ false
      → (s' : S) × (insert_once col d s ≡ (ok tt, s')) × (docs s' ≡ docs s ++ (d ∷ []))
  unfolding insert_once
  insert_once-new d s new =
      let (s', e, kept) = laws.insert_new d s new in
      (
        s',
        handle_ok (col.insert d) pure s (λ e. if is_duplicate e then pure tt else fail e) e,
        kept,
      )

  pub add_pieces-docs :
      (txid : Str) (i : ℕ) (ps : List Str) (s : S)
      → All (Free txid i) (docs s)
      → (s' : S) × (add_pieces col txid i ps s ≡ (ok tt, s'))
        × (docs s' ≡ docs s ++ piece_docs txid i ps)
        × ((n : ℕ) × All (Free txid n) (docs s'))
  unfolding add_pieces piece_docs Free
  add_pieces-docs txid i [] s free = (s, refl, sym (append-nil (docs s)), (i, free))
  add_pieces-docs txid i (p ∷ ps) s free =
      let d = piece_doc txid i p in
      let new =
        any-none (same_key d) (docs s) (All-map (λ e. Free-piece txid p i e) (docs s) free) in
      let (s1, e1, kept1) = insert_once-new d s new in
      let free1 : All (Free txid (i + 1)) (docs s1) = subst (All (Free txid (i + 1))) (sym kept1) (
        All-append (Free txid (i + 1)) (docs s) (d ∷ [])
          (All-map (λ e. Free-next txid i e) (docs s) free) (inr (i, refl, omega arith), tt)) in
      let (s', e', kept', free') = add_pieces-docs txid (i + 1) ps s1 free1 in
      (
        s',
        >>=_ok (insert_once col d) (λ _. add_pieces col txid (i + 1) ps) s e1 ∙ e',
        kept'
            ∙ (ap (λ x. x ++ piece_docs txid (i + 1) ps) kept1
                ∙ append_assoc (docs s) (d ∷ []) (piece_docs txid (i + 1) ps)),
        free',
      )

  -- The documents of a transaction behind those that were there.
  pub insert_info-docs :
      (txid : Str) (height : ℤ) (block_hash : Str) (timestamp : ℤ) (ps : List Str) (s : S)
      → All (λ e. str_eq txid e.txid ≡ false) (docs s)
      → (s' : S) × ((add_pieces col txid 0 ps
              >> insert_once col (info_doc txid height block_hash timestamp))
            s
          ≡ (ok tt, s'))
        × (docs s'
            ≡ docs s ++ (piece_docs txid 0 ps ++ (info_doc txid height block_hash timestamp ∷ [])))
  unfolding Free
  insert_info-docs txid height block_hash timestamp ps s new =
      let d = info_doc txid height block_hash timestamp in
      let (s1, e1, kept1, (n, free)) =
        add_pieces-docs txid 0 ps s (All-map (λ e h. inl h) (docs s) new) in
      let other =
        any-none (same_key d) (docs s1)
          (All-map (λ e. Free-info txid height block_hash timestamp n e) (docs s1) free) in
      let (s', e', kept') = insert_once-new d s1 other in
      (
        s',
        >>=_ok (add_pieces col txid 0 ps) (λ _. insert_once col d) s e1 ∙ e',
        kept'
            ∙ (ap (λ x. x ++ (d ∷ [])) kept1
                ∙ append_assoc (docs s) (piece_docs txid 0 ps) (d ∷ [])),
      )
