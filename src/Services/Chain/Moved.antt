-- ===== src/Services/Chain/Moved.antt =====
-- What `SetMsgTxHeightHash` leaves of a transaction that the chain has moved.
use touchstone.Base.{
  ◌≡◌, refl, ap, ◌∙◌, Str, str_eq, Bool, true, false, Bool-cases, inl, inr, List, [], ◌∷◌, Option,
  none, some, ok, pure, >>=_ok, if◌then◌else◌,
}
use touchstone.Models.Collection.{Collection}
use touchstone.Models.TxInfos.{
  RawTxInfo, MsgTxBriefInfo, brief, is_info_of, set_msg_tx_height_hash, get_msg_tx_brief_info,
}
use touchstone.Services.Env.{TxState}
use touchstone.Services.Chain.{is_moved}

-- The first document that passes a test.
unfoldable pub first_doc : (RawTxInfo → Bool) → List RawTxInfo → Option RawTxInfo
first_doc test [] = none
first_doc test (d ∷ ds) = let later = first_doc test ds in if test d then some d else later

unfoldable pub update_first :
    (RawTxInfo → Bool) → (RawTxInfo → RawTxInfo) → List RawTxInfo → List RawTxInfo
update_first test f [] = []
update_first test f (d ∷ ds) =
    let later = update_first test f ds in if test d then f d ∷ ds else d ∷ later

-- A collection that updates the first document that passes a test, and finds it.
pub record UpdateLaws {S : Type 0} (col : Collection S RawTxInfo) (docs : S → List RawTxInfo)
    : Type 0 where
  pub get_first :
      (test : RawTxInfo → Bool) (d : RawTxInfo) (s : S)
      → first_doc test (docs s) ≡ some d
      → col.get_one test s ≡ (ok d, s)
  pub update_found :
      (test : RawTxInfo → Bool) (f : RawTxInfo → RawTxInfo) (d : RawTxInfo) (s : S)
      → first_doc test (docs s) ≡ some d
      → (s' : S) × (col.update_one test f s ≡ (ok tt, s'))
        × (docs s' ≡ update_first test f (docs s))

first_doc-update_first :
    (test : RawTxInfo → Bool) (f : RawTxInfo → RawTxInfo) (d : RawTxInfo) (ds : List RawTxInfo)
    → ((e : RawTxInfo) → test (f e) ≡ test e)
    → first_doc test ds ≡ some d
    → first_doc test (update_first test f ds) ≡ some (f d)
unfolding first_doc update_first
first_doc-update_first test f d [] same h = absurd (cc)
first_doc-update_first test f d (e ∷ ds) same h = elim (Bool-cases (test e)) [
  | inl there ↦
      let is_d = rw there at h in
      let eq : e ≡ d = cc in
      let still : test (f e) ≡ true = same e ∙ there in
      rw there (rw still (ap (λ x. some (f x)) eq))
  | inr gone ↦ rw gone (rw gone (first_doc-update_first test f d ds same (rw gone at h)))
]

module _ {S : Type 0} (col : Collection S RawTxInfo) (docs : S → List RawTxInfo)
    (laws : UpdateLaws col docs) where
  -- If the block's hash that is kept of a transaction is not that of its state on the chain, then
  -- the transaction counts as moved, and it still does once its height and hash have been set to
  -- those of that state.
  pub is_moved-set_msg_tx_height_hash :
      (txid : Str) (t : TxState) (d : RawTxInfo) (s : S)
      → first_doc (is_info_of txid) (docs s) ≡ some d
      → str_eq d.block_hash t.block_hash ≡ false
      → (is_moved (brief d) t ≡ true)
        × ((s' : S) × (i : MsgTxBriefInfo) × (set_msg_tx_height_hash col txid t.block_height
                t.block_hash s
              ≡ (ok tt, s'))
            × (get_msg_tx_brief_info col txid s' ≡ (ok i, s'))
            × (is_moved i t ≡ true))
  unfolding set_msg_tx_height_hash get_msg_tx_brief_info
  is_moved-set_msg_tx_height_hash txid t d s found other =
      let set : RawTxInfo → RawTxInfo =
        λ e. record e { height = some t.block_height; hash = some t.block_hash } in
      let (s', done, kept) = laws.update_found (is_info_of txid) set d s found in
      let still : first_doc (is_info_of txid) (docs s') ≡ some (set d) =
        ap (first_doc (is_info_of txid)) kept
        ∙ first_doc-update_first (is_info_of txid) set d (docs s) (λ e. refl) found in
      let read = laws.get_first (is_info_of txid) (set d) s' still in
      (
        rw other refl,
        (
          s',
          brief (set d),
          done,
          >>=_ok (col.get_one (is_info_of txid)) (λ e. pure (brief e)) s' read,
          rw other refl,
        ),
      )
