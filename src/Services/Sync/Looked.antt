-- ===== src/Services/Sync/Looked.antt =====
-- What the first loop of `SyncTxs` notes of each id, and what its second loop adds.
use touchstone.Base.{
  ℕ, Str, Bytes, Bool-cases, List, [], ◌∷◌, ◌++◌, ◌≡◌, refl, subst, ◌⊎◌, inl, inr, ok, ok_injective,
  ◌∙◌, str_eq, Outcome, err, handle, Error, Action, pure, handle-eq-ok, >>=-eq-ok, ◌>>=◌, All, Any,
  Any-append_left, Any-append_right, not, ◌==◌,
}
use touchstone.Wire.{MsgTx}
use touchstone.Util.Hex.{encode_to_string}
use touchstone.Models.Collection.{is_not_found}
use touchstone.Models.TxInfos.{
  MsgTxBriefInfo, MsgTxInfo, get_msg_tx_brief_info, get_msg_tx_info, tx_state_closed,
}
use touchstone.Services.Env.{Env, TxState}
use touchstone.Services.PartitionHash.{add_need_recomputehash_partition_by_height}
use touchstone.Services.Process.{TxidMsg}
use touchstone.Services.Process.Answered.{IsErrorOf}
use touchstone.Services.Sync.{
  Found, look_up, look_up_known, look_up_lack, note_lack, return_result_failure,
}

module _ {S : Type 0} (env : Env S) (fuel : ℕ) where
  open env use {wire, tx_infos, get_tx_state}

  -- A transaction with an id, or the one that is read under it.
  abbrev pub IsTxOf : Str → MsgTx → Type 0
  IsTxOf txid tx =
      (wire.tx_hash tx ≡ txid)
      ⊎ ((s : S) × (info : MsgTxInfo) × ((get_msg_tx_info tx_infos wire fuel txid s).0 ≡ ok info)
          × (info.msg_tx ≡ tx))

  -- An id that is closed, refused, being processed or to be fetched.
  abbrev pub IsNoted : Found → Bytes → Type 0
  IsNoted f txid =
      Any (λ c. c ≡ encode_to_string txid) f.already_closed
      ⊎ Any (IsErrorOf (encode_to_string txid)) f.err_txs
      ⊎ Any (IsTxOf (encode_to_string txid)) f.need_process_tx
      ⊎ Any (λ b. b ≡ txid) f.lack_txids

  -- What is noted stays noted, and nothing has been fetched.
  abbrev pub LooksOn : Found → Found → Type 0
  LooksOn f g = ((txid : Bytes) → IsNoted f txid → IsNoted g txid) × (g.get_txids ≡ f.get_txids)

  closed-LooksOn :
      (txid : Bytes) (f : Found)
      → LooksOn f (record f { already_closed = f.already_closed ++ (encode_to_string txid ∷ []) })
        × IsNoted
            (record f { already_closed = f.already_closed ++ (encode_to_string txid ∷ []) })
            txid
  closed-LooksOn txid f = (
    (
      λ b noted. elim noted [
        | inl h ↦ inl (
            Any-append_left (λ c. c ≡ encode_to_string b) f.already_closed
              (encode_to_string txid ∷ []) h)
        | inr h ↦ inr h
      ],
      refl,
    ),
    inl (
        Any-append_right (λ c. c ≡ encode_to_string txid) f.already_closed
          (encode_to_string txid ∷ []) (inl refl)),
  )

  open_tx-LooksOn :
      (txid : Bytes) (f : Found) (tx : MsgTx)
      → IsTxOf (encode_to_string txid) tx
      → LooksOn f (record f { need_process_tx = f.need_process_tx ++ (tx ∷ []) })
        × IsNoted (record f { need_process_tx = f.need_process_tx ++ (tx ∷ []) }) txid
  open_tx-LooksOn txid f tx is = (
    (
      λ b noted. elim noted [
        | inl h ↦ inl h
        | inr (inl h) ↦ inr (inl h)
        | inr (inr (inl h)) ↦ inr (
            inr (inl (Any-append_left (IsTxOf (encode_to_string b)) f.need_process_tx (tx ∷ []) h)))
        | inr (inr (inr h)) ↦ inr (inr (inr h))
      ],
      refl,
    ),
    inr (
        inr (
          inl (
            Any-append_right (IsTxOf (encode_to_string txid)) f.need_process_tx (tx ∷ [])
              (inl is)))),
  )

  note_lack-LooksOn :
      (txid : Bytes) (f : Found) (t : TxState)
      → LooksOn f (note_lack env fuel txid f t) × IsNoted (note_lack env fuel txid f t) txid
  note_lack-LooksOn txid f t =
      elim (Bool-cases (not (str_eq t.return_result return_result_failure))) [
        | inl lacking ↦ rw lacking (
          (
            λ b noted. elim noted [
              | inl h ↦ inl h
              | inr (inl h) ↦ inr (inl h)
              | inr (inr (inl h)) ↦ inr (inr (inl h))
              | inr (inr (inr h)) ↦
                  inr (inr (inr (Any-append_left (λ x. x ≡ b) f.lack_txids (txid ∷ []) h)))
            ],
            refl,
          ),
          inr (inr (inr (Any-append_right (λ x. x ≡ txid) f.lack_txids (txid ∷ []) (inl refl)))),
        )
        | inr refused ↦
            let m : TxidMsg = record { txid = encode_to_string txid; msg = t.result_description } in
            rw refused (
              (
                λ b noted. elim noted [
                  | inl h ↦ inl h
                  | inr (inl h) ↦
                      inr (
                        inl (Any-append_left (IsErrorOf (encode_to_string b)) f.err_txs (m ∷ []) h))
                  | inr (inr h) ↦ inr (inr h)
                ],
                refl,
              ),
              inr (
                  inl (
                    Any-append_right (IsErrorOf (encode_to_string txid)) f.err_txs (m ∷ [])
                      (inl refl))),
            )
      ]

  look_up_lack-LooksOn :
      (txid : Bytes) (f g : Found) (e : Error) (s : S)
      → (look_up_lack env fuel txid f e s).0 ≡ ok g
      → LooksOn f g × IsNoted g txid
  look_up_lack-LooksOn txid f g e s h = elim (Bool-cases (not (is_not_found e))) [
    | inl other ↦ absurd (ok_err (rw other at h))
    | inr lacking ↦
        let (t, _, noted) =
          >>=-eq-ok (λ t. pure (note_lack env fuel txid f t)) g
            (get_tx_state (encode_to_string txid)) s (rw lacking at h) in
        subst (λ x. LooksOn f x × IsNoted x txid) (ok_injective noted) (note_lack-LooksOn txid f t)
  ]
    where
      ok_err : {x : Error} → ◌≡◌ {A = Outcome Found} (err x) (ok g) → ⊥
      ok_err w = cc

  abbrev keep_open : Bytes → Found → MsgTxBriefInfo → MsgTxInfo → Action S Found
  keep_open txid f i info = do
    _ ← add_need_recomputehash_partition_by_height env i.height
    pure (record f { need_process_tx = f.need_process_tx ++ (info.msg_tx ∷ []) })

  look_up_known-LooksOn :
      (txid : Bytes) (f g : Found) (i : MsgTxBriefInfo) (s : S)
      → (look_up_known env fuel txid f i s).0 ≡ ok g
      → LooksOn f g × IsNoted g txid
  look_up_known-LooksOn txid f g i s h = elim (Bool-cases (i.state == tx_state_closed)) [
    | inl closed ↦
        subst (λ x. LooksOn f x × IsNoted x txid) (ok_injective (rw closed at h))
          (closed-LooksOn txid f)
    | inr still ↦
        let (info, given, next) =
          >>=-eq-ok (keep_open txid f i) g
            (get_msg_tx_info tx_infos wire fuel (encode_to_string txid)) s (rw still at h) in
        let (_, _, noted) =
          >>=-eq-ok
            (λ _. pure (record f { need_process_tx = f.need_process_tx ++ (info.msg_tx ∷ []) })) g
            (add_need_recomputehash_partition_by_height env i.height) _ next in
        subst (λ x. LooksOn f x × IsNoted x txid) (ok_injective noted)
          (open_tx-LooksOn txid f info.msg_tx (inr (s, info, given, refl)))
  ]

  -- If the first loop ends, then it has noted each of the ids.
  pub look_up-LooksOn :
      (txids : List Bytes) (f g : Found) (s : S)
      → (look_up env fuel f txids s).0 ≡ ok g
      → LooksOn f g × All (IsNoted g) txids
  unfolding look_up
  look_up-LooksOn [] f g s h =
      subst (λ x. LooksOn f x × All (IsNoted x) []) (ok_injective h) ((λ b noted. noted, refl), tt)
  look_up-LooksOn (txid ∷ txids) f g s h =
      let (f', step, next) =
        >>=-eq-ok (λ x. look_up env fuel x txids) g
          (handle (get_msg_tx_brief_info tx_infos (encode_to_string txid))
            (look_up_known env fuel txid f) (look_up_lack env fuel txid f))
          s h in
      let ((on, same), noted) : LooksOn f f' × IsNoted f' txid =
        elim (handle-eq-ok (look_up_known env fuel txid f) f'
          (get_msg_tx_brief_info tx_infos (encode_to_string txid)) (look_up_lack env fuel txid f) s
          step) [
            | inl (i, _, known) ↦ look_up_known-LooksOn txid f f' i _ known
            | inr (e, _, lacking) ↦ look_up_lack-LooksOn txid f f' e _ lacking
          ] in
      let ((on', same'), rest) = look_up-LooksOn txids f' g _ next in
      ((λ b h'. on' b (on b h'), same' ∙ same), (on' txid noted, rest))
