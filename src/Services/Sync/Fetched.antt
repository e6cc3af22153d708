-- ===== src/Services/Sync/Fetched.antt =====
-- What the loop of `SyncTxs` over the fetched transactions adds, and the errors of those that were
-- not fetched.
use touchstone.Base.{
  ℕ, Str, Bytes, List, [], ◌∷◌, ◌++◌, ◌≡◌, refl, ap, subst, ◌∙◌, ◌⊎◌, inl, inr, Option-cases,
  Outcome, ok, err, ok_injective, Error, Action, pure, lift, >>=-eq-ok, ◌>>=◌, All, All-map, Any,
  Any-append_left, Any-append_right, any, str_eq, str_eq_sound, true, Bool-cases,
}
use touchstone.Wire.{MsgTx}
use touchstone.Util.Hex.{encode_to_string}
use touchstone.Util.Script.{must_decode}
use touchstone.Models.TxInfos.{add_msg_tx_info}
use touchstone.Services.Env.{Env, TxState}
use touchstone.Services.PartitionHash.{add_need_recomputehash_partition_by_height}
use touchstone.Services.Process.Answered.{IsErrorOf}
use touchstone.Services.Sync.{
  Found, add_fetched, add_all_fetched, lookup_state, height_of, not_found_errors,
}

module _ {S : Type 0} (env : Env S) (fuel : ℕ) where
  open env use {wire, tx_infos, now}

  -- Transactions are added to those that are processed, and each hash that is noted is of one.
  pub record IsFetched (f g : Found) : Type 1 where
    pub closed_same : g.already_closed ≡ f.already_closed
    pub errors_same : g.err_txs ≡ f.err_txs
    pub lack_same : g.lack_txids ≡ f.lack_txids
    pub more : (P : MsgTx → Type 0) → Any P f.need_process_tx → Any P g.need_process_tx
    pub hashes :
        All (λ t. Any (λ tx. wire.tx_hash tx ≡ t) f.need_process_tx) f.get_txids
        → All (λ t. Any (λ tx. wire.tx_hash tx ≡ t) g.need_process_tx) g.get_txids

  IsFetched-refl : (f : Found) → IsFetched f f
  IsFetched-refl f = record {
    closed_same = refl;
    errors_same = refl;
    lack_same = refl;
    more = λ P h. h;
    hashes = λ h. h;
  }

  IsFetched-trans : (f g h : Found) → IsFetched f g → IsFetched g h → IsFetched f h
  IsFetched-trans f g h a b = record {
    closed_same = b.closed_same ∙ a.closed_same;
    errors_same = b.errors_same ∙ a.errors_same;
    lack_same = b.lack_same ∙ a.lack_same;
    more = λ P x. b.more P (a.more P x);
    hashes = λ x. b.hashes (a.hashes x);
  }

  abbrev added : Found → MsgTx → Found
  added f tx = record f {
    get_txids = wire.tx_hash tx ∷ f.get_txids;
    need_process_tx = f.need_process_tx ++ (tx ∷ []);
  }

  added-IsFetched : (f : Found) (tx : MsgTx) → IsFetched f (added f tx)
  added-IsFetched f tx = record {
    closed_same = refl;
    errors_same = refl;
    lack_same = refl;
    more = λ P h. Any-append_left P f.need_process_tx (tx ∷ []) h;
    hashes = λ h. (
      Any-append_right (λ u. wire.tx_hash u ≡ wire.tx_hash tx) f.need_process_tx (tx ∷ [])
          (inl refl),
      All-map (λ t. Any-append_left (λ u. wire.tx_hash u ≡ t) f.need_process_tx (tx ∷ []))
          f.get_txids h,
    );
  }

  abbrev store_fetched : Found → MsgTx → TxState → Action S Found
  store_fetched f tx t = do
    time ← now
    _ ← add_msg_tx_info tx_infos wire tx (height_of t) t.block_hash time
    _ ← add_need_recomputehash_partition_by_height env t.block_height
    _ ← lift (must_decode (wire.tx_hash tx))
    pure (added f tx)

  store_fetched-IsFetched :
      (f g : Found) (tx : MsgTx) (t : TxState) (s : S)
      → (store_fetched f tx t s).0 ≡ ok g
      → IsFetched f g
  store_fetched-IsFetched f g tx t s h =
      let (time, _, h₁) =
        >>=-eq-ok
          (λ time. do
            _ ← add_msg_tx_info tx_infos wire tx (height_of t) t.block_hash time
            _ ← add_need_recomputehash_partition_by_height env t.block_height
            _ ← lift (must_decode (wire.tx_hash tx))
            pure (added f tx))
          g now s h in
      let (_, _, h₂) =
        >>=-eq-ok
          (λ _. do
            _ ← add_need_recomputehash_partition_by_height env t.block_height
            _ ← lift (must_decode (wire.tx_hash tx))
            pure (added f tx))
          g (add_msg_tx_info tx_infos wire tx (height_of t) t.block_hash time) _ h₁ in
      let (_, _, h₃) =
        >>=-eq-ok (λ _. do _ ← lift (must_decode (wire.tx_hash tx)); pure (added f tx)) g
          (add_need_recomputehash_partition_by_height env t.block_height) _ h₂ in
      let (_, _, h₄) =
        >>=-eq-ok (λ _. pure (added f tx)) g (lift (must_decode (wire.tx_hash tx))) _ h₃ in
      subst (IsFetched f) (ok_injective h₄) (added-IsFetched f tx)

  add_fetched-IsFetched :
      (f g : Found) (tx : MsgTx) (s : S) → (add_fetched env fuel f tx s).0 ≡ ok g → IsFetched f g
  unfolding add_fetched
  add_fetched-IsFetched f g tx s h =
      elim (Option-cases (lookup_state (wire.tx_hash tx) f.tx_states)) [
        | inl missing ↦ absurd (ok_err (rw (missing, add_fetched) at h))
        | inr (t, there) ↦ store_fetched-IsFetched f g tx t s (rw (there, add_fetched) at h)
      ]
    where
      ok_err : {x : Error} → ◌≡◌ {A = Outcome Found} (err x) (ok g) → ⊥
      ok_err w = cc

  pub add_all_fetched-IsFetched :
      (all : List Bytes) (f g : Found) (s : S)
      → (add_all_fetched env fuel f all s).0 ≡ ok g
      → IsFetched f g
  unfolding add_all_fetched
  add_all_fetched-IsFetched [] f g s h = subst (IsFetched f) (ok_injective h) (IsFetched-refl f)
  add_all_fetched-IsFetched (bytes ∷ rest) f g s h =
      let (tx, _, h₁) =
        >>=-eq-ok (λ tx. do f' ← add_fetched env fuel f tx; add_all_fetched env fuel f' rest) g
          (lift (wire.deserialize bytes)) s h in
      let (f', step, h₂) =
        >>=-eq-ok (λ f'. add_all_fetched env fuel f' rest) g (add_fetched env fuel f tx) _ h₁ in
      IsFetched-trans f f' g (add_fetched-IsFetched f f' tx _ step)
        (add_all_fetched-IsFetched rest f' g _ h₂)

any-Any :
    (txid : Str) (got : List Str) → any (λ t. str_eq t txid) got ≡ true → Any (λ t. t ≡ txid) got
any-Any txid [] h = absurd cc
any-Any txid (t ∷ ts) h = elim (Bool-cases (str_eq t txid)) [
  | inl same ↦ inl (str_eq_sound t txid same)
  | inr other ↦ inr (any-Any txid ts (rw other at h))
]

-- An id that was to be fetched is among the hashes that were, or there is an error for it.
pub not_found_errors-lack :
    (got : List Str) (lack : List Bytes) (txid : Bytes)
    → Any (λ b. b ≡ txid) lack
    → Any (λ t. t ≡ encode_to_string txid) got
      ⊎ Any (IsErrorOf (encode_to_string txid)) (not_found_errors got lack)
unfolding not_found_errors
not_found_errors-lack got [] txid h = elim h [ ]
not_found_errors-lack got (b ∷ bs) txid (inl same) =
    elim (Bool-cases (any (λ t. str_eq t (encode_to_string b)) got)) [
      | inl there ↦ inl (
          subst (λ x. Any (λ t. t ≡ encode_to_string x) got) same
            (any-Any (encode_to_string b) got there))
      | inr gone ↦ rw gone (inr (inl (ap encode_to_string same)))
    ]
not_found_errors-lack got (b ∷ bs) txid (inr later) =
    elim (not_found_errors-lack got bs txid later) [
      | inl there ↦ inl there
      | inr error ↦ elim (Bool-cases (any (λ t. str_eq t (encode_to_string b)) got)) [
        | inl there ↦ rw there (inr error)
        | inr gone ↦ rw gone (inr (inr error))
      ]
    ]
