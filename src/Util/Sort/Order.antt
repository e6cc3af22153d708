-- ===== src/Util/Sort/Order.antt =====
-- What it means for a batch to be ordered and to be acyclic; and why the inner loop of `SortMsgTx`
-- always finds a transaction that waits for no other.
use touchstone.Base.{
  ℕ, zero, suc, ◌≤◌, ◌<◌, Str, str_eq, str_eq_iff, ◌≡◌, ◌≢◌, Bool, true, false, List, [], ◌∷◌, none,
  some, any, All, All-map, Option-cases, Bool-cases, inl, inr, arith,
}
use touchstone.Wire.{MsgTx, TxIn}
use touchstone.Util.Sort.{InResult, is_pending, find_ready}

-- Whether an id is among a list of ids.
abbrev pub mem_str : Str → List Str → Bool
mem_str h = any (λ k. str_eq k h)

module _ (tx_hash : MsgTx → Str) where
  abbrev pub ids : List MsgTx → List Str
  ids [] = []
  ids (t ∷ rest) = tx_hash t ∷ ids rest

  -- Each input of the batch that spends from the batch spends from a transaction further ahead;
  -- `seen` holds the ids of those that stand ahead of the list.
  abbrev pub IsOrdered : List Str → List Str → List MsgTx → Type 0
  IsOrdered batch seen [] = Unit
  IsOrdered batch seen (t ∷ rest) =
      All (λ (i : TxIn). mem_str i.prev_hash batch ≡ true → mem_str i.prev_hash seen ≡ true) t.tx_in
      × IsOrdered batch (tx_hash t ∷ seen) rest

  -- No transaction depends on itself: ids have ranks that fall from a transaction to those of
  -- the batch that it spends from.
  abbrev pub IsEarlier : (Str → ℕ) → List Str → MsgTx → Type 0
  IsEarlier rank batch t =
      All (λ (i : TxIn). mem_str i.prev_hash batch ≡ true → rank i.prev_hash < rank (tx_hash t))
        t.tx_in

  abbrev pub IsAcyclic : (Str → ℕ) → List Str → List MsgTx → Type 0
  IsAcyclic rank batch = All (IsEarlier rank batch)

  -- What `txid2InResult` says of each id while the transactions `rest` are still to be placed.
  pub record Tracks (batch seen : List Str) (m : InResult) (rest : List MsgTx) : Type 0 where
    pub known : (h : Str) → mem_str h batch ≡ true → m h ≢ none
    pub placed : (h : Str) → m h ≡ some true → mem_str h seen ≡ true
    pub pending : (h : Str) → m h ≡ some false → mem_str h (ids rest) ≡ true
    pub within : (h : Str) → m h ≡ some false → mem_str h batch ≡ true

  any_pending :
      (rank : Str → ℕ) (batch : List Str) (n : ℕ) (m : InResult) (t : MsgTx) (is : List TxIn)
      → ((h : Str) → m h ≡ some false → n ≤ rank h)
      → ((h : Str) → m h ≡ some false → mem_str h batch ≡ true)
      → All
          (λ (i : TxIn). mem_str i.prev_hash batch ≡ true → rank i.prev_hash < rank (tx_hash t))
          is
      → any (is_pending m) is ≡ true
      → suc n ≤ rank (tx_hash t)
  any_pending rank batch n m t [] low within r h = cc
  any_pending rank batch n m t (i ∷ is) low within r h = elim (Option-cases (m i.prev_hash)) [
    | inl e ↦ any_pending rank batch n m t is low within r.1 (ground arith)
    | inr (true, e) ↦ any_pending rank batch n m t is low within r.1 (ground arith)
    | inr (false, e) ↦
        let above = low i.prev_hash e in let below = r.0 (within i.prev_hash e) in omega arith
  ]

  -- If every transaction waits for another then each id has a rank above any bound.
  none_ready_step :
      (rank : Str → ℕ) (batch : List Str) (n : ℕ) (m : InResult) (txs : List MsgTx)
      → ((h : Str) → m h ≡ some false → n ≤ rank h)
      → ((h : Str) → m h ≡ some false → mem_str h batch ≡ true)
      → IsAcyclic rank batch txs
      → find_ready tx_hash m txs ≡ none
      → All (λ t. suc n ≤ rank (tx_hash t)) txs
  unfolding find_ready
  none_ready_step rank batch n m [] low within r e = tt
  none_ready_step rank batch n m (t ∷ txs) low within r e = (
    any_pending rank batch n m t t.tx_in low within r.0 (ground arith),
    none_ready_step rank batch n m txs low within r.1 (ground arith),
  )

  rank_of_mem :
      (rank : Str → ℕ) (n : ℕ) (txs : List MsgTx) (h : Str)
      → All (λ t. n ≤ rank (tx_hash t)) txs
      → mem_str h (ids txs) ≡ true
      → n ≤ rank h
  rank_of_mem rank n [] h a e = cc
  rank_of_mem rank n (t ∷ txs) h a e = elim (Bool-cases (str_eq (tx_hash t) h)) [
    | inl same ↦ rw (← (str_eq_iff (tx_hash t) h).0 same) a.0
    | inr other ↦ rank_of_mem rank n txs h a.1 (ground arith)
  ]

  module _ (rank : Str → ℕ) (batch seen : List Str) (m : InResult) (txs : List MsgTx) where
    none_ready :
        Tracks batch seen m txs
        → IsAcyclic rank batch txs
        → find_ready tx_hash m txs ≡ none
        → (n : ℕ) → All (λ t. n ≤ rank (tx_hash t)) txs
    none_ready k r e zero = All-map (λ t _. omega arith) txs (all_tt txs)
      where
        all_tt : (l : List MsgTx) → All (λ t. Unit {0}) l
        all_tt [] = tt
        all_tt (x ∷ l) = (tt, all_tt l)
    none_ready k r e (suc n) =
        none_ready_step rank batch n m txs
          (λ h p. rank_of_mem rank n txs h (none_ready k r e n) (k.pending h p)) k.within r e

  pub ready_exists :
      (rank : Str → ℕ) (batch seen : List Str) (m : InResult) (t : MsgTx) (rest : List MsgTx)
      → Tracks batch seen m (t ∷ rest)
      → IsAcyclic rank batch (t ∷ rest)
      → find_ready tx_hash m (t ∷ rest) ≢ none
  ready_exists rank batch seen m t rest k r e =
      let (above, _) = none_ready rank batch seen m (t ∷ rest) k r e (suc (rank (tx_hash t))) in
      omega arith
