-- ===== src/Util/Sort/Topological.antt =====
-- `SortMsgTx` puts every transaction behind those that it spends from, if none of the batch
-- depends on itself.
use touchstone.Base.{
  ℕ, zero, suc, ◌≤◌, Str, ◌≡◌, refl, true, false, List, [], ◌∷◌, none, some, get_elem?, set, any,
  All, Option-cases, Bool-cases, inl, inr, arith, length, if◌then◌else◌,
}
use touchstone.Wire.{MsgTx, TxIn}
use touchstone.Util.Sort.{
  InResult, mark, is_pending, swap_head, init_in_result, find_ready, sort_from, sort_msg_tx,
}
use touchstone.Util.Sort.Order.{mem_str, ids, IsOrdered, IsEarlier, IsAcyclic, Tracks, ready_exists}

module _ (tx_hash : MsgTx → Str) where
  length-set : (rest : List MsgTx) (j : ℕ) (t : MsgTx) → length (set rest j t) ≡ length rest
  length-set [] j t = refl
  length-set (x ∷ rest) zero t = refl
  length-set (x ∷ rest) (suc j) t = omega (arith, length-set rest j t)

  length-swap_head :
      (t : MsgTx) (rest : List MsgTx) (j : ℕ) → length (swap_head t rest j).1 ≡ length rest
  length-swap_head t rest zero = refl
  length-swap_head t rest (suc j) = ground (arith, length-set rest j t)

  module _ (t u : MsgTx) where
    All-swap :
        (P : MsgTx → Type 0) (rest : List MsgTx) (j : ℕ)
        → get_elem? rest j ≡ some u
        → P t
        → All P rest
        → P u × All P (set rest j t)
    All-swap P [] j e p a = cc
    All-swap P (x ∷ rest) zero e p a = let same : x ≡ u = cc in (rw (← same) a.0, (p, a.1))
    All-swap P (x ∷ rest) (suc j) e p a =
        let (pu, others) = All-swap P rest j e p a.1 in (pu, (a.0, others))

    mem-swap :
        (h : Str) (rest : List MsgTx) (j : ℕ)
        → get_elem? rest j ≡ some u
        → mem_str h (ids tx_hash (t ∷ rest)) ≡ true
        → mem_str h (ids tx_hash (u ∷ set rest j t)) ≡ true
    mem-swap h [] j e a = cc
    mem-swap h (x ∷ rest) zero e a = let same : x ≡ u = cc in rw (← same) (ground arith)
    mem-swap h (x ∷ rest) (suc j) e a = ground (arith, mem-swap h rest j e)

  -- The transaction that the inner loop stops at waits for nothing.
  find_ready-get_elem? :
      (m : InResult) (txs : List MsgTx) (j : ℕ)
      → find_ready tx_hash m txs ≡ some j
      → (u : MsgTx) × (get_elem? txs j ≡ some u) × (any (is_pending m) u.tx_in ≡ false)
  unfolding find_ready
  find_ready-get_elem? m [] j f = cc
  find_ready-get_elem? m (t ∷ rest) j f = elim (Bool-cases (any (is_pending m) t.tx_in)) [
    | inr ready ↦ let e : j ≡ 0 = ground arith in rw e (t, refl, ready)
    | inl waits ↦ elim (Option-cases (find_ready tx_hash m rest)) [
      | inl none_later ↦ absurd (ground arith)
      | inr (k, later) ↦
          let e : j ≡ suc k = ground arith in rw e (find_ready-get_elem? m rest k later)
    ]
  ]

  -- What a round of the outer loop needs to know of the exchange it makes.
  record Picks (m : InResult) (t : MsgTx) (rest : List MsgTx) (v : MsgTx × List MsgTx)
      : Type 1 where
    is_ready : any (is_pending m) v.0.tx_in ≡ false
    keeps_all : (P : MsgTx → Type 0) → All P (t ∷ rest) → P v.0 × All P v.1
    keeps_ids :
        (h : Str)
        → mem_str h (ids tx_hash (t ∷ rest)) ≡ true
        → mem_str h (ids tx_hash (v.0 ∷ v.1)) ≡ true

  swap_head-Picks :
      (m : InResult) (t : MsgTx) (rest : List MsgTx) (j : ℕ)
      → find_ready tx_hash m (t ∷ rest) ≡ some j
      → Picks m t rest (swap_head t rest j)
  swap_head-Picks m t rest zero f =
      let (u, e, ready) = find_ready-get_elem? m (t ∷ rest) 0 f in
      let same : t ≡ u = cc in
      record { is_ready = rw same ready; keeps_all = λ P a. a; keeps_ids = λ h e. e }
  swap_head-Picks m t rest (suc j) f =
      let (u, e, ready) = find_ready-get_elem? m (t ∷ rest) (suc j) f in
      rw (e, swap_head)
        (record {
          is_ready = ready;
          keeps_all = λ P a. All-swap t u P rest j e a.0 a.1;
          keeps_ids = λ h a. mem-swap t u h rest j e a;
        })

  not_pending :
      (batch seen : List Str) (m : InResult) (rest : List MsgTx) (is : List TxIn)
      → Tracks tx_hash batch seen m rest
      → any (is_pending m) is ≡ false
      → All (λ (i : TxIn). mem_str i.prev_hash batch ≡ true → mem_str i.prev_hash seen ≡ true) is
  not_pending batch seen m rest [] k h = tt
  not_pending batch seen m rest (i ∷ is) k h = (
    λ b. elim (Option-cases (m i.prev_hash)) [
      | inl e ↦ absurd (k.known i.prev_hash b e)
      | inr (true, e) ↦ k.placed i.prev_hash e
      | inr (false, e) ↦ absurd (ground arith)
    ],
    not_pending batch seen m rest is k (ground arith),
  )

  Tracks-mark :
      (batch seen : List Str) (m : InResult) (t : MsgTx) (rest : List MsgTx)
      (v : MsgTx × List MsgTx)
      → Picks m t rest v
      → Tracks tx_hash batch seen m (t ∷ rest)
      → Tracks tx_hash batch (tx_hash v.0 ∷ seen) (mark (tx_hash v.0) true m) v.1
  Tracks-mark batch seen m t rest (u, others) p k = record {
    known = λ h b e. k.known h b (ground arith);
    placed = λ h e. ground (arith, k.placed h);
    pending = λ h e. ground (arith, k.pending h, p.keeps_ids h);
    within = λ h e. k.within h (ground arith);
  }

  sort_from-IsOrdered :
      (rank : Str → ℕ) (batch seen : List Str) (n : ℕ) (m : InResult) (txs : List MsgTx)
      → length txs ≤ n
      → Tracks tx_hash batch seen m txs
      → IsAcyclic tx_hash rank batch txs
      → IsOrdered tx_hash batch seen (sort_from tx_hash n m txs)
  unfolding sort_from
  sort_from-IsOrdered rank batch seen zero m [] l k r = tt
  sort_from-IsOrdered rank batch seen zero m (t ∷ rest) l k r = absurd (omega arith)
  sort_from-IsOrdered rank batch seen (suc n) m [] l k r = tt
  sort_from-IsOrdered rank batch seen (suc n) m (t ∷ rest) l k r =
      elim (Option-cases (find_ready tx_hash m (t ∷ rest))) [
        | inl e ↦ absurd (ready_exists tx_hash rank batch seen m t rest k r e)
        | inr (j, e) ↦
            let p = swap_head-Picks m t rest j e in
            let (u, others) = swap_head t rest j in
            rw (e, sort_from)
              (
                not_pending batch seen m (t ∷ rest) u.tx_in k p.is_ready,
                sort_from-IsOrdered rank batch (tx_hash u ∷ seen) n (mark (tx_hash u) true m) others
                    (omega (arith, length-swap_head t rest j))
                    (Tracks-mark batch seen m t rest (u, others) p k)
                    (p.keeps_all (IsEarlier tx_hash rank batch) r).1,
              )
      ]

  init_in_result-eq :
      (txs : List MsgTx) (m : InResult) (h : Str)
      → init_in_result tx_hash txs m h ≡ (if mem_str h (ids tx_hash txs) then some false else m h)
  unfolding init_in_result
  init_in_result-eq [] m h = refl
  init_in_result-eq (t ∷ rest) m h =
      ground (arith, init_in_result-eq rest (mark (tx_hash t) false m) h)

  -- A batch in which no transaction depends on itself is put in an order in which each
  -- transaction stands behind all those of the batch that it spends from.
  pub sort_msg_tx-IsOrdered :
      (rank : Str → ℕ) (txs : List MsgTx)
      → IsAcyclic tx_hash rank (ids tx_hash txs) txs
      → IsOrdered tx_hash (ids tx_hash txs) [] (sort_msg_tx tx_hash txs)
  unfolding sort_msg_tx
  sort_msg_tx-IsOrdered rank txs r =
      sort_from-IsOrdered rank (ids tx_hash txs) [] (length txs) m txs (omega arith)
        (record {
          known = λ h b. ground (arith, init_in_result-eq txs (λ k. none) h);
          placed = λ h e. ground (arith, init_in_result-eq txs (λ k. none) h);
          pending = λ h e. ground (arith, init_in_result-eq txs (λ k. none) h);
          within = λ h e. ground (arith, init_in_result-eq txs (λ k. none) h);
        })
        r
    where
      m : InResult
      m = init_in_result tx_hash txs (λ h. none)
