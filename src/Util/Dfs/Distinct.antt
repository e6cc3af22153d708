-- ===== src/Util/Dfs/Distinct.antt =====
-- `DfsSortAndDistinctMsgTxs` ends, with the batch in reverse and each transaction once.
use touchstone.Base.{
  ℕ, zero, suc, ◌≤◌, ◌≡◌, refl, sym, ap, ◌∙◌, arith, Str, str_eq, str_eq_refl, str_eq_sound, true,
  Bool-cases, inl, inr, List, [], ◌∷◌, ◌++◌, map, reverse, any, All, All-append, none, some, ok,
  bind, if◌then◌else◌, subst,
}
use mathlib.Core.List.{append_assoc, reverse-cons, map-append, append-nil}
use touchstone.Wire.{MsgTx}
use touchstone.Util.Dfs.{
  TxMap, map_txs, delete, pre_txs, visit, visit_all, collect_txs, dfs_sort_and_distinct_msg_txs,
}
use touchstone.Util.Dfs.Result.{
  repeat, total, total-append, Exceeds, IsCost, pre_txs-All, map_txs-All, distinct, first_or,
  map_txs-first_or, IsKnown, map_txs-IsKnown, collect_txs-twice,
}

-- What stands before the rest, reversed, element by element.
reverse-next :
    {A : Type 0} (x : A) (xs rest : List A) → reverse (x ∷ xs) ++ rest ≡ reverse xs ++ (x ∷ rest)
reverse-next x xs rest =
    ap (λ l. l ++ rest) (reverse-cons x xs) ∙ append_assoc (reverse xs) (x ∷ []) rest

module _ (tx_hash : MsgTx → Str) where
  -- The ids that the loop appends: those of each transaction of the batch, some number of times.
  IsBlocks : List Str → List MsgTx → Type 0
  IsBlocks ids [] = ids ≡ []
  IsBlocks ids (t ∷ ts) =
      (n : ℕ) × (rest : List Str) × (ids ≡ repeat (suc n) (tx_hash t) ++ rest) × IsBlocks rest ts

  module _ (cost : MsgTx → ℕ) (m : TxMap)
      (values : (h : Str) (t : MsgTx) → m h ≡ some t → Exceeds cost m t) where
    visit-repeat :
        (f : ℕ) (msg_tx : MsgTx) (queue : List MsgTx)
        → All (Exceeds cost m) queue
        → total cost queue ≤ f
        → (n : ℕ) × (visit tx_hash f m msg_tx queue ≡ ok (repeat n (tx_hash msg_tx)))
    unfolding visit repeat Exceeds
    visit-repeat zero msg_tx [] all h = (0, refl)
    visit-repeat (suc f) msg_tx [] all h = (0, refl)
    visit-repeat zero msg_tx (t ∷ ts) all h = absurd (omega (arith, all.0))
    visit-repeat (suc f) msg_tx (t ∷ ts) all h =
        let (n, e) =
          visit-repeat f msg_tx (ts ++ pre_txs m t.tx_in)
            (All-append (Exceeds cost m) ts (pre_txs m t.tx_in) all.1
              (pre_txs-All (Exceeds cost m) m t.tx_in values))
            (omega (arith, all.0, total-append cost ts (pre_txs m t.tx_in))) in
        (suc n, ap (λ r. bind r λ txids. ok (tx_hash msg_tx ∷ txids)) e)

    visit-first :
        (f : ℕ) (t : MsgTx)
        → Exceeds cost m t
        → cost t ≤ f
        → (n : ℕ) × (visit tx_hash f m t (t ∷ []) ≡ ok (repeat (suc n) (tx_hash t)))
    unfolding visit repeat Exceeds
    visit-first zero t less h = absurd (omega (arith, less))
    visit-first (suc f) t less h =
        let (n, e) =
          visit-repeat f t (pre_txs m t.tx_in) (pre_txs-All (Exceeds cost m) m t.tx_in values)
            (omega (arith, less)) in
        (n, ap (λ r. bind r λ txids. ok (tx_hash t ∷ txids)) e)

    visit_all-IsBlocks :
        (f : ℕ) (ts : List MsgTx)
        → IsCost cost m ts
        → total cost ts ≤ f
        → (ids : List Str) × (visit_all tx_hash f m ts ≡ ok ids) × IsBlocks ids ts
    unfolding visit_all IsBlocks IsCost
    visit_all-IsBlocks f [] all h = ([], refl, refl)
    visit_all-IsBlocks f (t ∷ ts) all h =
        let (n, e) = visit-first f t all.0 (omega arith) in
        let (rest, e', blocks) = visit_all-IsBlocks f ts all.1 (omega arith) in
        (repeat (suc n) (tx_hash t) ++ rest, cc, (n, rest, refl, blocks))

  -- Repeated ids count once.
  collect_txs-repeat :
      (n : ℕ) (h : Str) (rest q : List Str) (m : TxMap)
      → IsKnown tx_hash m
      → collect_txs tx_hash m (reverse (repeat n h ++ rest) ++ (h ∷ q))
        ≡ collect_txs tx_hash m (reverse rest ++ (h ∷ q))
  unfolding repeat
  collect_txs-repeat zero h rest q m known = refl
  collect_txs-repeat (suc n) h rest q m known =
      ap (collect_txs tx_hash m) (reverse-next h (repeat n h ++ rest) (h ∷ q))
      ∙ (collect_txs-repeat n h rest (h ∷ q) m known
          ∙ collect_txs-twice tx_hash (reverse rest) h q m known)

  collect_txs-blocks :
      (ids : List Str) (ts : List MsgTx) (q : List Str) (m : TxMap)
      → IsKnown tx_hash m
      → IsBlocks ids ts
      → collect_txs tx_hash m (reverse ids ++ q)
        ≡ collect_txs tx_hash m (map tx_hash (reverse ts) ++ q)
  unfolding IsBlocks repeat
  collect_txs-blocks ids [] q m known e = ap (λ l. collect_txs tx_hash m (reverse l ++ q)) e
  collect_txs-blocks ids (t ∷ ts) q m known (n, rest, e, blocks) =
      let h = tx_hash t in
      let moved : map tx_hash (reverse (t ∷ ts)) ++ q ≡ map tx_hash (reverse ts) ++ (h ∷ q) =
        ap (λ l. map tx_hash l ++ q) (reverse-cons t ts)
        ∙ (ap (λ l. l ++ q) (map-append tx_hash (reverse ts) (t ∷ []))
            ∙ append_assoc (map tx_hash (reverse ts)) (h ∷ []) q) in
      ap (λ l. collect_txs tx_hash m (reverse l ++ q)) e
      ∙ (ap (collect_txs tx_hash m) (reverse-next h (repeat n h ++ rest) q)
          ∙ (collect_txs-repeat n h rest q m known
              ∙ (collect_txs-blocks rest ts (h ∷ q) m known blocks
                  ∙ ap (collect_txs tx_hash m) (sym moved))))

  -- The map holds what is still to come, under the ids that were not seen.
  collect_txs-distinct :
      (rs : List MsgTx) (seen : List Str) (m : TxMap)
      → ((h : Str)
          → m h ≡ (if any (λ k. str_eq k h) seen then none else first_or tx_hash rs h none))
      → collect_txs tx_hash m (map tx_hash rs) ≡ distinct tx_hash seen rs
  unfolding collect_txs distinct first_or
  collect_txs-distinct [] seen m agrees = refl
  collect_txs-distinct (r ∷ rs) seen m agrees =
      elim (Bool-cases (any (λ k. str_eq k (tx_hash r)) seen)) [
        | inl there ↦
            let gone : m (tx_hash r) ≡ none = agrees (tx_hash r) ∙ (rw there refl) in
            let IH = collect_txs-distinct rs seen m (λ h. elim (Bool-cases (str_eq (tx_hash r) h)) [
              | inl same ↦
                  let eq = str_eq_sound (tx_hash r) h same in
                  let there' = subst (λ k. any (λ x. str_eq x k) seen ≡ true) eq there in
                  subst (λ k. m k ≡ none) eq gone ∙ (rw there' refl)
              | inr other ↦ let at_h = agrees h in rw other at at_h
            ]) in
            rw (gone, collect_txs) (rw there IH)
        | inr new ↦
            let known : m (tx_hash r) ≡ some r =
              agrees (tx_hash r) ∙ (rw new (rw (str_eq_refl (tx_hash r)) refl)) in
            let IH = collect_txs-distinct rs (tx_hash r ∷ seen) (delete (tx_hash r) m) (λ h.
              elim (Bool-cases (str_eq (tx_hash r) h)) [
                | inl same ↦ rw same refl
                | inr other ↦ let at_h = agrees h in rw other (rw other at at_h)
              ]) in
            rw (known, collect_txs) (rw new (ap (◌∷◌ r) IH))
      ]

-- If no transaction of the batch depends on itself, the function ends, within as many rounds for
-- each transaction as the batch costs, and gives the batch in reverse order with each id once. So
-- the order of the result is that of the batch, whatever spends from what.
pub dfs_sort_and_distinct_msg_txs-distinct :
    (tx_hash : MsgTx → Str) (cost : MsgTx → ℕ) (f : ℕ) (txs : List MsgTx)
    → IsCost cost (map_txs tx_hash txs (λ h. none)) txs
    → total cost txs ≤ f
    → dfs_sort_and_distinct_msg_txs tx_hash f txs ≡ ok (distinct tx_hash [] (reverse txs))
unfolding dfs_sort_and_distinct_msg_txs IsKnown IsCost
dfs_sort_and_distinct_msg_txs-distinct tx_hash cost f txs no_cycle enough =
    let m = map_txs tx_hash txs (λ h. none) in
    let known = map_txs-IsKnown tx_hash txs (λ h. none) (λ h t e. absurd (cc)) in
    let values =
      map_txs-All (Exceeds cost m) tx_hash txs (λ h. none) no_cycle (λ h t e. absurd (cc)) in
    let (ids, e, blocks) = visit_all-IsBlocks tx_hash cost m values f txs no_cycle enough in
    let collected : collect_txs tx_hash m (reverse ids) ≡ distinct tx_hash [] (reverse txs) =
      ap (collect_txs tx_hash m) (sym (append-nil (reverse ids)))
      ∙ (collect_txs-blocks tx_hash ids txs [] m known blocks
          ∙ (ap (collect_txs tx_hash m) (append-nil (map tx_hash (reverse txs)))
              ∙ collect_txs-distinct tx_hash (reverse txs) [] m
                  (λ h. map_txs-first_or tx_hash txs (λ k. none) h))) in
    ap (λ r. bind r λ txids. ok (collect_txs tx_hash m (reverse txids))) e ∙ ap ok collected
