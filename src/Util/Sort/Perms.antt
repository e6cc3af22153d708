-- ===== src/Util/Sort/Perms.antt =====
-- `SortMsgTx` neither loses nor invents a transaction.
use mathlib.Core.List.{Perm}
use mathlib.Core.List.Perm
use touchstone.Base.{
  ℕ, zero, suc, Str, ◌≡◌, List, [], ◌∷◌, some, get_elem?, set, Option-cases, true, inl, inr,
}
use touchstone.Wire.{MsgTx}
use touchstone.Util.Sort.{InResult, mark, swap_head, find_ready, sort_from, sort_msg_tx}

set-perm :
    (t u : MsgTx) (rest : List MsgTx) (j : ℕ)
    → get_elem? rest j ≡ some u
    → Perm (t ∷ rest) (u ∷ set rest j t)
set-perm t u [] j e = cc
set-perm t u (x ∷ rest) zero e = let same : x ≡ u = cc in rw same (Perm.swap u t rest)
set-perm t u (x ∷ rest) (suc j) e =
    Perm.trans (Perm.swap x t rest)
      (Perm.trans (Perm.cons x (set-perm t u rest j e)) (Perm.swap u x (set rest j t)))

pub swap_head-perm :
    (t : MsgTx) (rest : List MsgTx) (j : ℕ)
    → Perm (t ∷ rest) ((swap_head t rest j).0 ∷ (swap_head t rest j).1)
swap_head-perm t rest zero = Perm.refl _
swap_head-perm t rest (suc j) = elim (Option-cases (get_elem? rest j)) [
  | inl e ↦ rw (e, swap_head) (Perm.refl _)
  | inr (u, e) ↦ rw (e, swap_head) (set-perm t u rest j e)
]

module _ (tx_hash : MsgTx → Str) where
  sort_from-perm : (n : ℕ) (m : InResult) (txs : List MsgTx) → Perm txs (sort_from tx_hash n m txs)
  unfolding sort_from
  sort_from-perm zero m txs = Perm.refl txs
  sort_from-perm (suc n) m [] = Perm.refl []
  sort_from-perm (suc n) m (t ∷ rest) = elim (Option-cases (find_ready tx_hash m (t ∷ rest))) [
    | inl e ↦ rw (e, sort_from) (Perm.cons t (sort_from-perm n m rest))
    | inr (j, e) ↦
        rw (e, sort_from)
          (Perm.trans (swap_head-perm t rest j) (
            Perm.cons (swap_head t rest j).0 (
              sort_from-perm n (mark (tx_hash (swap_head t rest j).0) true m)
                (swap_head t rest j).1)))
  ]

  -- What `SortMsgTx` makes of a batch holds the same transactions as the given one, each as often.
  pub sort_msg_tx-perm : (txs : List MsgTx) → Perm txs (sort_msg_tx tx_hash txs)
  unfolding sort_msg_tx
  sort_msg_tx-perm txs = sort_from-perm _ _ txs
