-- ===== src/Util/Dfs/Result.antt =====
-- What `DfsSortAndDistinctMsgTxs` gives.
use touchstone.Base.{
  ℕ, zero, suc, ◌+◌, ◌<◌, ◌≡◌, refl, sym, ap, ◌∙◌, arith, Str, str_eq, str_eq_refl, str_eq_sound,
  Bool-cases, inl, inr, List, [], ◌∷◌, ◌++◌, reverse, any, All, Option, none, some, Option-cases,
  if◌then◌else◌, subst,
}
use mathlib.Core.List.{reverse-cons}
use touchstone.Wire.{MsgTx, TxIn}
use touchstone.Util.Dfs.{TxMap, map_txs, delete, pre_txs, collect_txs}

unfoldable pub repeat : ℕ → Str → List Str
repeat zero h = []
repeat (suc n) h = h ∷ repeat n h

-- The sum of a measure over a list.
abbrev pub total : (MsgTx → ℕ) → List MsgTx → ℕ
total cost [] = 0
total cost (t ∷ ts) = cost t + total cost ts

pub total-append :
    (cost : MsgTx → ℕ) (a b : List MsgTx) → total cost (a ++ b) ≡ total cost a + total cost b
total-append cost [] b = omega arith
total-append cost (t ∷ a) b = omega (arith, total-append cost a b)

-- A transaction costs more than those of the batch together that it spends from.
unfoldable pub Exceeds : (MsgTx → ℕ) → TxMap → MsgTx → Type 0
Exceeds cost m t = total cost (pre_txs m t.tx_in) < cost t

-- A batch without cycles: there is such a cost, as the number of paths that lead from each.
unfoldable pub IsCost : (MsgTx → ℕ) → TxMap → List MsgTx → Type 0
IsCost cost m txs = All (Exceeds cost m) txs

module _ (P : MsgTx → Type 0) where
  pub pre_txs-All :
      (m : TxMap) (vins : List TxIn)
      → ((h : Str) (t : MsgTx) → m h ≡ some t → P t)
      → All P (pre_txs m vins)
  unfolding pre_txs
  pre_txs-All m [] values = tt
  pre_txs-All m (vin ∷ vins) values = elim (Option-cases (m vin.prev_hash)) [
    | inl e ↦ rw (e, pre_txs) (pre_txs-All m vins values)
    | inr (t, e) ↦ rw (e, pre_txs) (values vin.prev_hash t e, pre_txs-All m vins values)
  ]

  pub map_txs-All :
      (tx_hash : MsgTx → Str) (ts : List MsgTx) (m : TxMap)
      → All P ts
      → ((h : Str) (t : MsgTx) → m h ≡ some t → P t)
      → (h : Str) (t : MsgTx) → map_txs tx_hash ts m h ≡ some t
      → P t
  unfolding map_txs
  map_txs-All tx_hash [] m all values = values
  map_txs-All tx_hash (t ∷ ts) m all values =
      map_txs-All tx_hash ts (λ k. if str_eq (tx_hash t) k then some t else m k) all.1
        (λ h u e. elim (Bool-cases (str_eq (tx_hash t) h)) [
          | inl same ↦ let is_t = rw same at e in let eq : t ≡ u = cc in subst P eq all.0
          | inr other ↦ values h u (rw other at e)
        ])

-- The transactions of a list, each id once: the first that has it.
unfoldable pub distinct : (MsgTx → Str) → List Str → List MsgTx → List MsgTx
distinct tx_hash seen [] = []
distinct tx_hash seen (r ∷ rs) =
    let again = distinct tx_hash seen rs in
    let more = distinct tx_hash (tx_hash r ∷ seen) rs in
    if any (λ k. str_eq k (tx_hash r)) seen then again else r ∷ more

-- The first transaction with an id, or another result.
unfoldable pub first_or : (MsgTx → Str) → List MsgTx → Str → Option MsgTx → Option MsgTx
first_or tx_hash [] h d = d
first_or tx_hash (r ∷ rs) h d =
    let later = first_or tx_hash rs h d in if str_eq (tx_hash r) h then some r else later

first_or-append :
    (tx_hash : MsgTx → Str) (a b : List MsgTx) (h : Str) (d : Option MsgTx)
    → first_or tx_hash (a ++ b) h d ≡ first_or tx_hash a h (first_or tx_hash b h d)
unfolding first_or
first_or-append tx_hash [] b h d = refl
first_or-append tx_hash (r ∷ a) b h d =
    ap (λ x. if str_eq (tx_hash r) h then some r else x) (first_or-append tx_hash a b h d)

pub map_txs-first_or :
    (tx_hash : MsgTx → Str) (ts : List MsgTx) (m : TxMap) (h : Str)
    → map_txs tx_hash ts m h ≡ first_or tx_hash (reverse ts) h (m h)
unfolding map_txs first_or
map_txs-first_or tx_hash [] m h = refl
map_txs-first_or tx_hash (t ∷ ts) m h =
    map_txs-first_or tx_hash ts (λ k. if str_eq (tx_hash t) k then some t else m k) h
    ∙ (sym (first_or-append tx_hash (reverse ts) (t ∷ []) h (m h))
        ∙ ap (λ l. first_or tx_hash l h (m h)) (sym (reverse-cons t ts)))

module _ (tx_hash : MsgTx → Str) where
  -- The map holds transactions under their ids.
  unfoldable pub IsKnown : TxMap → Type 0
  IsKnown m = (h : Str) (t : MsgTx) → m h ≡ some t → tx_hash t ≡ h

  IsKnown-delete : (k : Str) (m : TxMap) → IsKnown m → IsKnown (delete k m)
  unfolding IsKnown
  IsKnown-delete k m known h t e = elim (Bool-cases (str_eq k h)) [
    | inl same ↦ let wrong = rw same at e in absurd (cc)
    | inr other ↦ known h t (rw other at e)
  ]

  pub map_txs-IsKnown : (ts : List MsgTx) (m : TxMap) → IsKnown m → IsKnown (map_txs tx_hash ts m)
  unfolding map_txs IsKnown
  map_txs-IsKnown [] m known = known
  map_txs-IsKnown (t ∷ ts) m known =
      map_txs-IsKnown ts (λ k. if str_eq (tx_hash t) k then some t else m k)
        (λ h u e. elim (Bool-cases (str_eq (tx_hash t) h)) [
          | inl same ↦ let is_t = rw same at e in let eq = str_eq_sound (tx_hash t) h same in cc
          | inr other ↦ known h u (rw other at e)
        ])

  -- An id that follows itself adds nothing.
  pub collect_txs-twice :
      (p : List Str) (h : Str) (q : List Str) (m : TxMap)
      → IsKnown m
      → collect_txs tx_hash m (p ++ (h ∷ h ∷ q)) ≡ collect_txs tx_hash m (p ++ (h ∷ q))
  unfolding collect_txs IsKnown
  collect_txs-twice [] h q m known = elim (Option-cases (m h)) [
    | inl e ↦ rw (e, collect_txs) (rw (e, collect_txs) refl)
    | inr (t, e) ↦
        let gone : delete (tx_hash t) m h ≡ none = rw (known h t e) (rw (str_eq_refl h) refl) in
        rw (e, collect_txs) (ap (◌∷◌ t) (rw (gone, collect_txs) refl))
  ]
  collect_txs-twice (x ∷ p) h q m known = elim (Option-cases (m x)) [
    | inl e ↦ rw (e, collect_txs) (collect_txs-twice p h q m known)
    | inr (t, e) ↦
        rw (e, collect_txs)
          (ap (◌∷◌ t)
            (collect_txs-twice p h q (delete (tx_hash t) m) (IsKnown-delete (tx_hash t) m known)))
  ]
