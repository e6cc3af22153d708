-- ===== src/Services/Store/Held.antt =====
-- What the records of a transaction hold of a badge.
use touchstone.Base.{
  ℤ, pos, Str, str_eq, str_eq_iff, str_eq_refl, str_eq_flip, Bool, true, false, Bool-cases, List,
  [], ◌∷◌, ◌++◌, ◌≡◌, ap, ◌∙◌, All, All-map, select, select-append, select-none, select_self, inl,
  inr, ◌⊎◌, ◌+ℤ◌,
}
use touchstone.Models.TxPoints.{TxPoint}
use touchstone.Services.Validate.Group.{total, AreSpent}
use touchstone.Services.Process.Recorded.{IsUnknown}
use touchstone.Services.Store.Nets.{
  of_tx, other_tx, of_badge, net, total-append, select_comm, select-other_tx_self, select-other_tx,
}

abbrev pub held : Str → Str → List TxPoint → ℤ
held txid code ps = net txid (select (of_badge code) ps)

pub held-append :
    (txid code : Str) (ps qs : List TxPoint)
    → held txid code (ps ++ qs) ≡ held txid code ps +ℤ held txid code qs
held-append txid code ps qs =
    let a = select (of_badge code) ps in
    let b = select (of_badge code) qs in
    ap (net txid) (select-append (of_badge code) ps qs)
    ∙ (ap total (select-append (of_tx txid) a b)
        ∙ total-append (select (of_tx txid) a) (select (of_tx txid) b))

held-none :
    (txid code : Str) (ps : List TxPoint)
    → All (λ p. of_tx txid p ≡ false) ps
    → held txid code ps ≡ pos 0
unfolding total
held-none txid code ps none_of = ap total (
    select_comm (of_tx txid) (of_badge code) ps
    ∙ ap (select (of_badge code)) (select-none (of_tx txid) ps none_of))

pub held-unknown :
    (txid code : Str) (ps : List TxPoint) → IsUnknown txid ps → held txid code ps ≡ pos 0
held-unknown txid code ps new =
    held-none txid code ps (All-map (λ (p : TxPoint) h. str_eq_flip txid p.txid h) ps new)

pub held-elsewhere :
    (txid txid' code : Str) (ps : List TxPoint)
    → All (λ p. p.txid ≡ txid) ps
    → str_eq txid txid' ≡ false
    → held txid' code ps ≡ pos 0
held-elsewhere txid txid' code ps of_it differ =
    held-none txid' code ps (All-map (λ (p : TxPoint) h. rw h differ) ps of_it)

pub held-own :
    (txid code : Str) (ps : List TxPoint)
    → All (λ p. p.txid ≡ txid) ps
    → held txid code ps ≡ total (select (of_badge code) ps)
held-own txid code ps of_it = ap total (
    select_comm (of_tx txid) (of_badge code) ps
    ∙ ap (select (of_badge code)) (
        select_self (of_tx txid) ps
          (All-map (λ (p : TxPoint) h. rw h (str_eq_refl txid)) ps of_it)))

-- Without the records of a transaction.
pub held-other_tx :
    (txid txid' code : Str) (ps : List TxPoint)
    → (str_eq txid txid' ≡ true) × (held txid' code (select (other_tx txid) ps) ≡ pos 0)
      ⊎ (held txid' code (select (other_tx txid) ps) ≡ held txid' code ps)
unfolding total
held-other_tx txid txid' code ps =
    let swapped = select_comm (of_badge code) (other_tx txid) ps in
    elim (Bool-cases (str_eq txid txid')) [
      | inl same ↦
          let e = (str_eq_iff txid txid').0 same in
          let gone : select (of_tx txid') (select (other_tx txid) (select (of_badge code) ps))
              ≡ [] =
            rw (← e) (select-other_tx_self txid (select (of_badge code) ps)) in
          inl (same, ap (net txid') swapped ∙ ap total gone)
      | inr differ ↦ inr (
          ap (net txid') swapped
          ∙ ap total (select-other_tx txid txid' (select (of_badge code) ps) differ))
    ]

pub badge_none :
    (code code' : Str) (ps : List TxPoint)
    → All (λ p. p.badge_code ≡ code) ps
    → str_eq code code' ≡ false
    → select (of_badge code') ps ≡ []
badge_none code code' ps of_it differ =
    select-none (of_badge code') ps (All-map (λ (p : TxPoint) h. rw h differ) ps of_it)

pub badge-All :
    (code : Str) (ps : List TxPoint)
    → All (λ p. p.badge_code ≡ code) ps
    → select (of_badge code) ps ≡ ps
badge-All code ps of_it =
    select_self (of_badge code) ps (All-map (λ (p : TxPoint) h. rw h (str_eq_refl code)) ps of_it)

pub select-AreSpent :
    (test : TxPoint → Bool) (ps : List TxPoint) → AreSpent ps → AreSpent (select test ps)
select-AreSpent test [] h = tt
select-AreSpent test (p ∷ ps) h = elim (Bool-cases (test p)) [
  | inl there ↦ rw there (h.0, select-AreSpent test ps h.1)
  | inr gone ↦ rw gone (select-AreSpent test ps h.1)
]
