-- ===== src/Services/Store/Backed.antt =====
-- The records hold no more of a badge than the transaction that issued it gave out.
use touchstone.Base.{
  ℤ, pos, Str, str_eq, str_eq_iff, str_eq_flip, true, false, Bool-cases, List, [], ◌++◌, ◌≡◌, sym,
  ap, ap₂, ◌∙◌, subst, arith, All, All-map, select, select-append, inl, inr, ◌⊎◌, ◌+ℤ◌, ◌≤ℤ◌,
  int_laws,
}
use touchstone.Wire.{Wire, MsgTx}
use touchstone.Models.TxPoints.{TxPoint}
use touchstone.Services.Env.{Env}
use touchstone.Services.Validate.{TxInventory, max_create_badge_value}
use touchstone.Services.Validate.Group.{total, AreSpent, total-AreSpent}
use touchstone.Services.Validate.Conserve.{Conserves}
use touchstone.Services.Process.Recorded.{IsUnknown}
use touchstone.Services.Store.Nets.{of_badge, other_tx, total-append, total-issued}
use touchstone.Services.Store.Held.{
  held, held-append, held-unknown, held-elsewhere, held-own, held-other_tx, badge_none, badge-All,
  select-AreSpent,
}

-- No transaction's records hold more than nothing of a badge that another transaction issued, and
-- those of the one that issued it hold no more than can be issued.
pub record IsBacked (ps : List TxPoint) : Type 0 where
  pub moved : (txid code : Str) → str_eq code txid ≡ false → held txid code ps ≤ℤ pos 0
  pub issued : (code : Str) → held code code ps ≤ℤ max_create_badge_value

pub IsBacked-empty : IsBacked []
unfolding total
IsBacked-empty = record { moved = λ txid code h. omega arith; issued = λ code. omega arith }

-- All together hold no more of a badge than the records of the transaction that issued it.
pub IsBacked-total :
    (ps : List TxPoint) (code : Str)
    → IsBacked ps
    → total (select (of_badge code) ps) ≤ℤ held code code ps
IsBacked-total ps code backed =
    total-issued code (select (of_badge code) ps) (λ txid differ. backed.moved txid code differ)

-- Without the records of a transaction.
pub IsBacked-other_tx :
    (txid : Str) (ps : List TxPoint) → IsBacked ps → IsBacked (select (other_tx txid) ps)
IsBacked-other_tx txid ps backed = record {
  moved = λ txid' code differ. elim (held-other_tx txid txid' code ps) [
    | inl (_, none_left) ↦ rw none_left (omega arith)
    | inr same ↦ rw same (backed.moved txid' code differ)
  ];
  issued = λ code. elim (held-other_tx txid code code ps) [
    | inl (_, none_left) ↦ rw none_left (omega arith)
    | inr same ↦ rw same (backed.issued code)
  ];
}

zero_add : (n : ℤ) → pos 0 +ℤ n ≡ n
zero_add n = omega int_laws

add_zero : (n : ℤ) → n +ℤ pos 0 ≡ n
add_zero n = omega int_laws

module _ {S : Type 0} (env : Env S) (tx : MsgTx) (timestamp : ℤ) where
  abbrev hash : Str
  hash = Wire.tx_hash env.wire tx

  -- What a transaction that conserves badges adds of one.
  abbrev Adds : Str → TxInventory → Type 0
  Adds code inv =
      (total (select (of_badge code) (inv.vins ++ inv.vouts)) ≤ℤ pos 0)
      ⊎ ((str_eq code hash ≡ true)
          × (total (select (of_badge code) (inv.vins ++ inv.vouts)) ≤ℤ max_create_badge_value))

  total-both :
      (code : Str) (ps qs : List TxPoint)
      → total (select (of_badge code) (ps ++ qs))
        ≡ total (select (of_badge code) ps) +ℤ total (select (of_badge code) qs)
  total-both code ps qs =
      ap total (select-append (of_badge code) ps qs)
      ∙ total-append (select (of_badge code) ps) (select (of_badge code) qs)

  Conserves-Adds :
      (code : Str) (inv : TxInventory)
      → AreSpent inv.vins
      → Conserves env tx timestamp inv
      → Adds code inv
  unfolding total
  Conserves-Adds code inv spent (Conserves.nothing no_outs) =
      let ins =
        total-AreSpent (select (of_badge code) inv.vins)
          (select-AreSpent (of_badge code) inv.vins spent) in
      inl (rw (total-both code inv.vins inv.vouts, no_outs) (omega int_laws))
  Conserves-Adds code inv spent (Conserves.issues no_ins outs sum) =
      elim (Bool-cases (str_eq code hash)) [
        | inl same ↦
            let e = (str_eq_iff code hash).0 same in
            let all =
              badge-All code inv.vouts (All-map (λ (p : TxPoint) h. h.0 ∙ sym e) inv.vouts outs) in
            inr (same, rw (total-both code inv.vins inv.vouts, no_ins, all) (omega int_laws))
        | inr differ ↦
            let gone =
              badge_none hash code inv.vouts (All-map (λ (p : TxPoint) h. h.0) inv.vouts outs)
                (str_eq_flip code hash differ) in
            inl (rw (total-both code inv.vins inv.vouts, no_ins, gone) (omega int_laws))
      ]
  Conserves-Adds code inv spent (Conserves.moves code' ins outs sum) =
      let of_it = All-map {Q = λ p. p.badge_code ≡ code'} (λ (p : TxPoint) h. h.0) inv.vouts outs in
      elim (Bool-cases (str_eq code' code)) [
        | inl same ↦
            let e = (str_eq_iff code' code).0 same in
            let all_ins =
              badge-All code inv.vins (subst (λ c. All (λ p. p.badge_code ≡ c) inv.vins) e ins) in
            let all_outs =
              badge-All code inv.vouts
                (subst (λ c. All (λ p. p.badge_code ≡ c) inv.vouts) e of_it) in
            inl (rw (total-both code inv.vins inv.vouts, all_ins, all_outs) (omega int_laws))
        | inr differ ↦
            let no_ins = badge_none code' code inv.vins ins differ in
            let no_outs = badge_none code' code inv.vouts of_it differ in
            inl (rw (total-both code inv.vins inv.vouts, no_ins, no_outs) (omega int_laws))
      ]

  module _ (ps : List TxPoint) (inv : TxInventory) (new : IsUnknown hash ps)
      (of_it : All (λ p. p.txid ≡ hash) (inv.vins ++ inv.vouts)) where
    -- Of the transaction's own records, and of any other's.
    held-new :
        (txid code : Str)
        → hash ≡ txid
        → held txid code (ps ++ (inv.vins ++ inv.vouts))
          ≡ total (select (of_badge code) (inv.vins ++ inv.vouts))
    held-new txid code e =
        let all = inv.vins ++ inv.vouts in
        let none_there = held-unknown txid code ps (subst (λ t. IsUnknown t ps) e new) in
        let own = held-own txid code all (subst (λ t. All (λ p. p.txid ≡ t) all) e of_it) in
        held-append txid code ps all
        ∙ (ap₂ (λ m n. m +ℤ n) none_there own ∙ zero_add (total (select (of_badge code) all)))

    held-old :
        (txid code : Str)
        → str_eq hash txid ≡ false
        → held txid code (ps ++ (inv.vins ++ inv.vouts)) ≡ held txid code ps
    held-old txid code differ =
        let all = inv.vins ++ inv.vouts in
        held-append txid code ps all
        ∙ (ap (λ n. held txid code ps +ℤ n) (held-elsewhere hash txid code all of_it differ)
            ∙ add_zero (held txid code ps))

    -- A transaction of which there were no records, and which conserves badges.
    pub IsBacked-append :
        AreSpent inv.vins
        → Conserves env tx timestamp inv
        → IsBacked ps
        → IsBacked (ps ++ (inv.vins ++ inv.vouts))
    IsBacked-append spent conserves backed = record {
      moved = λ txid code differ. elim (Bool-cases (str_eq hash txid)) [
        | inl same ↦
            let e = (str_eq_iff hash txid).0 same in
            rw (held-new txid code e) (elim (Conserves-Adds code inv spent conserves) [
              | inl low ↦ low
              | inr (own, _) ↦ let wrong = rw (← e) at differ in absurd (cc)
            ])
        | inr other ↦ rw (held-old txid code other) (backed.moved txid code differ)
      ];
      issued = λ code. elim (Bool-cases (str_eq hash code)) [
        | inl same ↦
            rw (held-new code code ((str_eq_iff hash code).0 same))
              (elim (Conserves-Adds code inv spent conserves) [
                | inl low ↦ omega int_laws
                | inr (_, high) ↦ high
              ])
        | inr other ↦ rw (held-old code code other) (backed.issued code)
      ];
    }
