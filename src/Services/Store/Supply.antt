-- ===== src/Services/Store/Supply.antt =====
-- How much of a badge there is, over the life of a ledger.
use touchstone.Base.{
  ℤ, pos, Str, str_eq, Bool, Bool-cases, List, [], ◌∷◌, ◌++◌, ◌≡◌, refl, sym, ap, ap₂, subst, All,
  All-append, All-map, select, inl, inr, ok, ◌+ℤ◌, ◌-ℤ◌, ◌≤ℤ◌,
}
use touchstone.Wire.{Wire, MsgTx}
use touchstone.Models.TxPoints.{TxPoint, tx_point_type_vin, tx_point_type_vout}
use touchstone.Services.Env.{Env}
use touchstone.Services.Validate.{TxInventory, max_create_badge_value}
use touchstone.Services.Validate.Group.{total}
use touchstone.Services.Validate.Places.{parse_msg_tx-Between}
use touchstone.Services.Process.{process_msg_tx}
use touchstone.Services.Process.Recorded.{
  KeepsPoints, IsUnknown, Between-AreOf, process_msg_tx-docs,
}
use touchstone.Services.Chain.{clear_msg_tx}
use touchstone.Services.Chain.Cleared.{clear_msg_tx-docs}
use touchstone.Services.Store.Nets.{of_tx, of_badge}
use touchstone.Services.Store.Held.{held}
use touchstone.Services.Store.Backed.{
  IsBacked, IsBacked-empty, IsBacked-total, IsBacked-other_tx, IsBacked-append,
}
use touchstone.Services.Store.Valued.{IsValued, AreValued, AreValued-Conserves}
use touchstone.Services.Store.Steps.{process_msg_tx-AreValued, clear_msg_tx-AreValued}

-- Records that differ in no transaction, kind, badge or value.
abbrev pub Alike : List TxPoint → List TxPoint → Type 0
Alike [] [] = Unit
Alike [] (q ∷ qs) = ⊥
Alike (p ∷ ps) [] = ⊥
Alike (p ∷ ps) (q ∷ qs) =
    (p.txid ≡ q.txid)
    × (p.kind ≡ q.kind)
    × (p.badge_code ≡ q.badge_code)
    × (p.value ≡ q.value)
    × Alike ps qs

Alike-select :
    (test : TxPoint → Bool)
    → ((p q : TxPoint) → p.txid ≡ q.txid → p.badge_code ≡ q.badge_code → test p ≡ test q)
    → (ps qs : List TxPoint) → Alike ps qs
    → Alike (select test ps) (select test qs)
Alike-select test same [] [] h = tt
Alike-select test same [] (q ∷ qs) h = elim h [ ]
Alike-select test same (p ∷ ps) [] h = elim h [ ]
Alike-select test same (p ∷ ps) (q ∷ qs) (t, k, b, v, more) =
    let rest = Alike-select test same ps qs more in
    elim (Bool-cases (test q)) [
      | inl there ↦ rw (same p q t b, there) (t, k, b, v, rest)
      | inr gone ↦ rw (same p q t b, gone) rest
    ]

Alike-total : (ps qs : List TxPoint) → Alike ps qs → total ps ≡ total qs
unfolding total
Alike-total [] [] h = refl
Alike-total [] (q ∷ qs) h = elim h [ ]
Alike-total (p ∷ ps) [] h = elim h [ ]
Alike-total (p ∷ ps) (q ∷ qs) (t, k, b, v, more) = ap₂ (λ m n. m +ℤ n) v (Alike-total ps qs more)

Alike-held :
    (txid code : Str) (ps qs : List TxPoint) → Alike ps qs → held txid code ps ≡ held txid code qs
Alike-held txid code ps qs h =
    Alike-total (select (of_tx txid) (select (of_badge code) ps))
      (select (of_tx txid) (select (of_badge code) qs))
      (Alike-select (of_tx txid) (λ p q t b. ap (λ x. str_eq x txid) t) (select (of_badge code) ps)
        (select (of_badge code) qs)
        (Alike-select (of_badge code) (λ p q t b. ap (λ x. str_eq x code) b) ps qs h))

IsBacked-Alike : (ps qs : List TxPoint) → Alike ps qs → IsBacked qs → IsBacked ps
IsBacked-Alike ps qs h backed = record {
  moved = λ txid code differ. rw (Alike-held txid code ps qs h) (backed.moved txid code differ);
  issued = λ code. rw (Alike-held code code ps qs h) (backed.issued code);
}

AreValued-Alike : (ps qs : List TxPoint) → Alike ps qs → All IsValued qs → All IsValued ps
AreValued-Alike [] [] h valued = tt
AreValued-Alike [] (q ∷ qs) h valued = elim h [ ]
AreValued-Alike (p ∷ ps) [] h valued = elim h [ ]
AreValued-Alike (p ∷ ps) (q ∷ qs) (t, k, b, v, more) valued =
    (rw (k, v) valued.0, AreValued-Alike ps qs more valued.1)

module _ {S : Type 0} (env : Env S) (points : S → List TxPoint) where
  -- Ledgers, from no records on: transactions of which there are no records are processed, and
  -- transactions are cleared, without an error. Records may be marked, and anything else may change.
  pub data Ledger : S → Type 0 where
    empty : {s : S} → points s ≡ [] → Ledger s
    taken_in :
        {s t : S} (tx : MsgTx) (timestamp : ℤ) (inv : TxInventory)
        → Ledger s
        → IsUnknown (Wire.tx_hash env.wire tx) (points s)
        → (process_msg_tx env tx timestamp s).0 ≡ ok inv
        → pos 0 -ℤ total inv.vins ≤ℤ max_create_badge_value
        → t ≡ (process_msg_tx env tx timestamp s).1
        → Ledger t
    cleared :
        {s t : S} (txid : Str)
        → Ledger s
        → (clear_msg_tx env txid s).0 ≡ ok tt
        → t ≡ (clear_msg_tx env txid s).1
        → Ledger t
    marked : {s t : S} → Ledger s → Alike (points t) (points s) → Ledger t

  module _ (kept : KeepsPoints env points) where
    abbrev Sound : S → Type 0
    Sound s = AreValued env points kept s × IsBacked (points s)

    Sound-taken_in :
        (s : S) (tx : MsgTx) (timestamp : ℤ) (inv : TxInventory)
        → Sound s
        → IsUnknown (Wire.tx_hash env.wire tx) (points s)
        → (process_msg_tx env tx timestamp s).0 ≡ ok inv
        → pos 0 -ℤ total inv.vins ≤ℤ max_create_badge_value
        → Sound (process_msg_tx env tx timestamp s).1
    Sound-taken_in s tx timestamp inv (valued, backed) new done high =
        let hash = Wire.tx_hash env.wire tx in
        let (all, parsed) = process_msg_tx-docs env points kept tx timestamp s inv new done in
        let ((hi, vins), (hi', vouts)) = parse_msg_tx-Between env tx timestamp s inv parsed in
        let of_it : All (λ p. p.txid ≡ hash) (inv.vins ++ inv.vouts) =
          All-append (λ p. p.txid ≡ hash) inv.vins inv.vouts
            (All-map (λ p h. h.0) inv.vins
              (Between-AreOf hash tx_point_type_vin 0 hi inv.vins vins))
            (All-map (λ p h. h.0) inv.vouts
              (Between-AreOf hash tx_point_type_vout 0 hi' inv.vouts vouts)) in
        let (spent, conserves) =
          AreValued-Conserves env points kept tx timestamp s inv valued parsed high in
        (
          process_msg_tx-AreValued env points kept tx timestamp s valued,
          subst IsBacked (sym all)
              (IsBacked-append env tx timestamp (points s) inv new of_it spent conserves backed),
        )

    Ledger-Sound : (s : S) → Ledger s → Sound s
    Ledger-Sound s (Ledger.empty none_there) =
        (subst (All IsValued) (sym none_there) tt, subst IsBacked (sym none_there) IsBacked-empty)
    Ledger-Sound t (Ledger.taken_in {s} tx timestamp inv l new done high e) =
        subst Sound (sym e) (Sound-taken_in s tx timestamp inv (Ledger-Sound s l) new done high)
    Ledger-Sound t (Ledger.cleared {s} txid l done e) =
        let (valued, backed) = Ledger-Sound s l in
        subst Sound (sym e) (
          clear_msg_tx-AreValued env points kept txid s valued,
          subst IsBacked (sym (clear_msg_tx-docs env points kept txid s done))
              (IsBacked-other_tx txid (points s) backed),
        )
    Ledger-Sound t (Ledger.marked {s} l same) =
        let (valued, backed) = Ledger-Sound s l in
        (
          AreValued-Alike (points t) (points s) same valued,
          IsBacked-Alike (points t) (points s) same backed,
        )

    -- Over a collection that keeps its records: in every ledger, the outputs of a badge less its
    -- inputs are no more than what the records of the transaction that issued it hold of it, and
    -- that is at most 2 ^ 63 - 1. A transaction that is taken in spends no more than an `int64`
    -- holds.
    pub Ledger-supply :
        (s : S) (code : Str)
        → Ledger s
        → (total (select (of_badge code) (points s)) ≤ℤ held code code (points s))
          × (held code code (points s) ≤ℤ max_create_badge_value)
    Ledger-supply s code l =
        let (_, backed) = Ledger-Sound s l in
        (IsBacked-total (points s) code backed, backed.issued code)
