-- ===== src/Services/Store/Nets.antt =====
-- Sums over records, by transaction and by badge.
use touchstone.Base.{
  ℕ, zero, suc, ◌≤◌, ℤ, pos, Str, str_eq, str_eq_refl, str_eq_sound, Bool, false, not, Bool-cases,
  List, [], ◌∷◌, ◌++◌, ◌≡◌, refl, ap, ◌∙◌, arith, select, length, inl, inr, ◌+ℤ◌, ◌≤ℤ◌, int_laws,
}
use touchstone.Models.TxPoints.{TxPoint}
use touchstone.Services.Validate.Group.{total}

abbrev pub of_tx : Str → TxPoint → Bool
of_tx txid p = str_eq p.txid txid

abbrev pub other_tx : Str → TxPoint → Bool
other_tx txid p = not (str_eq p.txid txid)

abbrev pub of_badge : Str → TxPoint → Bool
of_badge code p = str_eq p.badge_code code

+ℤ_assoc : (a b c : ℤ) → a +ℤ (b +ℤ c) ≡ (a +ℤ b) +ℤ c
+ℤ_assoc a b c = omega int_laws

+ℤ_swap : (a b c : ℤ) → a +ℤ (b +ℤ c) ≡ b +ℤ (a +ℤ c)
+ℤ_swap a b c = omega int_laws

pub total-append : (ps qs : List TxPoint) → total (ps ++ qs) ≡ total ps +ℤ total qs
unfolding total
total-append [] qs = omega int_laws
total-append (p ∷ ps) qs =
    ap (λ n. p.value +ℤ n) (total-append ps qs) ∙ +ℤ_assoc p.value (total ps) (total qs)

total-split :
    (test : TxPoint → Bool) (ps : List TxPoint)
    → total ps ≡ total (select test ps) +ℤ total (select (λ p. not (test p)) ps)
unfolding total
total-split test [] = omega int_laws
total-split test (p ∷ ps) =
    let a = total (select test ps) in
    let b = total (select (λ q. not (test q)) ps) in
    let rest = ap (λ n. p.value +ℤ n) (total-split test ps) in
    elim (Bool-cases (test p)) [
      | inl there ↦ rw there (rest ∙ +ℤ_assoc p.value a b)
      | inr gone ↦ rw gone (rest ∙ +ℤ_swap p.value a b)
    ]

length-select : (test : TxPoint → Bool) (ps : List TxPoint) → length (select test ps) ≤ length ps
length-select test [] = omega arith
length-select test (p ∷ ps) =
    let rest = length-select test ps in
    elim (Bool-cases (test p)) [
      | inl there ↦ rw there (omega arith)
      | inr gone ↦ rw gone (omega arith)
    ]

pub select_comm :
    (f g : TxPoint → Bool) (ps : List TxPoint) → select f (select g ps) ≡ select g (select f ps)
select_comm f g [] = refl
select_comm f g (p ∷ ps) = elim (Bool-cases (f p)) [
  | inl in_f ↦ elim (Bool-cases (g p)) [
    | inl in_g ↦ rw (in_g, in_f) (rw in_g (ap (◌∷◌ p) (select_comm f g ps)))
    | inr not_g ↦ rw (not_g, in_f) (rw not_g (select_comm f g ps))
  ]
  | inr not_f ↦ elim (Bool-cases (g p)) [
    | inl in_g ↦ rw (in_g, not_f) (select_comm f g ps)
    | inr not_g ↦ rw (not_g, not_f) (select_comm f g ps)
  ]
]

pub select-other_tx_self :
    (txid : Str) (ps : List TxPoint) → select (of_tx txid) (select (other_tx txid) ps) ≡ []
select-other_tx_self txid [] = refl
select-other_tx_self txid (p ∷ ps) = elim (Bool-cases (str_eq p.txid txid)) [
  | inl same ↦ rw same (select-other_tx_self txid ps)
  | inr other ↦ rw other (rw other (select-other_tx_self txid ps))
]

pub select-other_tx :
    (txid txid' : Str) (ps : List TxPoint)
    → str_eq txid txid' ≡ false
    → select (of_tx txid') (select (other_tx txid) ps) ≡ select (of_tx txid') ps
select-other_tx txid txid' [] differ = refl
select-other_tx txid txid' (p ∷ ps) differ = elim (Bool-cases (str_eq p.txid txid)) [
  | inl same ↦
      let not_it : str_eq p.txid txid' ≡ false = rw (str_eq_sound p.txid txid same) differ in
      rw (same, not_it) (select-other_tx txid txid' ps differ)
  | inr other ↦ elim (Bool-cases (str_eq p.txid txid')) [
    | inl it ↦ rw (other, it) (ap (◌∷◌ p) (select-other_tx txid txid' ps differ))
    | inr not_it ↦ rw (other, not_it) (select-other_tx txid txid' ps differ)
  ]
]

-- What the records of a transaction hold.
abbrev pub net : Str → List TxPoint → ℤ
net txid ps = total (select (of_tx txid) ps)

-- The nets of the other transactions, with one taken away.
net-other_tx :
    (txid txid' : Str) (ps : List TxPoint)
    → (str_eq txid txid' ≡ false → net txid' ps ≤ℤ pos 0)
    → net txid' (select (other_tx txid) ps) ≤ℤ pos 0
unfolding total
net-other_tx txid txid' ps low = elim (Bool-cases (str_eq txid txid')) [
  | inl same ↦ rw (← str_eq_sound txid txid' same) (rw (select-other_tx_self txid ps) (omega arith))
  | inr differ ↦ rw (select-other_tx txid txid' ps differ) (low differ)
]

-- If no transaction's records hold more than nothing, then all together do not.
total-nets :
    (n : ℕ) (ps : List TxPoint)
    → length ps ≤ n
    → ((txid : Str) → net txid ps ≤ℤ pos 0)
    → total ps ≤ℤ pos 0
unfolding total
total-nets n [] few low = omega arith
total-nets zero (p ∷ ps) few low = absurd (omega arith)
total-nets (suc n) (p ∷ ps) few low =
    let others = select (other_tx p.txid) (p ∷ ps) in
    let fewer : others ≡ select (other_tx p.txid) ps = rw (str_eq_refl p.txid) refl in
    let short : length others ≤ n = rw fewer (omega (arith, length-select (other_tx p.txid) ps)) in
    let rest =
      total-nets n others short (λ txid. net-other_tx p.txid txid (p ∷ ps) (λ _. low txid)) in
    let split = total-split (of_tx p.txid) (p ∷ ps) in
    let own = low p.txid in rw split (omega int_laws)

-- If no transaction but one holds more than nothing, then all together hold no more than it does.
pub total-issued :
    (txid : Str) (ps : List TxPoint)
    → ((txid' : Str) → str_eq txid txid' ≡ false → net txid' ps ≤ℤ pos 0)
    → total ps ≤ℤ net txid ps
total-issued txid ps low =
    let others = select (other_tx txid) ps in
    let rest =
      total-nets (length others) others (omega arith)
        (λ txid'. net-other_tx txid txid' ps (low txid')) in
    let split = total-split (of_tx txid) ps in rw split (omega int_laws)
