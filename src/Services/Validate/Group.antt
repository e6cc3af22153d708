-- ===== src/Services/Validate/Group.antt =====
-- What `badgeValues` holds after the loop over the inputs: the values spent, summed by badge.
use touchstone.Base.{
  ◌≤◌, ℤ, pos, Str, str_eq, str_eq_iff, List, [], ◌∷◌, ◌++◌, ◌≡◌, refl, ap, All, length, arith,
  ◌+ℤ◌, ◌-ℤ◌, ◌≤ℤ◌, int_laws, IsInt64, IsInt64-of_bounds, to_int64-eq, ◌+64◌, ◌-64◌, Bool-cases,
  inl, inr,
}
use touchstone.Models.TxPoints.{TxPoint}
use touchstone.Services.Validate.{BadgeValues, add_badge_value, max_create_badge_value}

-- The sum of the values of points.
unfoldable pub total : List TxPoint → ℤ
total [] = pos 0
total (p ∷ ps) = p.value +ℤ total ps

-- The table that results from spending inputs, whose records hold the negated values.
unfoldable pub group : List TxPoint → BadgeValues → BadgeValues
group [] m = m
group (v ∷ vs) m = group vs (add_badge_value v.badge_code (pos 0 -ℤ v.value) m)

pub group-append :
    (vs : List TxPoint) (v : TxPoint) (m : BadgeValues)
    → group (vs ++ (v ∷ [])) m ≡ add_badge_value v.badge_code (pos 0 -ℤ v.value) (group vs m)
unfolding group
group-append [] v m = refl
group-append (w ∷ vs) v m = group-append vs v (add_badge_value w.badge_code (pos 0 -ℤ w.value) m)

length-add_badge_value :
    (code : Str) (value : ℤ) (m : BadgeValues) → length m ≤ length (add_badge_value code value m)
unfolding add_badge_value
length-add_badge_value code value [] = omega arith
length-add_badge_value code value ((k, v) ∷ m) = ground (arith, length-add_badge_value code value m)

length-group : (vs : List TxPoint) (m : BadgeValues) → length m ≤ length (group vs m)
unfolding group
length-group [] m = omega arith
length-group (v ∷ vs) m = omega (
  arith,
  length-group vs (add_badge_value v.badge_code (pos 0 -ℤ v.value) m),
  length-add_badge_value v.badge_code (pos 0 -ℤ v.value) m,
)

pub +64-eq : (a b : ℤ) → IsInt64 (a +ℤ b) → a +64 b ≡ a +ℤ b
unfolding ◌+64◌
+64-eq a b h = to_int64-eq (a +ℤ b) h

pub -64-eq : (a b : ℤ) → IsInt64 (a -ℤ b) → a -64 b ≡ a -ℤ b
unfolding ◌-64◌
-64-eq a b h = to_int64-eq (a -ℤ b) h

-- The recorded values of inputs are not positive.
abbrev pub AreSpent : List TxPoint → Type 0
AreSpent = All (λ p. p.value ≤ℤ pos 0)

pub total-AreSpent : (vs : List TxPoint) → AreSpent vs → total vs ≤ℤ pos 0
unfolding total
total-AreSpent [] h = omega arith
total-AreSpent (v ∷ vs) h = let rest = total-AreSpent vs h.1 in omega int_laws

group_one :
    (vs : List TxPoint) (k code : Str) (a value : ℤ)
    → AreSpent vs
    → pos 0 ≤ℤ a
    → a -ℤ total vs ≤ℤ max_create_badge_value
    → group vs ((k, a) ∷ []) ≡ (code, value) ∷ []
    → (code ≡ k) × (value ≡ a -ℤ total vs) × All (λ p. p.badge_code ≡ code) vs
unfolding group total add_badge_value
group_one [] k code a value h low high e =
    (cc, let same : value ≡ a = cc in rw same (omega int_laws), tt)
group_one (v ∷ vs) k code a value h low high e = elim (Bool-cases (str_eq k v.badge_code)) [
  | inl same ↦
      let below = total-AreSpent vs h.1 in
      let next = a +ℤ (pos 0 -ℤ v.value) in
      let exact =
        +64-eq a (pos 0 -ℤ v.value) (IsInt64-of_bounds _ (omega int_laws) (omega int_laws)) in
      let e' : group vs ((k, next) ∷ []) ≡ (code, value) ∷ [] = rw (same, exact) at e in
      let (ec, ev, codes_eq) =
        group_one vs k code next value h.1 (omega int_laws) (omega int_laws) e' in
      (ec, rw ev (omega int_laws), (cc ((str_eq_iff k v.badge_code).0 same), codes_eq))
  | inr other ↦
      let e' = rw other at e in
      let long = length-group vs ((k, a) ∷ (v.badge_code, pos 0 +64 (pos 0 -ℤ v.value)) ∷ []) in
      absurd (omega (arith, ap length e'))
]

-- If the inputs spent are of one badge then all of them are of it, and the table holds the sum of
-- the values spent, as long as that fits an `int64`.
pub group_single :
    (vs : List TxPoint) (code : Str) (value : ℤ)
    → AreSpent vs
    → pos 0 -ℤ total vs ≤ℤ max_create_badge_value
    → group vs [] ≡ (code, value) ∷ []
    → (value ≡ pos 0 -ℤ total vs) × All (λ p. p.badge_code ≡ code) vs
unfolding group total add_badge_value
group_single [] code value h high e = cc
group_single (v ∷ vs) code value h high e =
    let below = total-AreSpent vs h.1 in
    let first = pos 0 +ℤ (pos 0 -ℤ v.value) in
    let exact =
      +64-eq (pos 0) (pos 0 -ℤ v.value) (IsInt64-of_bounds _ (omega int_laws) (omega int_laws)) in
    let e' : group vs ((v.badge_code, first) ∷ []) ≡ (code, value) ∷ [] = rw exact at e in
    let (ec, ev, codes_eq) =
      group_one vs v.badge_code code first value h.1 (omega int_laws) (omega int_laws) e' in
    (rw ev (omega int_laws), (cc, codes_eq))

-- Nothing is spent exactly if the table is empty.
pub group_none : (vs : List TxPoint) → group vs [] ≡ [] → vs ≡ []
unfolding group add_badge_value
group_none [] e = refl
group_none (v ∷ vs) e = absurd (
    omega (arith, ap length e, length-group vs ((v.badge_code, pos 0 +64 (pos 0 -ℤ v.value)) ∷ [])))
