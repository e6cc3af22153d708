-- ===== src/Util/Common/Keys.antt =====
-- The keys that `GenerateStrFromStrInt` makes of a transaction id and an index tell all pairs
-- apart, although the id may hold any characters.
use touchstone.Base.{
  ℕ, zero, suc, ◌+◌, ◌-◌, ◌*◌, ◌/◌, ◌%◌, ◌≤◌, ◌<◌, ◌≡◌, ◌≢◌, refl, sym, ap, ℤ, pos, negsuc, Str, [],
  ◌∷◌, ◌++◌, All, All-append, All-map, arith, ltb, Bool-cases, inl, inr,
}
use touchstone.Util.Common.{digits, decimal, generate_str_from_str_int}

abbrev IsDigits : Str → Type 0
IsDigits = All (λ c. (48 ≤ c) × (c ≤ 57))

abbrev NoUnderscore : Str → Type 0
NoUnderscore = All (λ c. c ≢ b'_')

digits-IsDigits : (f n : ℕ) → IsDigits (digits f n)
unfolding digits
digits-IsDigits zero n = tt
digits-IsDigits (suc f) n = elim (Bool-cases (ltb n 10)) [
  | inl small ↦ rw small (ground arith)
  | inr large ↦ rw large (
      All-append (λ c. (48 ≤ c) × (c ≤ 57)) (digits f (n / 10)) ((48 + n % 10) ∷ [])
        (digits-IsDigits f (n / 10)) (omega arith))
]

digits-NoUnderscore : (f n : ℕ) → NoUnderscore (digits f n)
digits-NoUnderscore f n = All-map (λ c h. omega arith) (digits f n) (digits-IsDigits f n)

decimal-NoUnderscore : (z : ℤ) → NoUnderscore (decimal z)
unfolding decimal
decimal-NoUnderscore (pos n) = digits-NoUnderscore (suc n) n
decimal-NoUnderscore (negsuc n) = (omega arith, digits-NoUnderscore (suc (suc n)) (suc n))

-- The number that a run of digits stands for.
read : ℕ → Str → ℕ
read acc [] = acc
read acc (c ∷ cs) = read (acc * 10 + (c - 48)) cs

read-append : (acc : ℕ) (s : Str) (c : ℕ) → read acc (s ++ (c ∷ [])) ≡ read acc s * 10 + (c - 48)
unfolding read
read-append acc [] c = refl
read-append acc (x ∷ s) c = read-append (acc * 10 + (x - 48)) s c

read-digits : (f n : ℕ) → n < f → read 0 (digits f n) ≡ n
unfolding digits
read-digits zero n h = absurd (omega arith)
read-digits (suc f) n h = elim (Bool-cases (ltb n 10)) [
  | inl small ↦ rw small (unfold read in ground arith)
  | inr large ↦
      rw (large, read-append 0 (digits f (n / 10)) (48 + n % 10))
        (rw (read-digits f (n / 10) (ground arith)) (ground arith))
]

digits-injective : (m n : ℕ) → digits (suc m) m ≡ digits (suc n) n → m ≡ n
digits-injective m n e = ground (arith, read-digits (suc m) m, read-digits (suc n) n, ap (read 0) e)

-- The first character of a run of digits is a digit.
digits-ne-minus : (f n : ℕ) (s : Str) → digits f n ≢ b'-' ∷ s
digits-ne-minus f n s e = let h : IsDigits (b'-' ∷ s) = rw e at (digits-IsDigits f n) in omega arith

decimal-injective : (y z : ℤ) → decimal y ≡ decimal z → y ≡ z
unfolding decimal
decimal-injective (pos m) (pos n) e = ap pos (digits-injective m n e)
decimal-injective (pos m) (negsuc n) e = absurd (digits-ne-minus (suc m) m _ e)
decimal-injective (negsuc m) (pos n) e = absurd (digits-ne-minus (suc n) n _ (sym e))
decimal-injective (negsuc m) (negsuc n) e =
    let same : suc m ≡ suc n = digits-injective (suc m) (suc n) (ground arith) in
    ap negsuc (omega arith)

underscore_within : (b t : Str) → ¬ NoUnderscore (b ++ (b'_' ∷ t))
underscore_within [] t h = h.0 refl
underscore_within (y ∷ b) t h = underscore_within b t h.1

-- What stands behind the last underscore is determined.
split_at_underscore :
    (a b s t : Str)
    → NoUnderscore s
    → NoUnderscore t
    → a ++ (b'_' ∷ s) ≡ b ++ (b'_' ∷ t)
    → (a ≡ b) × (s ≡ t)
split_at_underscore [] [] s t hs ht e = (refl, cc)
split_at_underscore [] (y ∷ b) s t hs ht e =
    let tail : s ≡ b ++ (b'_' ∷ t) = cc in absurd (underscore_within b t (rw (← tail) hs))
split_at_underscore (x ∷ a) [] s t hs ht e =
    let tail : t ≡ a ++ (b'_' ∷ s) = cc in absurd (underscore_within a s (rw (← tail) ht))
split_at_underscore (x ∷ a) (y ∷ b) s t hs ht e =
    let (same, tail) = split_at_underscore a b s t hs ht (cc) in (cc, tail)

-- Two keys of `GenerateStrFromStrInt` are equal only if both the ids and the indices are.
pub generate_str_from_str_int-injective :
    (a b : Str) (i j : ℤ)
    → generate_str_from_str_int a i ≡ generate_str_from_str_int b j
    → (a ≡ b) × (i ≡ j)
unfolding generate_str_from_str_int
generate_str_from_str_int-injective a b i j e =
    let (same, index) =
      split_at_underscore a b (decimal i) (decimal j) (decimal-NoUnderscore i)
        (decimal-NoUnderscore j) e in
    (same, decimal-injective i j index)
