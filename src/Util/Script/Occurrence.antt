-- ===== src/Util/Script/Occurrence.antt =====
-- The code part's suffix has no overlap with itself, so that in a badge script `strings.Index`
-- finds it in its own place and nowhere before.
use touchstone.Base.{
  ℕ, zero, suc, ◌+◌, ◌≤◌, ◌<◌, ◌≡◌, refl, Str, Bool, true, false, not, [], ◌∷◌, ◌++◌, some, length,
  drop, take, has_prefix, index_of, ◌&&◌, arith, ◌==◌, Bool-cases, inl, inr, Option-cases,
}
use touchstone.Util.Script.{badge_code_part_hex_suffix}

-- No proper end of `pattern` that is longer than what is dropped with `n` counted down to 1 is
-- also the beginning of it.
borderless : ℕ → Str → Bool
borderless zero p = true
borderless (suc n) p = not (has_prefix p (drop (suc n) p)) && borderless n p

suffix_borderless : borderless 66 badge_code_part_hex_suffix ≡ true
unfolding borderless has_prefix
suffix_borderless = refl

borderless_below :
    (n : ℕ) (p : Str) (i : ℕ)
    → borderless n p ≡ true
    → 0 < i
    → i ≤ n
    → has_prefix p (drop i p) ≡ false
unfolding borderless
borderless_below zero p i h pos le = absurd (omega arith)
borderless_below (suc n) p i h pos le = elim (Bool-cases (i == suc n)) [
  | inl same ↦ let e : i ≡ suc n = ground arith in rw e (ground arith)
  | inr other ↦ borderless_below n p i (ground arith) pos (ground arith)
]

-- A pattern that begins inside `front` and runs into a copy of itself overlaps with that copy.
overlap :
    (front p q rest : Str)
    → length front ≤ length q
    → has_prefix (front ++ (p ++ rest)) q ≡ true
    → length q ≤ length front + length p
    → has_prefix p (drop (length front) q) ≡ true
unfolding has_prefix
overlap [] [] [] rest l h le = refl
overlap [] [] (x ∷ q) rest l h le = absurd (omega arith)
overlap [] (c ∷ p) [] rest l h le = refl
overlap [] (c ∷ p) (x ∷ q) rest l h le = ground (arith, overlap [] p q rest)
overlap (c ∷ front) p [] rest l h le = absurd (omega arith)
overlap (c ∷ front) p (x ∷ q) rest l h le =
    overlap front p q rest (omega arith) (ground arith) (omega arith)

pub has_prefix_self : (p rest : Str) → has_prefix (p ++ rest) p ≡ true
unfolding has_prefix
has_prefix_self [] rest = refl
has_prefix_self (c ∷ p) rest = ground (arith, has_prefix_self p rest)

index_of-borderless :
    (n : ℕ) (p front rest : Str)
    → borderless n p ≡ true
    → n ≤ length p
    → length front ≤ n
    → index_of (front ++ (p ++ rest)) p ≡ some (length front)
unfolding index_of
index_of-borderless n [] [] [] h l le = refl
index_of-borderless n [] [] (x ∷ rest) h l le = refl
index_of-borderless n (x ∷ p) [] rest h l le = ground (arith, has_prefix_self (x ∷ p) rest)
index_of-borderless n p (c ∷ front) rest h l le =
    let later = index_of-borderless n p front rest h l (omega arith) in
    elim (Bool-cases (has_prefix (c ∷ (front ++ (p ++ rest))) p)) [
      | inl early ↦
          let over = overlap (c ∷ front) p p rest (omega arith) early (omega arith) in
          let none_such = borderless_below n p (suc (length front)) h (omega arith) le in cc
      | inr no_match ↦ ground arith
    ]

-- In any text that has the suffix behind at most 66 characters, it first occurs there.
pub index_of-suffix :
    (front rest : Str)
    → length front ≤ 66
    → index_of (front ++ (badge_code_part_hex_suffix ++ rest)) badge_code_part_hex_suffix
      ≡ some (length front)
index_of-suffix front rest le =
    index_of-borderless 66 badge_code_part_hex_suffix front rest suffix_borderless (omega arith) le

pub take_of_has_prefix : (s p : Str) → has_prefix s p ≡ true → take (length p) s ≡ p
unfolding has_prefix
take_of_has_prefix s [] h = refl
take_of_has_prefix [] (x ∷ p) h = cc
take_of_has_prefix (c ∷ s) (x ∷ p) h = ground (arith, take_of_has_prefix s p)

pub has_prefix_of_index_of :
    (s p : Str) (i : ℕ) → index_of s p ≡ some i → has_prefix (drop i s) p ≡ true
unfolding index_of
has_prefix_of_index_of [] p i h = elim (Bool-cases (has_prefix [] p)) [
  | inl found ↦ let e : i ≡ 0 = ground arith in rw e found
  | inr missing ↦ absurd (ground arith)
]
has_prefix_of_index_of (c ∷ s) p i h = elim (Bool-cases (has_prefix (c ∷ s) p)) [
  | inl found ↦ let e : i ≡ 0 = ground arith in rw e found
  | inr further ↦ elim (Option-cases (index_of s p)) [
    | inl missing ↦ absurd (ground arith)
    | inr (j, later) ↦ let e : i ≡ suc j = ground arith in rw e (has_prefix_of_index_of s p j later)
  ]
]
