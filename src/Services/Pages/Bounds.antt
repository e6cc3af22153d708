-- ===== src/Services/Pages/Bounds.antt =====
-- Which part of the sorted slice a page is, and when there is no page but a panic.
use touchstone.Base.{
  ℕ, zero, suc, ◌+◌, ◌-◌, ◌^◌, ◌≤◌, ◌<◌, ℤ, pos, negsuc, pos_add64, List, [], ◌∷◌, ok, panic, leb_ℤ,
  Outcome, if◌then◌else◌, ◌≡◌, ◌↔◌, ◌⊎◌, inl, true, ltb_ℤ, ◌+64◌, refl, ap, arith, length,
  length-drop, take, drop,
}
use touchstone.Services.Pages.{slice, page_of}

module _ {A : Type 0} where
  drop_all : (n : ℕ) (xs : List A) → length xs ≤ n → drop n xs ≡ []
  drop_all zero [] h = refl
  drop_all zero (x ∷ xs) h = absurd (omega arith)
  drop_all (suc n) [] h = refl
  drop_all (suc n) (x ∷ xs) h = drop_all n xs (omega arith)

  take_all : (n : ℕ) (xs : List A) → length xs ≤ n → take n xs ≡ xs
  take_all zero [] h = refl
  take_all zero (x ∷ xs) h = absurd (omega arith)
  take_all (suc n) [] h = refl
  take_all (suc n) (x ∷ xs) h = ap (◌∷◌ x) (take_all n xs (omega arith))

  take_nil : (n : ℕ) → take {A = A} n [] ≡ []
  take_nil zero = refl
  take_nil (suc n) = refl

  take_sub : (o l : ℕ) (xs : List A) → take (l + o - o) xs ≡ take l xs
  take_sub o l xs = ap (λ n. take n xs) (omega arith)

  -- For an offset and a limit that are not negative and whose sum is less than 2 ^ 63, a page is
  -- the part of the sorted slice from the offset on, up to the limit.
  pub page_of-take :
      (xs : List A) (o l : ℕ)
      → l + o < 2 ^ 63
      → page_of xs (pos o) (pos l) ≡ ok (take l (drop o xs))
  unfolding page_of slice
  page_of-take xs o l h = rw (pos_add64 l o h) (
      ground (
        arith,
        drop_all o xs,
        take_all l (drop o xs),
        take_all (length xs - o) (drop o xs),
        length-drop o xs,
        take_sub o l xs,
        take_nil l,
      ))

  page_of-panic : (xs : List A) (o : ℕ) (limit : ℤ) → page_of xs (negsuc o) limit ≡ panic
  unfolding page_of slice
  page_of-panic xs o limit = ground arith

  -- The page by the sum of the limit and the offset.
  unfoldable page_to : List A → ℕ → ℤ → Outcome (List A)
  page_to xs o sum =
      if leb_ℤ (pos (length xs)) (pos o)
      then ok []
      else if ltb_ℤ (pos (length xs)) sum
      then slice xs (pos o) (pos (length xs))
      else slice xs (pos o) sum

  page_to-panic :
      (xs : List A) (o : ℕ) (sum : ℤ)
      → page_to xs o sum ≡ panic ↔ (
          (ltb_ℤ (pos o) (pos 0) ≡ true)
          ⊎ ((ltb_ℤ (pos o) (pos (length xs)) ≡ true) × (ltb_ℤ sum (pos o) ≡ true)))
  unfolding page_to slice
  page_to-panic xs o (pos m) = ground arith
  page_to-panic xs o (negsuc m) = ground arith

  -- A page panics just if its offset is negative, or the offset is inside the sorted slice and the
  -- sum of the limit and the offset, as 64 bits hold it, is less than the offset.
  pub page_of-panic_iff :
      (xs : List A) (offset limit : ℤ)
      → page_of xs offset limit ≡ panic ↔ (
          (ltb_ℤ offset (pos 0) ≡ true)
          ⊎ ((ltb_ℤ offset (pos (length xs)) ≡ true) × (ltb_ℤ (limit +64 offset) offset ≡ true)))
  unfolding page_of page_to
  page_of-panic_iff xs (negsuc o) limit = (λ _. inl (ground arith), λ _. page_of-panic xs o limit)
  page_of-panic_iff xs (pos o) limit = page_to-panic xs o (limit +64 pos o)
