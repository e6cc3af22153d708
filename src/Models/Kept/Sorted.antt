-- ===== src/Models/Kept/Sorted.antt =====
-- The sorted documents of a query: a part of them is the sorted part.
use touchstone.Base.{
  suc, ◌≡◌, refl, sym, ap, ◌∙◌, arith, Bool, true, false, Bool-cases, inl, inr, List, [], ◌∷◌, All,
  All-map, select, length,
}
use touchstone.Models.Kept.{insert_sorted, sort_docs}

module _ {D : Type 0} (order : D → D → Bool) where
  abbrev IsSorted : List D → Type 0
  IsSorted [] = Unit
  IsSorted (x ∷ xs) = All (λ y. order x y ≡ true) xs × IsSorted xs

  pub insert_sorted-front :
      (d : D) (xs : List D) → All (λ y. order d y ≡ true) xs → insert_sorted order d xs ≡ d ∷ xs
  insert_sorted-front d [] h = refl
  insert_sorted-front d (x ∷ xs) h = rw h.0 refl

  insert_sorted-All :
      (P : D → Type 0) (d : D) (xs : List D) → P d → All P xs → All P (insert_sorted order d xs)
  insert_sorted-All P d [] hd h = (hd, tt)
  insert_sorted-All P d (x ∷ xs) hd h = elim (Bool-cases (order d x)) [
    | inl before ↦ rw before (hd, h)
    | inr after ↦ rw after (h.0, insert_sorted-All P d xs hd h.1)
  ]

  select-All : (P : D → Type 0) (test : D → Bool) (xs : List D) → All P xs → All P (select test xs)
  select-All P test [] h = tt
  select-All P test (x ∷ xs) h = elim (Bool-cases (test x)) [
    | inl there ↦ rw there (h.0, select-All P test xs h.1)
    | inr gone ↦ rw gone (select-All P test xs h.1)
  ]

  length-insert_sorted : (d : D) (xs : List D) → length (insert_sorted order d xs) ≡ suc (length xs)
  length-insert_sorted d [] = refl
  length-insert_sorted d (x ∷ xs) = ground (arith, length-insert_sorted d xs)

  pub length-sort_docs : (xs : List D) → length (sort_docs order xs) ≡ length xs
  unfolding sort_docs
  length-sort_docs [] = refl
  length-sort_docs (x ∷ xs) =
      length-insert_sorted x (sort_docs order xs) ∙ ap (λ n. suc n) (length-sort_docs xs)

  module _ (trans : (a b c : D) → order a b ≡ true → order b c ≡ true → order a c ≡ true)
      (total : (a b : D) → order a b ≡ false → order b a ≡ true) where
    insert_sorted-IsSorted :
        (d : D) (xs : List D) → IsSorted xs → IsSorted (insert_sorted order d xs)
    insert_sorted-IsSorted d [] h = (tt, tt)
    insert_sorted-IsSorted d (x ∷ xs) h = elim (Bool-cases (order d x)) [
      | inl before ↦ rw before ((before, All-map (λ y le. trans d x y before le) xs h.0), h)
      | inr after ↦ rw after (
        insert_sorted-All (λ y. order x y ≡ true) d xs (total d x after) h.0,
        insert_sorted-IsSorted d xs h.1,
      )
    ]

    sort_docs-IsSorted : (xs : List D) → IsSorted (sort_docs order xs)
    unfolding sort_docs
    sort_docs-IsSorted [] = tt
    sort_docs-IsSorted (x ∷ xs) =
        insert_sorted-IsSorted x (sort_docs order xs) (sort_docs-IsSorted xs)

    module _ (test : D → Bool) where
      select-insert_sorted_out :
          (d : D) (xs : List D)
          → test d ≡ false
          → select test (insert_sorted order d xs) ≡ select test xs
      select-insert_sorted_out d [] out = rw out refl
      select-insert_sorted_out d (x ∷ xs) out = elim (Bool-cases (order d x)) [
        | inl before ↦ rw before (rw out refl)
        | inr after ↦ rw after (elim (Bool-cases (test x)) [
          | inl there ↦ rw there (ap (◌∷◌ x) (select-insert_sorted_out d xs out))
          | inr gone ↦ rw gone (select-insert_sorted_out d xs out)
        ])
      ]

      select-insert_sorted_in :
          (d : D) (xs : List D)
          → test d ≡ true
          → IsSorted xs
          → select test (insert_sorted order d xs) ≡ insert_sorted order d (select test xs)
      select-insert_sorted_in d [] there h = rw there refl
      select-insert_sorted_in d (x ∷ xs) there h = elim (Bool-cases (order d x)) [
        | inl before ↦
            let all : All (λ y. order d y ≡ true) (x ∷ xs) =
              (before, All-map (λ y le. trans d x y before le) xs h.0) in
            rw before (
              rw there (
                sym (
                  insert_sorted-front d (select test (x ∷ xs))
                    (select-All (λ y. order d y ≡ true) test (x ∷ xs) all))))
        | inr after ↦ elim (Bool-cases (test x)) [
          | inl here ↦
              rw after (rw here (rw after (ap (◌∷◌ x) (select-insert_sorted_in d xs there h.1))))
          | inr gone ↦ rw after (rw gone (select-insert_sorted_in d xs there h.1))
        ]
      ]

      -- The order of the documents that pass a test is not touched by those that do not.
      pub select-sort_docs :
          (xs : List D) → select test (sort_docs order xs) ≡ sort_docs order (select test xs)
      unfolding sort_docs
      select-sort_docs [] = refl
      select-sort_docs (x ∷ xs) = elim (Bool-cases (test x)) [
        | inl there ↦ rw there (
            select-insert_sorted_in x (sort_docs order xs) there (sort_docs-IsSorted xs)
            ∙ ap (insert_sorted order x) (select-sort_docs xs))
        | inr gone ↦
            rw gone (select-insert_sorted_out x (sort_docs order xs) gone ∙ select-sort_docs xs)
      ]
