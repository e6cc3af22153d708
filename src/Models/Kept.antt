-- ===== src/Models/Kept.antt =====
-- Collections that keep their documents, as far as the database can be relied on: each call may
-- fail, and a document may be there although its insertion failed.
pub mod Sorted
use touchstone.Base.{
  ◌≡◌, Bool, true, not, List, [], ◌∷◌, ◌++◌, ◌⊎◌, any, select, ok, err, Error, Leaves,
  if◌then◌else◌,
}
use mathlib.Core.List.{Memᴰ}
use touchstone.Models.Collection.{Collection, is_duplicate}

abbrev pub insert_sorted : {D : Type 0} → (D → D → Bool) → D → List D → List D
insert_sorted order d [] = d ∷ []
insert_sorted order d (e ∷ es) =
    let later = insert_sorted order d es in if order d e then d ∷ e ∷ es else e ∷ later

unfoldable pub sort_docs : {D : Type 0} → (D → D → Bool) → List D → List D
sort_docs order [] = []
sort_docs order (d ∷ ds) = insert_sorted order d (sort_docs order ds)

-- A collection with a unique index, by which two documents may be the same.
pub record Keeps {S D : Type 0} (col : Collection S D) (docs : S → List D) (same : D → D → Bool)
    : Type 0 where
  pub insert_either :
      (d : D) (s : S)
      → (docs (col.insert d s).1 ≡ docs s ++ (d ∷ [])) ⊎ (docs (col.insert d s).1 ≡ docs s)
  pub insert_ok :
      (d : D) (s : S) → (col.insert d s).0 ≡ ok tt → docs (col.insert d s).1 ≡ docs s ++ (d ∷ [])
  pub insert_duplicate :
      (d : D) (s : S) (e : Error)
      → (col.insert d s).0 ≡ err e
      → is_duplicate e ≡ true
      → any (same d) (docs s) ≡ true
  pub get_one_found :
      (test : D → Bool) (d : D) (s : S)
      → (col.get_one test s).0 ≡ ok d
      → Memᴰ d (docs s) × (test d ≡ true)
  pub get_one_keeps : (test : D → Bool) → Leaves docs (col.get_one test)
  pub get_all_sorted :
      (test : D → Bool) (order : D → D → Bool) (s : S)
      → col.get_all test order s ≡ (ok (sort_docs order (select test (docs s))), s)
  pub delete_ok :
      (test : D → Bool) (s : S)
      → (col.delete_all test s).0 ≡ ok tt
      → docs (col.delete_all test s).1 ≡ select (λ d. not (test d)) (docs s)
  pub delete_some :
      (test : D → Bool) (d : D) (s : S) → Memᴰ d (docs (col.delete_all test s).1) → Memᴰ d (docs s)
  pub update_some :
      (test : D → Bool) (f : D → D) (d : D) (s : S)
      → Memᴰ d (docs (col.update_one test f s).1)
      → Memᴰ d (docs s) ⊎ ((e : D) × Memᴰ e (docs s) × (d ≡ f e))

-- A collection whose calls leave a part of the state alone, that of another collection say.
pub record Apart {S D X : Type 0} (col : Collection S D) (view : S → X) : Type 0 where
  pub get_one_leaves : (test : D → Bool) → Leaves view (col.get_one test)
  pub update_one_leaves : (test : D → Bool) (f : D → D) → Leaves view (col.update_one test f)
  pub delete_all_leaves : (test : D → Bool) → Leaves view (col.delete_all test)
