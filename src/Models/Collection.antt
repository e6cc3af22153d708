-- ===== src/Models/Collection.antt =====
-- A MongoDB collection as models/mongo_db.go hands it to the repositories. The database is a
-- service outside the repository: its operations are the fields of a record, over a state of
-- any type. A condition is a test on a document, an update a function on it, and a sort key an
-- order on documents. A document that is not there is an error whose text holds "not found", a
-- document that violates a unique index one whose text holds "E11000".
use touchstone.Base.{ℤ, Str, codes, contains, Bool, List, Action, Error}

pub record Collection (S D : Type 0) : Type 0 where
  -- `Insert`
  pub insert : D → Action S (Unit {0})
  -- `GetOne`
  pub get_one : (D → Bool) → Action S D
  -- `GetAll`, sorted
  pub get_all : (D → Bool) → (D → D → Bool) → Action S (List D)
  -- `GetMany`, sorted, with an offset and a limit
  pub get_many : (D → Bool) → (D → D → Bool) → ℤ → ℤ → Action S (List D)
  -- `Count`
  pub count : (D → Bool) → Action S ℤ
  -- `UpdateOne`
  pub update_one : (D → Bool) → (D → D) → Action S (Unit {0})
  -- `UpdateAll`
  pub update_all : (D → Bool) → (D → D) → Action S (Unit {0})
  -- `DeleteAll`
  pub delete_all : (D → Bool) → Action S (Unit {0})
  -- `Foreach`
  pub foreach : (D → Bool) → (D → Action S (Unit {0})) → Action S (Unit {0})

abbrev pub mongo_error_duplicate : Str
mongo_error_duplicate = codes "E11000"

abbrev pub mongo_not_found : Str
mongo_not_found = codes "not found"

-- `strings.Contains(err.Error(), MONGO_NOT_FOUND)`
abbrev pub is_not_found : Error → Bool
is_not_found e = contains e.text mongo_not_found

-- `strings.Contains(err.Error(), MONGO_ERROR_DUPLICATE)`
abbrev pub is_duplicate : Error → Bool
is_duplicate e = contains e.text mongo_error_duplicate
