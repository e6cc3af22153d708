-- ===== src/Models/Indexs.antt =====
-- The indices of the four collections: `TableName` and `CreateIndex` of the repositories.
use touchstone.Base.{Str, codes, Bool, true, false, List, [], ◌∷◌, Action}
use touchstone.Models.Mongo.{Driver, create_index}

-- The fields of `mgo.Index` that are set.
pub record Index : Type 0 where
  pub key : List Str
  pub unique : Bool

abbrev pub tbl_tx_point : Str
tbl_tx_point = codes "tx_point"

abbrev pub tbl_raw_tx_info : Str
tbl_raw_tx_info = codes "raw_tx_info"

abbrev pub tbl_partition_info : Str
tbl_partition_info = codes "partition_info"

abbrev pub tbl_addr_info : Str
tbl_addr_info = codes "addr_info"

abbrev pub tx_point_indexs : List Index
tx_point_indexs =
    record { key = codes "txid" ∷ codes "index" ∷ codes "type" ∷ []; unique = true }
    ∷ record { key = codes "addr" ∷ []; unique = false }
    ∷ record { key = codes "state" ∷ []; unique = false }
    ∷ record { key = codes "timestamp" ∷ []; unique = false }
    ∷ []

abbrev pub raw_tx_info_indexs : List Index
raw_tx_info_indexs =
    record { key = codes "txid" ∷ codes "index" ∷ []; unique = true }
    ∷ record { key = codes "height" ∷ []; unique = false }
    ∷ []

abbrev pub partition_info_indexs : List Index
partition_info_indexs = record { key = codes "id" ∷ []; unique = true } ∷ []

abbrev pub addr_info_indexs : List Index
addr_info_indexs =
    record { key = codes "addr" ∷ []; unique = true }
    ∷ record { key = codes "appid" ∷ codes "userid" ∷ codes "user_index" ∷ []; unique = false }
    ∷ []

-- Over `EnsureIndex` on the collection of a name.
module _ {S Sess : Type 0} (driver : Driver S Sess) (host : Str)
    (ensure_index : Str → Sess → Index → Action S (Unit {0})) where
  unfoldable pub create_tx_point_index : Action S (Unit {0})
  unfolding create_index
  create_tx_point_index = create_index driver host (ensure_index tbl_tx_point) tx_point_indexs

  unfoldable pub create_raw_tx_info_index : Action S (Unit {0})
  unfolding create_index
  create_raw_tx_info_index =
      create_index driver host (ensure_index tbl_raw_tx_info) raw_tx_info_indexs

  unfoldable pub create_partition_info_index : Action S (Unit {0})
  unfolding create_index
  create_partition_info_index =
      create_index driver host (ensure_index tbl_partition_info) partition_info_indexs

  unfoldable pub create_addr_info_index : Action S (Unit {0})
  unfolding create_index
  create_addr_info_index = create_index driver host (ensure_index tbl_addr_info) addr_info_indexs
