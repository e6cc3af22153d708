-- ===== src/Models/Partitions.antt =====
-- models/partition_info.go: the hash of each partition of ten blocks.
use touchstone.Base.{ℤ, Str, Bool, true, List, Action, leb_ℤ, ◌==ℤ◌}
use touchstone.Models.Collection.{Collection}

pub record PartitionInfo : Type 0 where
  pub id : ℤ
  pub hash : Str

abbrev pub by_id : PartitionInfo → PartitionInfo → Bool
by_id p q = leb_ℤ p.id q.id

module _ {S : Type 0} (col : Collection S PartitionInfo) where
  open col use {insert, get_one, get_many, update_all, count}

  unfoldable pub get_partition_info : ℤ → Action S PartitionInfo
  get_partition_info id = get_one (λ p. p.id ==ℤ id)

  unfoldable pub get_partition_infos : ℤ → ℤ → Action S (List PartitionInfo)
  get_partition_infos offset limit = get_many (λ p. true) by_id offset limit

  unfoldable pub add_partition_info : ℤ → Str → Action S (Unit {0})
  add_partition_info id hash = insert (record { id = id; hash = hash })

  unfoldable pub update_partition_info : ℤ → Str → Action S (Unit {0})
  update_partition_info id hash = update_all (λ p. p.id ==ℤ id) (λ p. record p { hash = hash })

  unfoldable pub get_partitions_count : Action S ℤ
  get_partitions_count = count (λ p. true)
