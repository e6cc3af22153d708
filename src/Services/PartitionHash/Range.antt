-- ===== src/Services/PartitionHash/Range.antt =====
-- A height lies in its partition.
use touchstone.Base.{
  ℕ, ◌+◌, ◌-◌, ◌*◌, ◌/◌, ◌^◌, ◌≤◌, ◌<◌, ℤ, pos, ◌≤ℤ◌, ◌<ℤ◌, to_int64-eq, ◌+64◌, ◌-64◌, ◌≡◌, ap, ap₂,
  pos_add64, pos_sub64, ◌∙◌, arith,
}
use touchstone.Services.Env.{Env}
use touchstone.Services.PartitionHash.{partition_of, first_height, quotient, partition_block_count}

module _ {S : Type 0} (env : Env S) where
  partition_of-eq :
      (s h : ℕ)
      → env.start_height ≡ pos s
      → s ≤ h
      → h < 2 ^ 63
      → partition_of env (pos h) ≡ pos ((h - s) / 10)
  partition_of-eq s h e le lt =
      ap (λ (z : ℤ). quotient z partition_block_count) (ap (◌-64◌ (pos h)) e ∙ pos_sub64 h s le lt)

  first_height-eq :
      (s n : ℕ)
      → env.start_height ≡ pos s
      → s + n * 10 < 2 ^ 63
      → first_height env (pos n) ≡ pos (s + n * 10)
  first_height-eq s n e lt =
      ap₂ ◌+64◌ e (to_int64-eq (pos (n * 10)) (omega arith)) ∙ pos_add64 s (n * 10) lt

  -- If the start height is not negative, then a height from there on that is less than
  -- 2 ^ 63 - 10 is in the range of heights of the partition that it marks to be recomputed.
  pub partition_of-range :
      (s h : ℕ)
      → env.start_height ≡ pos s
      → s ≤ h
      → h + 10 < 2 ^ 63
      → (first_height env (partition_of env (pos h)) ≤ℤ pos h)
        × (pos h <ℤ (first_height env (partition_of env (pos h)) +64 pos partition_block_count))
  partition_of-range s h e le lt =
      let n = (h - s) / 10 in
      let at = partition_of-eq s h e le (omega arith) in
      let from = first_height-eq s n e (omega arith) in
      rw (at, from, pos_add64 (s + n * 10) 10 (omega arith)) (omega arith)
