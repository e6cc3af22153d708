-- ===== src/Services/Sync/Ends.antt =====
-- The loops of `SyncState` and `SyncPatitions` over partitions end.
use touchstone.Base.{
  ℕ, zero, suc, ◌+◌, ◌^◌, ◌<◌, ◌≡◌, refl, pos, ok, arith, pos_add64, true, false, ltb_ℤ, leb_ℤ, ◌*◌,
  ◌≤◌, Action, pure, ◌>>◌,
}
use touchstone.Services.Env.{Env}
use touchstone.Services.PartitionHash.{
  insert_id, clear_cache_and_set_hash, add_need_recomputehash_partition,
}
use touchstone.Services.Sync.Rounds.{note_partitions, sync_peers, sync_offsets}

module _ {S : Type 0} (env : Env S) where
  -- The state with the partitions from `i` on in the cache, as many as there are rounds.
  abbrev pub noted : ℕ → ℕ → S → S
  noted zero i s = s
  noted (suc n) i s = noted n (i + 1) (env.set_cache (insert_id (pos i) (env.get_cache s)) s)

  -- If the number of partitions is less than 2 ^ 63, then the loop of `SyncState` ends within
  -- one round more than there are partitions to note, and has noted each of them in turn.
  pub note_partitions-noted :
      (n f i : ℕ) (s : S)
      → n < f
      → i + n < 2 ^ 63
      → note_partitions env f (pos i) (pos (i + n)) s ≡ (ok tt, noted n i s)
  unfolding note_partitions add_need_recomputehash_partition
  note_partitions-noted n zero i s more small = absurd (omega arith)
  note_partitions-noted zero (suc f) i s more small =
      let same : i + 0 ≡ i = omega arith in
      let past : ltb_ℤ (pos i) (pos (i + 0)) ≡ false = ground arith in rw past refl
  note_partitions-noted (suc n) (suc f) i s more small =
      let before : ltb_ℤ (pos i) (pos (i + suc n)) ≡ true = ground arith in
      let next : i + 1 + n ≡ i + suc n = omega arith in
      let rest =
        note_partitions-noted n f (i + 1) (env.set_cache (insert_id (pos i) (env.get_cache s)) s)
          (omega arith) (omega arith) in
      rw (before, pos_add64 i 1 (omega arith), ← next) rest

module _ {S : Type 0} (env : Env S) (fuel : ℕ) where
  -- The rounds of `SyncPatitions` for the offsets from `i` on, ten partitions apart, as many as
  -- are given.
  abbrev pub visited : ℕ → ℕ → Action S (Unit {0})
  visited zero i = pure tt
  visited (suc n) i =
      clear_cache_and_set_hash env >> (sync_peers env fuel (pos i) env.peers >> visited n (i + 10))

  -- If the last partition is ten or more below 2 ^ 63, then the loop of `SyncPatitions` over the
  -- offsets ends within one round more than there are offsets from the first to the last: it
  -- asks the peers in one round for each, in order, and in no other, and ends as these rounds do.
  pub sync_offsets-visited :
      (n f i end : ℕ) (s : S)
      → n < f
      → end < i + 10 * n
      → (0 < n → i + 10 * n ≤ end + 10)
      → end + 10 < 2 ^ 63
      → sync_offsets env fuel f (pos i) (pos end) s ≡ visited n i s
  unfolding sync_offsets
  sync_offsets-visited n zero i end s rounds past reached small = absurd (omega arith)
  sync_offsets-visited zero (suc f) i end s rounds past reached small =
      let over : leb_ℤ (pos i) (pos end) ≡ false = ground arith in rw over refl
  sync_offsets-visited (suc n) (suc f) i end s rounds past reached small =
      let before : leb_ℤ (pos i) (pos end) ≡ true = ground arith in
      let more : sync_offsets env fuel f (pos (i + 10)) (pos end) ≡ visited n (i + 10) = λ k s'.
        sync_offsets-visited n f (i + 10) end s' (omega arith) (omega arith)
          (λ some_left. omega arith) small k in
      rw (before, pos_add64 i 10 (omega arith), more) refl
