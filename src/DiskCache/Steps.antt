-- ===== src/DiskCache/Steps.antt =====
-- The locked steps of the disk cache in any order, as several threads take them: between two steps
-- of one operation, any step of another may come.
use jellyfin_recents.Prelude.{◌+◌, ◌^◌, ◌≤◌, ◌<◌, ◌≡◌, some, [], ◌∷◌, arith}
use jellyfin_recents.Prelude.Int.{ℤ}
use jellyfin_recents.Prelude.Assoc.{
  Assoc, lookup, insert, remove, insert-IsMap, sum_of, sum_of-remove,
}
use jellyfin_recents.DiskCache.Text.Strings.{Chars}
use jellyfin_recents.DiskCache.State.{Key, Entry, Index, Disk, System, key_eq}
use jellyfin_recents.DiskCache.Cleanup.{cleanup}
use jellyfin_recents.DiskCache.Access.{find_current, forget, claim, record_entry}
use jellyfin_recents.DiskCache.Accounting.{
  IsCovered, IsExact, entry_size, sizes, drop_entry-IsCovered, forget_preserves,
  find_current_preserves, claim_preserves, cleanup_preserves,
}

-- One locked step, on whatever disk and system it meets.
pub data Step : Index → Index → Type 0 where
  found :
      (os : System) (video : Chars) (k : Key) (d : Disk) (idx : Index)
      → Step idx (find_current os video k (record { index = idx; disk = d })).1.index
  forgot : (k : Key) (idx : Index) → Step idx (forget k idx)
  claimed :
      (os : System) (video : Chars) (k : Key) (frame_idx : ℤ) (d : Disk) (idx : Index)
      → Step idx (claim os video k frame_idx (record { index = idx; disk = d })).1.index
  recorded :
      (k : Key) (e : Entry) (idx : Index)
      → idx.total_bytes + e.size < 2 ^ 64
      → Step idx (record_entry k e idx)
  trimmed :
      (os : System) (d : Disk) (idx : Index)
      → Step idx (cleanup os (record { index = idx; disk = d })).index

pub data Run : Index → Index → Type 0 where
  stop : (idx : Index) → Run idx idx
  next : (a b c : Index) → Step a b → Run b c → Run a c

shrinks : (k : Key) (m : Assoc Key Entry) → sum_of entry_size (remove k m) ≤ sum_of entry_size m
unfolding sum_of remove
shrinks k [] = omega arith
shrinks k ((j, e) ∷ m) = ground (arith, shrinks k m)

pub record_entry-IsCovered :
    (k : Key) (e : Entry) (idx : Index)
    → idx.total_bytes + e.size < 2 ^ 64
    → IsCovered idx
    → IsCovered (record_entry k e idx)
unfolding record_entry insert sum_of
record_entry-IsCovered k e idx fits h = record {
  distinct = insert-IsMap k e idx.entries h.distinct;
  total = omega (arith, shrinks k idx.entries, h.total);
}

Step-IsCovered : (a b : Index) → Step a b → IsCovered a → IsCovered b
Step-IsCovered _ _ (found os video k d idx) h =
    find_current_preserves IsCovered drop_entry-IsCovered os video k _ h.distinct h
Step-IsCovered _ _ (forgot k idx) h = forget_preserves IsCovered drop_entry-IsCovered k idx h
Step-IsCovered _ _ (claimed os video k fi d idx) h =
    claim_preserves IsCovered drop_entry-IsCovered os video k fi _ h
Step-IsCovered _ _ (recorded k e idx fits) h = record_entry-IsCovered k e idx fits h
Step-IsCovered _ _ (trimmed os d idx) h = cleanup_preserves IsCovered drop_entry-IsCovered os _ h

-- However the locked steps of concurrent reads, writes and cleanups interleave, from an index
-- where no key has two entries and the byte count is at least the sum of the entries' sizes both
-- stay true. A step that records an entry must keep the count within a u64.
pub run-IsCovered : (a b : Index) → Run a b → IsCovered a → IsCovered b
run-IsCovered _ _ (stop a) h = h
run-IsCovered _ _ (next a b c s r) h = run-IsCovered b c r (Step-IsCovered a b s h)

-- Recording a frame whose key has an entry, as the later of two concurrent writes of one frame
-- does, leaves the old entry's size in the count: the count exceeds the sum by that size.
pub record_entry_over_entry :
    (k : Key) (old e : Entry) (idx : Index)
    → IsExact idx
    → lookup k idx.entries ≡ some old
    → idx.total_bytes + e.size < 2 ^ 64
    → (record_entry k e idx).total_bytes ≡ sizes (record_entry k e idx).entries + old.size
unfolding record_entry insert sum_of
record_entry_over_entry k old e idx h there fits =
    omega (arith, h.total, sum_of-remove entry_size k old idx.entries h.distinct there)
