-- ===== src/DiskCache/Cleanup.antt =====
-- `cleanup`: the oldest entries go until the cache is at three quarters of its cap.
use jellyfin_recents.Prelude.{ℕ, ◌-◌, ◌*◌, none, some, List, [], ◌∷◌, leb, if◌then◌else◌}
use jellyfin_recents.Prelude.Assoc.{Assoc, lookup, remove}
use jellyfin_recents.DiskCache.State.{Key, Entry, Index, Cache, System, key_eq, path_eq, frame_path}
use jellyfin_recents.DiskCache.Files.{remove_file, save_index, remove_empty_folders}
use jellyfin_recents.DiskCache.Save.{index_text}

abbrev pub cap_bytes : ℕ
cap_bytes = 512 * 1024 * 1024

-- (CAP_BYTES as f64 * TRIM_RATIO) as u64, which is exact.
abbrev pub trim_target : ℕ
trim_target = 402653184

-- `total_bytes.saturating_sub(size)`.
unfoldable pub drop_entry : Key → Entry → Index → Index
drop_entry k e idx = record {
  entries = remove k idx.entries;
  total_bytes = idx.total_bytes - e.size;
}

unfoldable pub insert_by_age : Key × Entry → Assoc Key Entry → Assoc Key Entry
insert_by_age x [] = x ∷ []
insert_by_age x (y ∷ ys) =
    let rest = y ∷ insert_by_age x ys in
    if leb (x.1).written_at (y.1).written_at then x ∷ y ∷ ys else rest

-- The keys by the time at which they were written, the oldest first.
unfoldable pub by_age : Assoc Key Entry → Assoc Key Entry
by_age [] = []
by_age (x ∷ xs) = insert_by_age x (by_age xs)

-- The file goes first, and the entry only if it could be removed.
unfoldable pub evict : System → Key → Cache → Cache
evict os k c = elim (lookup k c.index.entries) [
  | none ↦ c
  | some e ↦
      let (removed, disk) = remove_file os (frame_path k e.frame_idx) c.disk in
      record { index = if removed then drop_entry k e c.index else c.index; disk = disk }
]

unfoldable pub evict_all : System → List (Key × Entry) → Cache → Cache
evict_all os [] c = c
evict_all os ((k, e) ∷ ks) c =
    let next = evict_all os ks (evict os k c) in
    if leb c.index.total_bytes trim_target then c else next

-- `flush`, and the last step of `cleanup`.
unfoldable pub flush : System → Cache → Cache
flush os c = record c { disk = save_index os (index_text c.index) c.disk }

unfoldable pub cleanup : System → Cache → Cache
cleanup os c =
    if leb c.index.total_bytes trim_target
    then c
    else (let evicted = evict_all os (by_age c.index.entries) c in
        flush os (record evicted { disk = remove_empty_folders os evicted.disk }))
