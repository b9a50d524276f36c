-- ===== src/DiskCache/Exact.antt =====
-- One operation at a time keeps the byte count exact.
use jellyfin_recents.Prelude.{
  ℕ, ◌+◌, ◌^◌, ◌≤◌, ◌<◌, ◌≡◌, refl, Bool, true, false, ◌&&◌, Option, none, some, List, arith, ◌==◌,
  nat_eq, Bool-cases, Option-cases, inl, inr, length,
}
use jellyfin_recents.Prelude.Int.{ℤ}
use jellyfin_recents.Prelude.Assoc.{
  lookup, insert, insert-IsMap, remove-lookup-none, remove-absent, sum_of,
}
use jellyfin_recents.DiskCache.Text.Strings.{Chars}
use jellyfin_recents.DiskCache.State.{
  Key, Entry, Index, Disk, Cache, System, key_eq, path_eq, frame_path, video_mtime,
}
use jellyfin_recents.DiskCache.Files.{file_exists, read_file}
use jellyfin_recents.DiskCache.Cleanup.{drop_entry, flush, cleanup}
use jellyfin_recents.DiskCache.Access.{
  find_current, read_entry, read, claim, record_entry, new_entry, finish_write, after_write_file,
  write_frame, write,
}
use jellyfin_recents.DiskCache.Accounting.{
  IsExact, drop_entry-IsExact, forget_preserves, find_current_preserves, claim_preserves,
  cleanup_preserves,
}

read_entry-IsExact :
    (os : System) (k : Key) (r : Option Entry × Cache)
    → IsExact r.1.index
    → IsExact (read_entry os k r).1.index
read_entry-IsExact os k (none, c) h = h
read_entry-IsExact os k (some e, c) h =
    elim (Option-cases (read_file os (frame_path k e.frame_idx) c.disk)) [
      | inl unread ↦
          rw (unread, read_entry) (forget_preserves IsExact drop_entry-IsExact k c.index h)
      | inr (bytes, done) ↦ rw (done, read_entry) h
    ]

-- A read keeps the count exact, whatever it finds: an entry that is up to date, one that is stale,
-- none, or an entry whose file cannot be read.
pub read-IsExact :
    (os : System) (video : Chars) (k : Key) (c : Cache)
    → IsExact c.index
    → IsExact (read os video k c).1.index
unfolding read
read-IsExact os video k c h =
    read_entry-IsExact os k (find_current os video k c)
      (find_current_preserves IsExact drop_entry-IsExact os video k c h.distinct h)

-- The cleanup keeps it exact, whichever files can be removed.
pub cleanup-IsExact : (os : System) (c : Cache) → IsExact c.index → IsExact (cleanup os c).index
cleanup-IsExact os c h = cleanup_preserves IsExact drop_entry-IsExact os c h

-- A key that was claimed has no entry, and the count has not grown.
record IsClaimed (k : Key) (before after : Index) : Type 0 where
  absent : lookup k after.entries ≡ none
  total : after.total_bytes ≤ before.total_bytes

claim_lem :
    (os : System) (video : Chars) (k : Key) (frame_idx : ℤ) (c : Cache)
    → (claim os video k frame_idx c).0 ≡ false
    → IsClaimed k c.index (claim os video k frame_idx c).1.index
unfolding claim drop_entry
claim_lem os video k frame_idx c h = elim (Option-cases (lookup k c.index.entries)) [
  | inl missing ↦ rw (missing, claim) (record { absent = missing; total = omega arith })
  | inr (e, found) ↦
      elim (Bool-cases
        (e.video_mtime == video_mtime os video && file_exists (frame_path k frame_idx) c.disk)) [
          | inl there ↦ (let wrong : true ≡ false = rw (found, claim, there) at h in absurd cc)
          | inr gone ↦
              rw (found, claim, gone)
                (record { absent = remove-lookup-none k c.index.entries; total = omega arith })
        ]
]

record_entry-IsExact :
    (k : Key) (e : Entry) (idx : Index)
    → lookup k idx.entries ≡ none
    → idx.total_bytes + e.size < 2 ^ 64
    → IsExact idx
    → IsExact (record_entry k e idx)
unfolding record_entry sum_of insert
record_entry-IsExact k e idx absent fits h = record {
  distinct = insert-IsMap k e idx.entries h.distinct;
  total = rw (remove-absent k idx.entries absent) (omega (arith, h.total));
}

finish_write-IsExact :
    (os : System) (k : Key) (e : Entry) (c : Cache)
    → IsExact (record_entry k e c.index)
    → IsExact (finish_write os k e c).index
unfolding flush
finish_write-IsExact os k e c h =
    let saved = flush os (record c { index = record_entry k e c.index }) in
    let clean = cleanup-IsExact os saved h in ground arith

after_write_file-IsExact :
    (os : System) (k : Key) (e : Entry) (idx : Index) (r : Bool × Disk)
    → IsExact idx
    → IsExact (record_entry k e idx)
    → IsExact (after_write_file os k e idx r).1.index
after_write_file-IsExact os k e idx (false, d) h recorded = h
after_write_file-IsExact os k e idx (true, d) h recorded =
    finish_write-IsExact os k e (record { index = idx; disk = d }) recorded

write_frame-IsExact :
    (os os' : System) (video : Chars) (k : Key) (frame_idx : ℤ) (bytes : List ℕ) (before : Index)
    (r : Bool × Cache)
    → (r.0 ≡ false → IsClaimed k before r.1.index)
    → before.total_bytes + length bytes < 2 ^ 64
    → IsExact r.1.index
    → IsExact (write_frame os os' video k frame_idx bytes r).1.index
write_frame-IsExact os os' video k frame_idx bytes before (true, c) claimed fits h = h
write_frame-IsExact os os' video k frame_idx bytes before (false, c) claimed fits h =
    let free = claimed refl in
    after_write_file-IsExact os' k (new_entry os' video frame_idx bytes) c.index _ h
      (record_entry-IsExact k _ c.index free.absent (omega (arith, free.total)) h)

-- A write keeps the count exact: where the frame is cached already, where its file cannot be
-- written, and where it is new or replaces an entry, with the cleanup that may follow. The count
-- and the new frame's size must fit in a u64.
pub write-IsExact :
    (os os' : System) (video : Chars) (k : Key) (frame_idx : ℤ) (bytes : List ℕ) (c : Cache)
    → c.index.total_bytes + length bytes < 2 ^ 64
    → IsExact c.index
    → IsExact (write os os' video k frame_idx bytes c).1.index
unfolding write
write-IsExact os os' video k frame_idx bytes c fits h =
    write_frame-IsExact os os' video k frame_idx bytes c.index (claim os video k frame_idx c)
      (claim_lem os video k frame_idx c) fits
      (claim_preserves IsExact drop_entry-IsExact os video k frame_idx c h)
