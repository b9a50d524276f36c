-- ===== src/DiskCache/Access.antt =====
-- `read`, `exists`, `write` and `list_cached`. Each step that the code does under one lock is a
-- function of its own.
use jellyfin_recents.Prelude.{
  map, ℕ, ◌+◌, ◌%◌, ◌^◌, Bool, true, false, not, ◌&&◌, Option, none, some, List, [], ◌∷◌, ltb, ◌==◌,
  nat_eq, list_eq, if◌then◌else◌, keep, length,
}
use jellyfin_recents.Prelude.Int.{ℤ}
use jellyfin_recents.Prelude.Assoc.{lookup, insert}
use jellyfin_recents.DiskCache.Text.Strings.{Chars}
use jellyfin_recents.DiskCache.State.{
  Key, Entry, Index, Disk, Cache, System, key_eq, path_eq, frame_path, video_mtime, now_secs,
}
use jellyfin_recents.DiskCache.Files.{
  file_exists, read_file, remove_file, create_folder, write_file,
}
use jellyfin_recents.DiskCache.Cleanup.{cap_bytes, drop_entry, flush, cleanup}

-- The entries of the item that were decoded from another version of the video.
abbrev pub is_stale : Chars → ℕ → Key × Entry → Bool
is_stale item_id current (k, e) = k.item_id == item_id && not (e.video_mtime == current)

abbrev pub drop_stale : System → Key × Entry → Cache → Cache
drop_stale os (k, e) c = record {
  index = drop_entry k e c.index;
  disk = (remove_file os (frame_path k e.frame_idx) c.disk).1;
}

unfoldable pub drop_all_stale : System → List (Key × Entry) → Cache → Cache
drop_all_stale os [] c = c
drop_all_stale os (x ∷ xs) c = drop_all_stale os xs (drop_stale os x c)

-- The first locked step of `read`: an entry that is up to date, if there is one.
unfoldable pub find_current : System → Chars → Key → Cache → Option Entry × Cache
find_current os video k c = elim (lookup k c.index.entries) [
  | none ↦ (none, c)
  | some e ↦ if e.video_mtime == video_mtime os video then (some e, c) else (
    none,
    drop_all_stale os (keep (is_stale k.item_id (video_mtime os video)) c.index.entries) c,
  )
]

-- The second, where the file could not be read.
unfoldable pub forget : Key → Index → Index
forget k idx = elim (lookup k idx.entries) [ none ↦ idx | some e ↦ drop_entry k e idx ]

abbrev pub read_entry : System → Key → Option Entry × Cache → Option (List ℕ) × Cache
read_entry os k (none, c) = (none, c)
read_entry os k (some e, c) = elim (read_file os (frame_path k e.frame_idx) c.disk) [
  | some bytes ↦ (some bytes, c)
  | none ↦ (none, record c { index = forget k c.index })
]

unfoldable pub read : System → Chars → Key → Cache → Option (List ℕ) × Cache
read os video k c = read_entry os k (find_current os video k c)

unfoldable pub exists : System → Chars → Key → Cache → Bool
exists os video k c = elim (lookup k c.index.entries) [
  | none ↦ false
  | some e ↦
      if e.video_mtime == video_mtime os video
      then file_exists (frame_path k e.frame_idx) c.disk
      else false
]

-- The first locked step of `write`: whether the frame is there already, and the index without an
-- entry that is not.
unfoldable pub claim : System → Chars → Key → ℤ → Cache → Bool × Cache
claim os video k frame_idx c = elim (lookup k c.index.entries) [
  | none ↦ (false, c)
  | some e ↦
      if e.video_mtime == video_mtime os video && file_exists (frame_path k frame_idx) c.disk
      then (true, c)
      else (false, record c { index = drop_entry k e c.index })
]

-- The second: the new entry, with the size added in u64.
unfoldable pub record_entry : Key → Entry → Index → Index
record_entry k e idx = record {
  entries = insert k e idx.entries;
  total_bytes = (idx.total_bytes + e.size) % 2 ^ 64;
}

abbrev pub new_entry : System → Chars → ℤ → List ℕ → Entry
new_entry os video frame_idx bytes = record {
  frame_idx = frame_idx;
  size = length bytes;
  written_at = now_secs os;
  video_mtime = video_mtime os video;
}

-- What follows a successful write of the file. `over_cap` is taken before the index is saved.
abbrev pub finish_write : System → Key → Entry → Cache → Cache
finish_write os k e c =
    let recorded = record c { index = record_entry k e c.index } in
    let saved = flush os recorded in
    if ltb cap_bytes recorded.index.total_bytes then cleanup os saved else saved

abbrev pub after_write_file : System → Key → Entry → Index → Bool × Disk → Bool × Cache
after_write_file os k e idx (false, d) = (false, record { index = idx; disk = d })
after_write_file os k e idx (true, d) =
    (true, finish_write os k e (record { index = idx; disk = d }))

abbrev pub write_frame : System → System → Chars → Key → ℤ → List ℕ → Bool × Cache → Bool × Cache
write_frame os os' video k frame_idx bytes (true, c) = (true, c)
write_frame os os' video k frame_idx bytes (false, c) =
    after_write_file os' k (new_entry os' video frame_idx bytes) c.index
      (write_file os (frame_path k frame_idx) bytes (create_folder os k.item_id c.disk))

-- `os` is the system up to the write of the file, `os'` after it: the video's time is asked again.
unfoldable pub write : System → System → Chars → Key → ℤ → List ℕ → Cache → Bool × Cache
write os os' video k frame_idx bytes c =
    write_frame os os' video k frame_idx bytes (claim os video k frame_idx c)

abbrev pub is_listed : Chars → ℕ → Key × Entry → Bool
is_listed item_id width (k, e) = k.item_id == item_id && k.width == width

-- The positions and the frame indices cached for an item at a width.
unfoldable pub list_cached : Chars → ℕ → Index → List (ℤ × ℤ)
list_cached item_id width idx =
    map (λ ((k, e) : Key × Entry). (k.pos_ms, e.frame_idx))
      (keep (is_listed item_id width) idx.entries)
