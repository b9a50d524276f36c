-- ===== src/DiskCache/Service.antt =====
-- What the cache serves: a frame just written, and nothing that is stale.
use jellyfin_recents.Prelude.{
  not, ◌&&◌, ℕ, ◌+◌, ◌%◌, ◌^◌, ◌≤◌, ◌≡◌, refl, sym, ◌∙◌, subst, Bool, true, false, Option, none,
  some, List, [], ◌∷◌, arith, ltb, ◌==◌, nat_eq, list_eq, if◌then◌else◌, keep, list_beq_iff,
  beq_refl,
}
use jellyfin_recents.Prelude.Int.{ℤ}
use jellyfin_recents.Prelude.Assoc.{
  Assoc, lookup, insert, contains, IsMap, lookup-insert, lookup-remove,
}
use jellyfin_recents.DiskCache.Text.Strings.{Chars}
use jellyfin_recents.DiskCache.State.{
  Key, Entry, Index, Disk, File, Cache, System, now_secs, FramePath, key_eq, path_eq, key_beq_iff,
  frame_path, video_mtime,
}
use jellyfin_recents.DiskCache.Files.{read_file, has_folder, create_folder, write_file, save_index}
use jellyfin_recents.DiskCache.Cleanup.{cap_bytes, drop_entry, flush}
use jellyfin_recents.DiskCache.Access.{
  is_stale, drop_stale, drop_all_stale, find_current, read_entry, read, claim, record_entry,
  new_entry, finish_write, write_frame, write,
}

-- The frame at the key is `bytes`, as an entry with the video's time and a file.
record IsStored (mtime : ℕ) (k : Key) (bytes : List ℕ) (c : Cache) : Type 0 where
  entry : Entry
  there : lookup k c.index.entries ≡ some entry
  current : entry.video_mtime ≡ mtime
  stored :
      (os : System)
      → os.can_read (frame_path k entry.frame_idx) ≡ true
      → read_file os (frame_path k entry.frame_idx) c.disk ≡ some bytes

read_stored :
    (os : System) (video : Chars) (k : Key) (bytes : List ℕ) (c : Cache)
    → (s : IsStored (video_mtime os video) k bytes c) → ((p : FramePath) → os.can_read p ≡ true)
    → (read os video k c).0 ≡ some bytes
unfolding read find_current
read_stored os video k bytes c s readable =
    rw (s.there, find_current, s.current, beq_refl (video_mtime os video))
      (rw (s.stored os (readable _), read_entry))

create_folder_lem :
    (os : System) (name : Chars) (d : Disk)
    → os.can_create name ≡ true
    → has_folder name (create_folder os name d) ≡ true
unfolding create_folder
create_folder_lem os name d h = ground (arith, beq_refl name)

-- Recording an entry whose file is there stores the frame, where no cleanup follows.
finish-IsStored :
    (os : System) (k : Key) (e : Entry) (f : File) (idx : Index) (d : Disk)
    → lookup (frame_path k e.frame_idx) d.files ≡ some f
    → (record_entry k e idx).total_bytes ≤ cap_bytes
    → IsStored e.video_mtime k f.bytes (finish_write os k e (record { index = idx; disk = d }))
unfolding record_entry flush save_index
finish-IsStored os k e f idx d there fits =
    let low : ltb cap_bytes ((idx.total_bytes + e.size) % 2 ^ 64) ≡ false = ground arith in
    rw (finish_write, low)
      (record {
        entry = e;
        there = rw (lookup-insert k k e idx.entries, beq_refl k);
        current = refl;
        stored = λ os' readable. unfold read_file in rw (there, read_file, readable);
      })

write_file_lem :
    (os : System) (p : FramePath) (bytes : List ℕ) (d : Disk)
    → has_folder p.folder d ≡ true
    → os.can_write p ≡ true
    → write_file os p bytes d ≡ (
      true,
      record d { files = insert p (record { bytes = bytes; modified = now_secs os }) d.files },
    )
unfolding write_file
write_file_lem os p bytes d folder writable = rw (folder, writable)

-- A write whose file can be written stores the frame, if it stays within the cap.
write_frame-IsStored :
    (os os' : System) (video : Chars) (k : Key) (frame_idx : ℤ) (bytes : List ℕ) (r : Bool × Cache)
    → r.0 ≡ false
    → os.can_create k.item_id ≡ true
    → os.can_write (frame_path k frame_idx) ≡ true
    → (record_entry k (new_entry os' video frame_idx bytes) r.1.index).total_bytes ≤ cap_bytes
    → IsStored (video_mtime os' video) k bytes (write_frame os os' video k frame_idx bytes r).1
write_frame-IsStored os os' video k frame_idx bytes (true, c) claimed creatable writable fits =
    absurd cc
write_frame-IsStored os os' video k frame_idx bytes (false, c) claimed creatable writable fits =
    let d = create_folder os k.item_id c.disk in
    let p = frame_path k frame_idx in
    let f : File = record { bytes = bytes; modified = now_secs os } in
    rw
      (write_file_lem os p bytes d
        (unfold frame_path in create_folder_lem os k.item_id c.disk creatable) writable)
      (finish-IsStored os' k (new_entry os' video frame_idx bytes) f c.index
        (record d { files = insert p f d.files }) (rw (lookup-insert p p f d.files, beq_refl p))
        fits)

-- A frame that has just been written is read back, byte for byte, as long as the video's time
-- stays the same. The frame was not cached before, its folder and its file could be written, and
-- the count stayed within the cap, so that no cleanup followed.
pub read-write :
    (os os' os'' : System) (video : Chars) (k : Key) (frame_idx : ℤ) (bytes : List ℕ) (c : Cache)
    → (claim os video k frame_idx c).0 ≡ false
    → os.can_create k.item_id ≡ true
    → os.can_write (frame_path k frame_idx) ≡ true
    → (record_entry k
        (new_entry os' video frame_idx bytes)
        (claim os video k frame_idx c).1.index).total_bytes
      ≤ cap_bytes
    → video_mtime os'' video ≡ video_mtime os' video
    → ((p : FramePath) → os''.can_read p ≡ true)
    → (read os'' video k (write os os' video k frame_idx bytes c).1).0 ≡ some bytes
unfolding write
read-write os os' os'' video k frame_idx bytes c claimed creatable writable fits same readable =
    read_stored os'' video k bytes _
      (subst (λ (t : ℕ). IsStored t k bytes (write os os' video k frame_idx bytes c).1) (sym same)
        (write_frame-IsStored os os' video k frame_idx bytes (claim os video k frame_idx c) claimed
          creatable writable fits))
      readable

lookup-drop_all_stale :
    (os : System) (xs : Assoc Key Entry) (c : Cache) (j : Key)
    → lookup j (drop_all_stale os xs c).index.entries
      ≡ (if contains j xs then none else lookup j c.index.entries)
unfolding drop_all_stale contains drop_entry
lookup-drop_all_stale os [] c j = refl
lookup-drop_all_stale os ((k, e) ∷ xs) c j =
    lookup-drop_all_stale os xs (drop_stale os (k, e) c) j
    ∙ rw (lookup-remove k j c.index.entries) (ground arith)

-- Whether the item's entry at a key is one of another version of the video.
abbrev pub is_stale_at : Chars → ℕ → Key → Option Entry → Bool
is_stale_at item_id current k none = false
is_stale_at item_id current k (some e) = k.item_id == item_id && not (e.video_mtime == current)

contains-keep :
    (item_id : Chars) (current : ℕ) (m : Assoc Key Entry) (j : Key)
    → IsMap m
    → contains j (keep (is_stale item_id current) m) ≡ is_stale_at item_id current j (lookup j m)
unfolding contains lookup
contains-keep item_id current [] j h = refl
contains-keep item_id current ((k, e) ∷ m) j h = ground (
  arith,
  contains-keep item_id current m j h.1,
  key_beq_iff k j,
  list_beq_iff k.item_id item_id,
  list_beq_iff j.item_id item_id,
  h.0,
)

-- A read that meets an entry of another version of the video answers nothing, and drops exactly
-- the entries of that item that are of another version: every other entry stays as it is.
pub read_stale :
    (os : System) (video : Chars) (k : Key) (e : Entry) (c : Cache)
    → IsMap c.index.entries
    → lookup k c.index.entries ≡ some e
    → (e.video_mtime == video_mtime os video) ≡ false
    → ((read os video k c).0 ≡ none)
      × ((j : Key)
          → lookup j (read os video k c).1.index.entries ≡ (
              if is_stale_at k.item_id (video_mtime os video) j (lookup j c.index.entries)
              then none
              else lookup j c.index.entries))
unfolding read find_current
read_stale os video k e c hm there stale =
    let test = is_stale k.item_id (video_mtime os video) in
    rw (there, find_current, stale)
      (
        refl,
        λ j.
            lookup-drop_all_stale os (keep test c.index.entries) c j
            ∙ rw (contains-keep k.item_id (video_mtime os video) c.index.entries j hm),
      )
