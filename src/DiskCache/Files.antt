-- ===== src/DiskCache/Files.antt =====
-- The calls of std::fs that the cache makes, on the modelled disk.
use jellyfin_recents.Prelude.{
  ℕ, Bool, true, false, ◌&&◌, ◌||◌, not, Option, none, some, List, ◌∷◌, any, ◌==◌, list_eq, nat_eq,
  if◌then◌else◌, keep,
}
use jellyfin_recents.Prelude.Assoc.{lookup, insert, remove, contains}
use jellyfin_recents.DiskCache.Text.Strings.{Chars}
use jellyfin_recents.DiskCache.State.{Disk, File, FramePath, System, path_eq, now_secs}

unfoldable pub file_exists : FramePath → Disk → Bool
file_exists p d = contains p d.files

abbrev pub has_folder : Chars → Disk → Bool
has_folder name d = any (λ f. f == name) d.folders

unfoldable pub read_file : System → FramePath → Disk → Option (List ℕ)
read_file os p d = elim (lookup p d.files) [
  | some f ↦ if os.can_read p then some f.bytes else none
  | none ↦ none
]

-- Whether the file was removed, and the disk.
unfoldable pub remove_file : System → FramePath → Disk → Bool × Disk
remove_file os p d =
    if contains p d.files && os.can_remove p
    then (true, record d { files = remove p d.files })
    else (false, d)

-- `create_dir_all`, whose failure the callers ignore.
unfoldable pub create_folder : System → Chars → Disk → Disk
create_folder os name d =
    if has_folder name d || not (os.can_create name)
    then d
    else record d { folders = name ∷ d.folders }

-- A write that fails may leave anything at its path.
abbrev pub after_failed_write : Option File → FramePath → Disk → Disk
after_failed_write none p d = d
after_failed_write (some f) p d = record d { files = insert p f d.files }

unfoldable pub write_file : System → FramePath → List ℕ → Disk → Bool × Disk
write_file os p bytes d =
    if has_folder p.folder d && os.can_write p
    then (
      true,
      record d { files = insert p (record { bytes = bytes; modified = now_secs os }) d.files },
    )
    else (false, after_failed_write (os.leftover p) p d)

unfoldable pub save_index : System → Chars → Disk → Disk
save_index os text d = record d {
  index_text = if os.can_save then some text else os.index_leftover;
}

-- Whether no file and no folder is left in a folder. The cache's own folders hold files alone.
abbrev pub is_empty_folder : Disk → Chars → Bool
is_empty_folder d name = not (any (λ (f : FramePath × File). f.0.folder == name) d.files)

-- A folder that cannot be read or removed stays.
unfoldable pub remove_empty_folders : System → Disk → Disk
remove_empty_folders os d = record d {
  folders = keep (λ name. not (is_empty_folder d name && os.can_remove_folder name)) d.folders;
}
