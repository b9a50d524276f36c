-- ===== src/DiskCache/Start.antt =====
-- The start of the cache: `new`, and the removal of files that older versions left.
use jellyfin_recents.Prelude.{
  ℕ, ◌+◌, ◌^◌, ◌≤◌, ◌<◌, Bool, true, false, not, ◌&&◌, ◌||◌, none, some, List, [], ◌∷◌, arith, leb,
  ◌==◌, nat_eq, list_eq, if◌then◌else◌, keep, any, all, length, Bool-cases, Option-cases, inl, inr,
}
use jellyfin_recents.Prelude.Options.{unwrap_or}
use jellyfin_recents.Prelude.Int.{ℤ}
use jellyfin_recents.Prelude.Assoc.{sum_of}
use jellyfin_recents.DiskCache.Text.Strings.{Chars, codes, strip_suffix}
use jellyfin_recents.DiskCache.Text.Names.{parse_file_name}
use jellyfin_recents.DiskCache.State.{Key, Entry, Index, File, FramePath, Disk, Cache, System}
use jellyfin_recents.DiskCache.Save.{
  load_index, rebuilt_entry, rebuild_file, rebuild_files, rebuild_index,
}
use jellyfin_recents.DiskCache.Access.{record_entry}
use jellyfin_recents.DiskCache.Accounting.{IsCovered}
use jellyfin_recents.DiskCache.Steps.{record_entry-IsCovered}

unfoldable pub is_hex_digit : ℕ → Bool
is_hex_digit c = leb b'0' c && leb c b'9' || leb b'a' c && leb c b'f' || leb b'A' c && leb c b'F'

-- A folder of the old scheme: 16 hexadecimal digits.
unfoldable pub is_legacy_folder : Chars → Bool
is_legacy_folder name = length name == 16 && all is_hex_digit name

-- `sweep_legacy_dirs`: the folders go with their files, and index.txt goes if there was any.
-- `can_clear` tells which folders can be removed.
unfoldable pub sweep_legacy_dirs : (Chars → Bool) → Disk → Disk
sweep_legacy_dirs can_clear d = record {
  files =
      keep (λ (f : FramePath × File). not (is_legacy_folder f.0.folder && can_clear f.0.folder))
        d.files;
  folders = keep (λ name. not (is_legacy_folder name && can_clear name)) d.folders;
  index_text = if any is_legacy_folder d.folders then none else d.index_text;
}

abbrev pub is_jpg : Chars → Bool
is_jpg name = elim (strip_suffix (codes ".jpg") name) [ some stem ↦ true | none ↦ false ]

-- `sweep_legacy_jpgs`.
unfoldable pub sweep_legacy_jpgs : System → Disk → Disk
sweep_legacy_jpgs os d = record d {
  files = keep (λ (f : FramePath × File). not (is_jpg f.0.name && os.can_remove f.0)) d.files;
}

-- `new`: the saved index, or a new one where it cannot be loaded.
unfoldable pub start : System → (Chars → Bool) → Disk → Cache
start os can_clear d =
    let swept = sweep_legacy_jpgs os (sweep_legacy_dirs can_clear d) in
    record { index = unwrap_or (rebuild_index swept) (load_index swept); disk = swept }

-- The bytes of the files.
unfoldable pub bytes_of : List (FramePath × File) → ℕ
bytes_of [] = 0
bytes_of ((p, f) ∷ fs) = length f.bytes + bytes_of fs

IsCoveredBelow : ℕ → Index → Type 0
IsCoveredBelow n idx = IsCovered idx × (idx.total_bytes ≤ n)

rebuilt_entry-IsCovered :
    (folder : Chars) (f : File) (idx : Index) (frame_idx pos_ms : ℤ) (width : ℕ)
    → idx.total_bytes + length f.bytes < 2 ^ 64
    → IsCovered idx
    → IsCovered (rebuilt_entry folder f idx (frame_idx, pos_ms, width))
unfolding record_entry
rebuilt_entry-IsCovered folder f idx frame_idx pos_ms width fits h =
    let k : Key = record { item_id = folder; pos_ms = pos_ms; width = width } in
    let e : Entry = record {
      frame_idx = frame_idx;
      size = length f.bytes;
      written_at = f.modified;
      video_mtime = 0;
    } in
    record_entry-IsCovered k e idx fits h

rebuild_file-IsCovered :
    (p : FramePath) (f : File) (n : ℕ) (idx : Index)
    → n + length f.bytes < 2 ^ 64
    → IsCoveredBelow n idx
    → IsCoveredBelow (n + length f.bytes) (rebuild_file (p, f) idx)
unfolding rebuild_file IsCoveredBelow
rebuild_file-IsCovered p f n idx fits h = elim (Option-cases (parse_file_name p.name)) [
  | inl other ↦ rw (other, rebuild_file) (h.0, omega (arith, h.1))
  | inr ((frame_idx, pos_ms, width), parsed) ↦ elim (Bool-cases (p.folder == codes "index.txt")) [
    | inl index ↦ rw (parsed, rebuild_file, index) (h.0, omega (arith, h.1))
    | inr item ↦
        rw (parsed, rebuild_file, item)
          (
            rebuilt_entry-IsCovered p.folder f idx frame_idx pos_ms width (omega (arith, fits, h.1))
                h.0,
            omega (arith, fits, h.1),
          )
  ]
]

rebuild_files-IsCovered :
    (fs : List (FramePath × File)) (n : ℕ) (idx : Index)
    → n + bytes_of fs < 2 ^ 64
    → IsCoveredBelow n idx
    → IsCovered (rebuild_files fs idx)
unfolding rebuild_files bytes_of IsCoveredBelow
rebuild_files-IsCovered [] n idx fits h = h.0
rebuild_files-IsCovered ((p, f) ∷ fs) n idx fits h =
    rebuild_files-IsCovered fs (n + length f.bytes) _ (omega arith)
      (rebuild_file-IsCovered p f n idx (omega arith) h)

-- An index that is rebuilt from the files has one entry for each key, and counts at least the
-- sizes of its entries: two files of one key are both counted, and one is listed. The files'
-- sizes together must fit in a u64.
pub rebuild_index-IsCovered : (d : Disk) → bytes_of d.files < 2 ^ 64 → IsCovered (rebuild_index d)
unfolding rebuild_index
rebuild_index-IsCovered d fits =
    rebuild_files-IsCovered d.files 0 _ (omega arith)
      (unfold IsCoveredBelow sum_of in (record { distinct = tt; total = omega arith }, omega arith))
