-- ===== src/DiskCache/Save.antt =====
-- The text of index.txt: write_index, load_index and rebuild_index.
use jellyfin_recents.Prelude.{
  length, ℕ, ◌+◌, ◌%◌, ◌^◌, Bool, false, ◌&&◌, ◌||◌, Option, none, some, List, [], ◌∷◌, ◌++◌, leb,
  if◌then◌else◌, ◌==◌, nat_eq, list_eq, any,
}
use jellyfin_recents.Prelude.Options.{◌>>=◌, unwrap_or}
use jellyfin_recents.Prelude.Int.{ℤ}
use jellyfin_recents.Prelude.Assoc.{Assoc, insert}
use jellyfin_recents.DiskCache.Text.Strings.{Chars, codes, strip_prefix}
use jellyfin_recents.DiskCache.Text.Decimal.{
  print_nat, print_int, parse_i64, parse_unsigned, u32_max, u64_max,
}
use jellyfin_recents.DiskCache.Text.Names.{parse_file_name}
use jellyfin_recents.DiskCache.State.{Key, Entry, Index, File, FramePath, Disk, key_eq, frame_path}
use jellyfin_recents.DiskCache.Files.{file_exists}

abbrev pub newline : ℕ
newline = 10

-- `writeln!` of one entry: seven fields with blanks between them.
unfoldable pub entry_line : Key → Entry → Chars
entry_line k e =
    k.item_id
    ++ (b' '
        ∷ (print_int e.frame_idx
            ++ (b' '
                ∷ (print_int k.pos_ms
                    ++ (b' '
                        ∷ (print_nat k.width
                            ++ (b' '
                                ∷ (print_nat e.size
                                    ++ (b' '
                                        ∷ (print_nat e.written_at
                                            ++ (b' ' ∷ print_nat e.video_mtime)))))))))))

unfoldable pub entry_lines : Assoc Key Entry → Chars
entry_lines [] = []
entry_lines ((k, e) ∷ m) = entry_line k e ++ newline ∷ entry_lines m

-- The text that `write_index` writes.
unfoldable pub index_text : Index → Chars
index_text idx =
    codes "v2"
    ++ (newline
        ∷ ((codes "total_bytes " ++ print_nat idx.total_bytes)
            ++ (newline ∷ entry_lines idx.entries)))

-- `str::lines`: split at each line feed, with one carriage return before it taken off. The last
-- line need not end.
abbrev pub push_line : ℕ → List Chars → List Chars
push_line c [] = (c ∷ []) ∷ []
push_line c (l ∷ ls) = (c ∷ l) ∷ ls

abbrev pub starts_line_feed : Chars → Bool
starts_line_feed [] = false
starts_line_feed (c ∷ s) = c == newline

unfoldable pub lines : Chars → List Chars
lines [] = []
lines (c ∷ s) =
    let rest = lines s in
    if c == newline
    then [] ∷ rest
    else if c == 13 && starts_line_feed s
    then rest
    else push_line c rest

-- `char::is_whitespace`.
unfoldable pub is_whitespace : ℕ → Bool
is_whitespace c =
    leb 9 c && leb c 13
    || any (λ w. c == w) (32 ∷ 133 ∷ 160 ∷ 5760 ∷ 8232 ∷ 8233 ∷ 8239 ∷ 8287 ∷ 12288 ∷ [])
    || leb 8192 c && leb c 8202

abbrev pub push_word : ℕ → Chars → List Chars → List Chars
push_word c [] ws = (c ∷ []) ∷ ws
push_word c (d ∷ s) [] = (c ∷ []) ∷ []
push_word c (d ∷ s) (w ∷ ws) = if is_whitespace d then (c ∷ []) ∷ w ∷ ws else (c ∷ w) ∷ ws

-- `split_whitespace`: the runs of other characters.
unfoldable pub split_whitespace : Chars → List Chars
split_whitespace [] = []
split_whitespace (c ∷ s) =
    let rest = split_whitespace s in if is_whitespace c then rest else push_word c s rest

abbrev pub video_mtime_part : List Chars → ℕ
video_mtime_part [] = 0
video_mtime_part (w ∷ ws) = unwrap_or 0 (parse_unsigned u64_max w)

-- One line of entries, put into the map if the frame's file exists. A line of fewer than six parts
-- is passed over, a number that does not parse is an error.
unfoldable pub load_line : Disk → List Chars → Assoc Key Entry → Option (Assoc Key Entry)
load_line d (id ∷ fi ∷ p ∷ w ∷ sz ∷ ts ∷ tail) m = do
  frame_idx ← parse_i64 fi
  pos_ms ← parse_i64 p
  width ← parse_unsigned u32_max w
  size ← parse_unsigned u64_max sz
  written_at ← parse_unsigned u64_max ts
  let k : Key = record { item_id = id; pos_ms = pos_ms; width = width }
  let e : Entry = record {
    frame_idx = frame_idx;
    size = size;
    written_at = written_at;
    video_mtime = video_mtime_part tail;
  }
  some (if file_exists (frame_path k frame_idx) d then insert k e m else m)
load_line d parts m = some m

unfoldable pub load_lines : Disk → List Chars → Assoc Key Entry → Option (Assoc Key Entry)
load_lines d [] m = some m
load_lines d (l ∷ ls) m = do m' ← load_line d (split_whitespace l) m; load_lines d ls m'

abbrev pub load_body : Disk → Chars → List Chars → Option Index
load_body d total_line ls = do
  digits ← strip_prefix (codes "total_bytes ") total_line
  total ← parse_unsigned u64_max digits
  entries ← load_lines d ls []
  some (record { entries = entries; total_bytes = total })

-- The header and the entries. A none is the error that makes `new` rebuild the index.
unfoldable pub load_text : Disk → List Chars → Option Index
load_text d (version ∷ total_line ∷ ls) =
    if version == codes "v2" then load_body d total_line ls else none
load_text d ls = none

unfoldable pub load_index : Disk → Option Index
load_index d = do text ← d.index_text; load_text d (lines text)

abbrev pub rebuilt_entry : Chars → File → Index → ℤ × ℤ × ℕ → Index
rebuilt_entry folder f idx (frame_idx, pos_ms, width) =
    let k : Key = record { item_id = folder; pos_ms = pos_ms; width = width } in
    let e : Entry = record {
      frame_idx = frame_idx;
      size = length f.bytes;
      written_at = f.modified;
      video_mtime = 0;
    } in
    record {
      entries = insert k e idx.entries;
      total_bytes = (idx.total_bytes + length f.bytes) % 2 ^ 64;
    }

-- `rebuild_index`: every file whose name parses, with its size, and no modification time of the
-- video.
unfoldable pub rebuild_file : FramePath × File → Index → Index
rebuild_file (p, f) idx = elim (parse_file_name p.name) [
  | some parts ↦ if p.folder == codes "index.txt" then idx else rebuilt_entry p.folder f idx parts
  | none ↦ idx
]

unfoldable pub rebuild_files : List (FramePath × File) → Index → Index
rebuild_files [] idx = idx
rebuild_files (x ∷ xs) idx = rebuild_files xs (rebuild_file x idx)

unfoldable pub rebuild_index : Disk → Index
rebuild_index d = rebuild_files d.files (record { entries = []; total_bytes = 0 })
