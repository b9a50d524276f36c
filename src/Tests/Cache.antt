-- ===== src/Tests/Cache.antt =====
-- The disk cache and the calendar at concrete inputs.
use jellyfin_recents.Prelude.{
  ℕ, ◌≡◌, refl, true, false, none, some, [], ◌∷◌, arith, ◌<◌, ◌≤◌, ◌^◌, nat_eq, if◌then◌else◌, ◌+◌,
}
use jellyfin_recents.Prelude.Int.{pos}
use jellyfin_recents.Prelude.Assoc.{Assoc, lookup, remove, contains, sum_of, IsMap}
use jellyfin_recents.DiskCache.Text.Strings.{Chars, codes}
use jellyfin_recents.DiskCache.Text.Decimal.{print_nat, print_int, digits_of, pad, print_padded}
use jellyfin_recents.DiskCache.Text.Position.{format_pos_ms}
use jellyfin_recents.DiskCache.Text.Names.{file_name}
use jellyfin_recents.DiskCache.State.{
  Key, Entry, Index, Disk, Cache, System, key_eq, path_eq, frame_path,
}
use jellyfin_recents.DiskCache.Files.{remove_file}
use jellyfin_recents.DiskCache.Save.{index_text, load_index, is_whitespace}
use jellyfin_recents.DiskCache.Cleanup.{
  cap_bytes, cleanup, drop_entry, insert_by_age, by_age, evict, evict_all, flush,
}
use jellyfin_recents.DiskCache.Access.{forget, claim, new_entry, record_entry, read, write}
use jellyfin_recents.DiskCache.Accounting.{IsExact, IsCovered, sizes}
use jellyfin_recents.DiskCache.Exact.{write-IsExact}
use jellyfin_recents.DiskCache.Steps.{
  Run, stop, next, forgot, recorded, run-IsCovered, record_entry_over_entry,
}
use jellyfin_recents.DiskCache.Trim.Stuck.{IsStuck}
use jellyfin_recents.DiskCache.Trim.Target.{IsTrimmed, cleanup_target, cleanup_oldest_first}
use jellyfin_recents.DiskCache.Service.{read-write, read_stale, is_stale_at}
use jellyfin_recents.DiskCache.Restart.Words.{IsWord}
use jellyfin_recents.DiskCache.Restart.Index.{IsSavable, kept, load_index-index_text}

abbrev os : System
os = record {
  video_modified = λ v. some 100;
  now = some 5;
  can_create = λ f. true;
  can_read = λ p. true;
  can_write = λ p. true;
  can_remove = λ p. true;
  can_remove_folder = λ f. true;
  leftover = λ p. none;
  can_save = true;
  index_leftover = none;
}

abbrev video : Chars
video = codes "/media/film.mkv"

abbrev key : ℕ → Key
key ms = record { item_id = codes "abc"; pos_ms = pos ms; width = 320 }

abbrev entry : ℕ → ℕ → ℕ → Entry
entry size at mtime = record {
  frame_idx = pos 1;
  size = size;
  written_at = at;
  video_mtime = mtime;
}

abbrev old : Entry
old = entry 300000000 1 100

abbrev young : Entry
young = entry 300000000 2 99

abbrev entries : Assoc Key Entry
entries = (key 2000, young) ∷ (key 1000, old) ∷ []

-- The older entry's file is missing.
abbrev disk : Disk
disk = record {
  files = (frame_path (key 2000) (pos 1), record { bytes = 1 ∷ []; modified = 2 }) ∷ [];
  folders = codes "abc" ∷ [];
  index_text = none;
}

abbrev index : Index
index = record { entries = entries; total_bytes = 600000000 }

abbrev cache : Cache
cache = record { index = index; disk = disk }

entries-IsMap : IsMap entries
unfolding lookup
entries-IsMap = (refl, (refl, tt))

index-IsExact : IsExact index
unfolding sum_of
index-IsExact = record { distinct = entries-IsMap; total = refl }

write-IsExact_example : IsExact (write os os video (key 3000) (pos 3) (7 ∷ 8 ∷ []) cache).1.index
write-IsExact_example =
    write-IsExact os os video (key 3000) (pos 3) (7 ∷ 8 ∷ []) cache (omega arith) index-IsExact

abbrev no_index : Index
no_index = record { entries = []; total_bytes = 0 }

no_index-IsCovered : IsCovered no_index
unfolding sum_of
no_index-IsCovered = record { distinct = tt; total = omega arith }

-- Two writes of one frame, and a read that finds no file.
abbrev once : Index
once = record_entry (key 1000) old no_index

abbrev twice : Index
twice = record_entry (key 1000) young once

once_fits : once.total_bytes + 300000000 < 2 ^ 64
unfolding record_entry
once_fits = omega arith

abbrev steps : Run no_index (forget (key 1000) twice)
steps = next _ _ _ (recorded (key 1000) old no_index (omega arith)) (
    next _ _ _ (recorded (key 1000) young once once_fits)
      (next _ _ _ (forgot (key 1000) twice) (stop _)))

run-IsCovered_example : IsCovered (forget (key 1000) twice)
run-IsCovered_example = run-IsCovered no_index (forget (key 1000) twice) steps no_index-IsCovered

record_entry_over_entry_example :
    (record_entry (key 1000) young index).total_bytes
    ≡ sizes (record_entry (key 1000) young index).entries + 300000000
record_entry_over_entry_example =
    record_entry_over_entry (key 1000) old young index index-IsExact (unfold lookup in refl)
      (omega arith)

cleanup_target_example : IsTrimmed os (cleanup os cache)
cleanup_target_example = cleanup_target os cache entries-IsMap

evicted :
    (lookup (key 2000) (cleanup os cache).index.entries ≡ none)
    × (lookup (key 1000) (cleanup os cache).index.entries ≡ some old)
unfolding cleanup by_age insert_by_age evict_all evict remove_file drop_entry flush frame_path
    file_name print_int print_nat digits_of format_pos_ms print_padded pad lookup remove contains
evicted = (refl, refl)

cleanup_oldest_first_example : IsStuck os (cleanup os cache) (key 1000) old
cleanup_oldest_first_example =
    cleanup_oldest_first os cache (key 2000) (key 1000) young old entries-IsMap
      (unfold lookup in refl) (unfold lookup in refl) evicted.0 evicted.1 (omega arith)

abbrev small : Cache
small = record { index = no_index; disk = disk }

fits :
    (record_entry
      (key 3000)
      (new_entry os video (pos 3) (7 ∷ 8 ∷ []))
      (claim os video (key 3000) (pos 3) small).1.index).total_bytes
    ≤ cap_bytes
unfolding record_entry claim lookup
fits = omega arith

claimed_small : (claim os video (key 3000) (pos 3) small).0 ≡ false
unfolding claim lookup
claimed_small = refl

read-write_example :
    (read os video (key 3000) (write os os video (key 3000) (pos 3) (7 ∷ 8 ∷ []) small).1).0
    ≡ some (7 ∷ 8 ∷ [])
read-write_example =
    read-write os os os video (key 3000) (pos 3) (7 ∷ 8 ∷ []) small claimed_small refl refl fits
      refl (λ p. refl)

-- The entry at 2000 ms is of another version of the video, the one at 1000 ms is not.
read_stale_example :
    ((read os video (key 2000) cache).0 ≡ none)
    × ((j : Key)
        → lookup j (read os video (key 2000) cache).1.index.entries
          ≡ (if is_stale_at (codes "abc") 100 j (lookup j entries) then none else lookup j entries))
read_stale_example =
    read_stale os video (key 2000) young cache entries-IsMap (unfold lookup in refl) refl

abbrev saved : Disk
saved = record disk { index_text = some (index_text index) }

id-IsWord : IsWord (codes "abc")
unfolding is_whitespace
id-IsWord = record { nonempty = λ e. cc; solid = (refl, (refl, (refl, tt))) }

savable :
    (ms at mtime : ℕ)
    → ms < 2 ^ 63
    → at < 2 ^ 64
    → mtime < 2 ^ 64
    → IsSavable (key ms) (entry 300000000 at mtime)
savable ms at mtime h ha hm = record {
  id = id-IsWord;
  frame_idx = omega arith;
  pos_ms = h;
  width = omega arith;
  size = omega arith;
  written_at = ha;
  video_mtime = hm;
}

load_index-index_text_example :
    (loaded : Index) × (load_index saved ≡ some loaded)
    × (loaded.total_bytes ≡ 600000000)
    × ((k : Key) → lookup k loaded.entries ≡ kept saved k (lookup k entries))
load_index-index_text_example = load_index-index_text saved index refl entries-IsMap (omega arith) (
  savable 2000 2 99 (omega arith) (omega arith) (omega arith),
  (savable 1000 1 100 (omega arith) (omega arith) (omega arith), tt),
)
