-- ===== src/DiskCache/Restart/Index.antt =====
-- write_index and load_index are inverse, up to the frames whose files are gone.
use jellyfin_recents.Prelude.{
  ℕ, ◌^◌, ◌<◌, ◌≡◌, refl, ap, ◌∙◌, ◌&&◌, Option, none, some, List, [], ◌∷◌, ◌++◌, arith, ◌==◌,
  nat_eq, if◌then◌else◌, All, subst, Bool-cases, inl, inr,
}
use jellyfin_recents.Prelude.Options.{◌>>=◌}
use jellyfin_recents.Prelude.Int.{IsI64}
use jellyfin_recents.Prelude.Assoc.{Assoc, IsMap, lookup, insert, lookup-insert}
use jellyfin_recents.DiskCache.Text.Strings.{Chars, codes, strip_prefix-append}
use jellyfin_recents.DiskCache.Text.Decimal.{print_nat, print_int, parse_unsigned, u32_max, u64_max}
use jellyfin_recents.DiskCache.Text.Numerals.{
  print_nat-IsNumeral, parse_unsigned-IsNumeral, parse-print_int,
}
use jellyfin_recents.DiskCache.State.{Key, Entry, Index, Disk, key_eq, key_beq_iff, frame_path}
use jellyfin_recents.DiskCache.Files.{file_exists}
use jellyfin_recents.DiskCache.Save.{
  is_whitespace, entry_line, entry_lines, index_text, lines, split_whitespace, load_line,
  load_lines, load_text, load_index,
}
use jellyfin_recents.DiskCache.Restart.Words.{
  IsWord, IsLine, lines-append, split_whitespace-append, split_whitespace_word, print_nat-IsWord,
  print_int-IsWord, solid-IsLine, IsLine-append,
}

-- An entry as the program makes them: machine integers, and an item id without white space.
pub record IsSavable (k : Key) (e : Entry) : Type 0 where
  pub id : IsWord k.item_id
  pub frame_idx : IsI64 e.frame_idx
  pub pos_ms : IsI64 k.pos_ms
  pub width : k.width < 2 ^ 32
  pub size : e.size < 2 ^ 64
  pub written_at : e.written_at < 2 ^ 64
  pub video_mtime : e.video_mtime < 2 ^ 64

parse_u64 : (n : ℕ) → n < 2 ^ 64 → parse_unsigned u64_max (print_nat n) ≡ some n
parse_u64 n h =
    parse_unsigned-IsNumeral u64_max n _ (print_nat-IsNumeral n (omega arith)) (omega arith)

parse_u32 : (n : ℕ) → n < 2 ^ 32 → parse_unsigned u32_max (print_nat n) ≡ some n
parse_u32 n h =
    parse_unsigned-IsNumeral u32_max n _ (print_nat-IsNumeral n (omega arith)) (omega arith)

u32_lt_u64 : (n : ℕ) → n < 2 ^ 32 → n < 2 ^ 64
u32_lt_u64 n h = omega arith

-- The seven words of an entry's line.
words : Key → Entry → List Chars
words k e =
    k.item_id
    ∷ print_int e.frame_idx
    ∷ print_int k.pos_ms
    ∷ print_nat k.width
    ∷ print_nat e.size
    ∷ print_nat e.written_at
    ∷ print_nat e.video_mtime
    ∷ []

split-entry_line :
    (k : Key) (e : Entry) → IsSavable k e → split_whitespace (entry_line k e) ≡ words k e
unfolding entry_line words
split-entry_line k e h = rw (
  split_whitespace-append k.item_id _ h.id,
  split_whitespace-append _ _ (print_int-IsWord e.frame_idx h.frame_idx),
  split_whitespace-append _ _ (print_int-IsWord k.pos_ms h.pos_ms),
  split_whitespace-append _ _ (print_nat-IsWord k.width (u32_lt_u64 k.width h.width)),
  split_whitespace-append _ _ (print_nat-IsWord e.size h.size),
  split_whitespace-append _ _ (print_nat-IsWord e.written_at h.written_at),
  split_whitespace_word _ (print_nat-IsWord e.video_mtime h.video_mtime),
)

word-IsLine : (s : Chars) → IsWord s → IsLine s
word-IsLine s h = solid-IsLine s h.solid

entry_line-IsLine : (k : Key) (e : Entry) → IsSavable k e → IsLine (entry_line k e)
unfolding entry_line
entry_line-IsLine k e h = IsLine-append _ _ (word-IsLine _ h.id) (
    IsLine-append _ _ (word-IsLine _ (print_int-IsWord e.frame_idx h.frame_idx)) (
      IsLine-append _ _ (word-IsLine _ (print_int-IsWord k.pos_ms h.pos_ms)) (
        IsLine-append _ _ (word-IsLine _ (print_nat-IsWord k.width (u32_lt_u64 k.width h.width))) (
          IsLine-append _ _ (word-IsLine _ (print_nat-IsWord e.size h.size)) (
            IsLine-append _ _ (word-IsLine _ (print_nat-IsWord e.written_at h.written_at))
              (word-IsLine _ (print_nat-IsWord e.video_mtime h.video_mtime)))))))

-- The map with an entry put in if its file exists.
add_existing : Disk → Key → Entry → Assoc Key Entry → Assoc Key Entry
add_existing d k e m = if file_exists (frame_path k e.frame_idx) d then insert k e m else m

load-entry_line :
    (d : Disk) (k : Key) (e : Entry) (m : Assoc Key Entry)
    → IsSavable k e
    → load_line d (split_whitespace (entry_line k e)) m ≡ some (add_existing d k e m)
unfolding load_line words add_existing
load-entry_line d k e m h = rw (
  split-entry_line k e h,
  parse-print_int e.frame_idx h.frame_idx,
  parse-print_int k.pos_ms h.pos_ms,
  parse_u32 k.width h.width,
  parse_u64 e.size h.size,
  parse_u64 e.written_at h.written_at,
  parse_u64 e.video_mtime h.video_mtime,
)

add_all_existing : Disk → Assoc Key Entry → Assoc Key Entry → Assoc Key Entry
add_all_existing d [] acc = acc
add_all_existing d ((k, e) ∷ m) acc = add_all_existing d m (add_existing d k e acc)

load-entry_lines :
    (d : Disk) (m acc : Assoc Key Entry)
    → All (λ (x : Key × Entry). IsSavable x.0 x.1) m
    → load_lines d (lines (entry_lines m)) acc ≡ some (add_all_existing d m acc)
unfolding load_lines entry_lines add_all_existing
load-entry_lines d [] acc h = unfold lines in refl
load-entry_lines d ((k, e) ∷ m) acc h =
    rw (lines-append (entry_line k e) _ (entry_line-IsLine k e h.0), load-entry_line d k e acc h.0)
      (load-entry_lines d m (add_existing d k e acc) h.1)

-- An entry is kept if its file exists.
pub kept : Disk → Key → Option Entry → Option Entry
kept d k none = none
kept d k (some e) = if file_exists (frame_path k e.frame_idx) d then some e else none

-- What is found after `m` is loaded on top of `acc`.
merged : Disk → Key → Option Entry → Option Entry → Option Entry
merged d j none o = o
merged d j (some e) o = if file_exists (frame_path j e.frame_idx) d then some e else o

lookup-add_existing :
    (d : Disk) (k j : Key) (e : Entry) (m : Assoc Key Entry)
    → lookup j (add_existing d k e m)
      ≡ (if k == j && file_exists (frame_path k e.frame_idx) d then some e else lookup j m)
unfolding add_existing
lookup-add_existing d k j e m = elim (Bool-cases (file_exists (frame_path k e.frame_idx) d)) [
  | inl there ↦ rw (there, lookup-insert k j e m) (ground arith)
  | inr gone ↦ rw gone (ground arith)
]

merged_head :
    (d : Disk) (k j : Key) (f : Entry) (o p : Option Entry)
    → (k ≡ j → o ≡ none)
    → merged d j o (if k == j && file_exists (frame_path k f.frame_idx) d then some f else p)
      ≡ merged d j (if k == j then some f else o) p
unfolding merged
merged_head d k j f o p fresh = elim (Bool-cases (k == j)) [
  | inl same ↦
      rw (fresh ((key_beq_iff k j).0 same), same)
        (ap (λ (x : Key). if file_exists (frame_path x f.frame_idx) d then some f else p)
          ((key_beq_iff k j).0 same))
  | inr other ↦ rw other
]

lookup-add_all_existing :
    (d : Disk) (m acc : Assoc Key Entry) (j : Key)
    → IsMap m
    → lookup j (add_all_existing d m acc) ≡ merged d j (lookup j m) (lookup j acc)
unfolding add_all_existing lookup merged
lookup-add_all_existing d [] acc j h = refl
lookup-add_all_existing d ((k, f) ∷ m) acc j h =
    lookup-add_all_existing d m (add_existing d k f acc) j h.1
    ∙ ap (λ (o : Option Entry). merged d j (lookup j m) o) (lookup-add_existing d k j f acc)
    ∙ merged_head d k j f (lookup j m) (lookup j acc)
        (λ same. subst (λ (x : Key). lookup x m ≡ none) same h.0)

merged-kept : (d : Disk) (k : Key) (o : Option Entry) → merged d k o none ≡ kept d k o
unfolding merged kept
merged-kept d k none = refl
merged-kept d k (some e) = refl

v2-IsLine : IsLine (codes "v2")
v2-IsLine = ((refl, refl), ((refl, refl), tt))

total_word : IsLine (codes "total_bytes")
total_word = solid-IsLine (codes "total_bytes") (
    unfold is_whitespace in
    (refl, (refl, (refl, (refl, (refl, (refl, (refl, (refl, (refl, (refl, (refl, tt))))))))))))

header-IsLine : (n : ℕ) → n < 2 ^ 64 → IsLine (codes "total_bytes " ++ print_nat n)
header-IsLine n h =
    IsLine-append (codes "total_bytes") _ total_word (word-IsLine _ (print_nat-IsWord n h))

load_text-index_text :
    (d : Disk) (idx : Index)
    → idx.total_bytes < 2 ^ 64
    → All (λ (x : Key × Entry). IsSavable x.0 x.1) idx.entries
    → load_text d (lines (index_text idx))
      ≡ some (record { entries = add_all_existing d idx.entries []; total_bytes = idx.total_bytes })
unfolding index_text load_text
load_text-index_text d idx ht hs = rw (
  lines-append (codes "v2") _ v2-IsLine,
  lines-append (codes "total_bytes " ++ print_nat idx.total_bytes) _
      (header-IsLine idx.total_bytes ht),
  strip_prefix-append (codes "total_bytes ") (print_nat idx.total_bytes),
  parse_u64 idx.total_bytes ht,
  load-entry_lines d idx.entries [] hs,
)

-- What is saved is loaded again: the same count, and the same entry for every key, but for those
-- whose frame's file no longer exists. Every saved entry has machine integers and an item id
-- without white space.
pub load_index-index_text :
    (d : Disk) (idx : Index)
    → d.index_text ≡ some (index_text idx)
    → IsMap idx.entries
    → idx.total_bytes < 2 ^ 64
    → All (λ (x : Key × Entry). IsSavable x.0 x.1) idx.entries
    → (loaded : Index) × (load_index d ≡ some loaded)
      × (loaded.total_bytes ≡ idx.total_bytes)
      × ((k : Key) → lookup k loaded.entries ≡ kept d k (lookup k idx.entries))
unfolding load_index
load_index-index_text d idx saved hm ht hs = (
  record { entries = add_all_existing d idx.entries []; total_bytes = idx.total_bytes },
  ap (λ (o : Option Chars). o >>= (λ text. load_text d (lines text))) saved
      ∙ load_text-index_text d idx ht hs,
  refl,
  λ k.
      lookup-add_all_existing d idx.entries [] k hm
      ∙ unfold lookup in merged-kept d k (lookup k idx.entries),
)
