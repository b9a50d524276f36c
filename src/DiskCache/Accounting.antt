-- ===== src/DiskCache/Accounting.antt =====
-- The byte count of the disk cache's index: what each operation does to it.
use jellyfin_recents.Prelude.{
  ℕ, ◌≤◌, ◌≡◌, ◌&&◌, some, [], ◌∷◌, arith, ◌==◌, nat_eq, Bool-cases, Option-cases, inl, inr, keep,
}
use jellyfin_recents.Prelude.Int.{ℤ}
use jellyfin_recents.Prelude.Assoc.{
  Assoc, lookup, IsMap, IsPart, sum_of, sum_of-remove, remove-IsMap, keep-IsPart, keep-IsMap,
  tail-IsPart,
}
use jellyfin_recents.DiskCache.Text.Strings.{Chars}
use jellyfin_recents.DiskCache.State.{
  Key, Entry, Index, Cache, System, key_eq, path_eq, frame_path, video_mtime,
}
use jellyfin_recents.DiskCache.Files.{file_exists, remove_file}
use jellyfin_recents.DiskCache.Cleanup.{drop_entry, evict, evict_all, by_age, flush, cleanup}
use jellyfin_recents.DiskCache.Access.{
  drop_stale, drop_all_stale, is_stale, find_current, forget, claim,
}

abbrev pub entry_size : Entry → ℕ
entry_size e = e.size

abbrev pub sizes : Assoc Key Entry → ℕ
sizes m = sum_of entry_size m

-- No key stands twice, and the count is the sum of the entries' sizes.
pub record IsExact (idx : Index) : Type 0 where
  pub distinct : IsMap idx.entries
  pub total : idx.total_bytes ≡ sizes idx.entries

-- The count is at least the sum.
pub record IsCovered (idx : Index) : Type 0 where
  pub distinct : IsMap idx.entries
  pub total : sizes idx.entries ≤ idx.total_bytes

pub drop_entry-IsExact :
    (k : Key) (e : Entry) (idx : Index)
    → lookup k idx.entries ≡ some e
    → IsExact idx
    → IsExact (drop_entry k e idx)
unfolding drop_entry
drop_entry-IsExact k e idx found h = record {
  distinct = remove-IsMap k idx.entries h.distinct;
  total = omega (arith, sum_of-remove entry_size k e idx.entries h.distinct found, h.total);
}

pub drop_entry-IsCovered :
    (k : Key) (e : Entry) (idx : Index)
    → lookup k idx.entries ≡ some e
    → IsCovered idx
    → IsCovered (drop_entry k e idx)
unfolding drop_entry
drop_entry-IsCovered k e idx found h = record {
  distinct = remove-IsMap k idx.entries h.distinct;
  total = omega (arith, sum_of-remove entry_size k e idx.entries h.distinct found, h.total);
}

-- What every removal of an entry that is there preserves, the operations that remove preserve.
module _ (P : Index → Type 0)
    (drop : (k : Key) (e : Entry) (idx : Index)
      → lookup k idx.entries ≡ some e
      → P idx
      → P (drop_entry k e idx)) where
  pub forget_preserves : (k : Key) (idx : Index) → P idx → P (forget k idx)
  unfolding forget
  forget_preserves k idx h = elim (Option-cases (lookup k idx.entries)) [
    | inl missing ↦ rw (missing, forget) h
    | inr (e, found) ↦ rw (found, forget) (drop k e idx found h)
  ]

  drop_all_stale_preserves :
      (os : System) (xs : Assoc Key Entry) (c : Cache)
      → IsMap xs
      → IsPart xs c.index.entries
      → P c.index
      → P (drop_all_stale os xs c).index
  unfolding drop_all_stale drop_entry
  drop_all_stale_preserves os [] c hm part h = h
  drop_all_stale_preserves os ((k, e) ∷ xs) c hm part h =
      let (found, rest) = tail-IsPart k e xs c.index.entries hm part in
      drop_all_stale_preserves os xs (drop_stale os (k, e) c) hm.1 rest (drop k e c.index found h)

  pub find_current_preserves :
      (os : System) (video : Chars) (k : Key) (c : Cache)
      → IsMap c.index.entries
      → P c.index
      → P (find_current os video k c).1.index
  unfolding find_current
  find_current_preserves os video k c hm h = elim (Option-cases (lookup k c.index.entries)) [
    | inl missing ↦ rw (missing, find_current) h
    | inr (e, found) ↦ elim (Bool-cases (e.video_mtime == video_mtime os video)) [
      | inl current ↦ rw (found, find_current, current) h
      | inr stale ↦
          let test = is_stale k.item_id (video_mtime os video) in
          rw (found, find_current, stale)
            (drop_all_stale_preserves os (keep test c.index.entries) c
              (keep-IsMap test c.index.entries hm) (keep-IsPart test c.index.entries hm) h)
    ]
  ]

  pub claim_preserves :
      (os : System) (video : Chars) (k : Key) (frame_idx : ℤ) (c : Cache)
      → P c.index
      → P (claim os video k frame_idx c).1.index
  unfolding claim
  claim_preserves os video k frame_idx c h = elim (Option-cases (lookup k c.index.entries)) [
    | inl missing ↦ rw (missing, claim) h
    | inr (e, found) ↦
        elim (Bool-cases
          (e.video_mtime == video_mtime os video && file_exists (frame_path k frame_idx) c.disk)) [
            | inl there ↦ rw (found, claim, there) h
            | inr gone ↦ rw (found, claim, gone) (drop k e c.index found h)
          ]
  ]

  evict_preserves : (os : System) (k : Key) (c : Cache) → P c.index → P (evict os k c).index
  unfolding evict
  evict_preserves os k c h = elim (Option-cases (lookup k c.index.entries)) [
    | inl missing ↦ rw (missing, evict) h
    | inr (e, found) ↦ elim (Bool-cases (remove_file os (frame_path k e.frame_idx) c.disk).0) [
      | inl removed ↦ rw (found, evict, removed) (drop k e c.index found h)
      | inr left ↦ rw (found, evict, left) h
    ]
  ]

  evict_all_preserves :
      (os : System) (xs : Assoc Key Entry) (c : Cache) → P c.index → P (evict_all os xs c).index
  unfolding evict_all
  evict_all_preserves os [] c h = h
  evict_all_preserves os ((k, e) ∷ xs) c h =
      let next = evict_all_preserves os xs (evict os k c) (evict_preserves os k c h) in ground arith

  pub cleanup_preserves : (os : System) (c : Cache) → P c.index → P (cleanup os c).index
  unfolding cleanup flush
  cleanup_preserves os c h =
      let evicted = evict_all_preserves os (by_age c.index.entries) c h in ground arith
