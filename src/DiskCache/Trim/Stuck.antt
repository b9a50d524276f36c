-- ===== src/DiskCache/Trim/Stuck.antt =====
-- The cleanup's loop: an entry whose turn was due is gone, or its file is stuck.
use jellyfin_recents.Prelude.{
  ◌≤◌, ◌≡◌, subst, true, false, ◌&&◌, ◌⊎◌, none, some, [], ◌∷◌, arith, leb, ◌==◌, Bool-cases,
  Option-cases, inl, inr, leb→le,
}
use jellyfin_recents.Prelude.Assoc.{
  Assoc, lookup, remove, contains, contains-remove, IsPart, lookup-remove, remove-IsPart,
  remove-lookup-none,
}
use jellyfin_recents.DiskCache.State.{
  Key, Entry, Disk, Cache, System, FramePath, key_eq, path_eq, key_beq_iff, frame_path,
}
use jellyfin_recents.DiskCache.Files.{remove_file}
use jellyfin_recents.DiskCache.Cleanup.{trim_target, drop_entry, evict, evict_all}

-- The file of an entry cannot be removed: it is not there, or the system refuses.
abbrev pub IsStuck : System → Cache → Key → Entry → Type 0
IsStuck os c k e = (remove_file os (frame_path k e.frame_idx) c.disk).0 ≡ false

-- A file that could not be removed cannot be once others are.
remove_file_mono :
    (os : System) (p q : FramePath) (d : Disk)
    → (remove_file os p d).0 ≡ false
    → (remove_file os p (remove_file os q d).1).0 ≡ false
unfolding remove_file
remove_file_mono os p q d h = elim (Bool-cases (contains q d.files && os.can_remove q)) [
  | inl gone ↦ rw gone (ground (arith, contains-remove p q d.files))
  | inr kept ↦ rw kept h
]

-- After the turn of `k`, its entry is gone or its file is stuck.
evict_turn :
    (os : System) (k : Key) (c : Cache) (e : Entry)
    → lookup k (evict os k c).index.entries ≡ some e
    → IsStuck os (evict os k c) k e
unfolding evict drop_entry
evict_turn os k c e h = elim (Option-cases (lookup k c.index.entries)) [
  | inl missing ↦ (let wrong : none ≡ some e = rw (missing, evict, missing) at h in absurd cc)
  | inr (f, found) ↦ elim (Bool-cases (remove_file os (frame_path k f.frame_idx) c.disk).0) [
    | inl removed ↦
        (let wrong : none ≡ some e =
            rw (found, evict, removed, remove-lookup-none k c.index.entries) at h in
          absurd cc)
    | inr left ↦
        (let there : some f ≡ some e = rw (found, evict, left, found) at h in
          let same : f ≡ e = cc in
          rw (found, evict)
            (remove_file_mono os (frame_path k e.frame_idx) (frame_path k f.frame_idx) c.disk (
              subst (λ (x : Entry). (remove_file os (frame_path k x.frame_idx) c.disk).0 ≡ false)
                same left)))
  ]
]

pub evict-IsPart :
    (os : System) (k : Key) (c : Cache) → IsPart (evict os k c).index.entries c.index.entries
unfolding evict drop_entry
evict-IsPart os k c j e h = elim (Option-cases (lookup k c.index.entries)) [
  | inl missing ↦ (rw (missing, evict) at h)
  | inr (f, found) ↦ elim (Bool-cases (remove_file os (frame_path k f.frame_idx) c.disk).0) [
    | inl removed ↦
        (let there : lookup j (remove k c.index.entries) ≡ some e =
            rw (found, evict, removed) at h in
          remove-IsPart k c.index.entries j e there)
    | inr left ↦ (rw (found, evict, left) at h)
  ]
]

-- The turn of `k` leaves the other entries.
pub evict_other :
    (os : System) (k j : Key) (c : Cache)
    → (k == j) ≡ false
    → lookup j (evict os k c).index.entries ≡ lookup j c.index.entries
unfolding evict drop_entry
evict_other os k j c ne = elim (Option-cases (lookup k c.index.entries)) [
  | inl missing ↦ rw (missing, evict)
  | inr (f, found) ↦ elim (Bool-cases (remove_file os (frame_path k f.frame_idx) c.disk).0) [
    | inl removed ↦ rw (found, evict, removed) (rw (lookup-remove k j c.index.entries, ne))
    | inr left ↦ rw (found, evict, left)
  ]
]

evict_mono :
    (os : System) (k : Key) (c : Cache) (p : FramePath)
    → (remove_file os p c.disk).0 ≡ false
    → (remove_file os p (evict os k c).disk).0 ≡ false
unfolding evict
evict_mono os k c p h = elim (Option-cases (lookup k c.index.entries)) [
  | inl missing ↦ rw (missing, evict) h
  | inr (f, found) ↦ elim (Bool-cases (remove_file os (frame_path k f.frame_idx) c.disk).0) [
    | inl removed ↦ rw (found, evict) (remove_file_mono os p (frame_path k f.frame_idx) c.disk h)
    | inr left ↦ rw (found, evict) (remove_file_mono os p (frame_path k f.frame_idx) c.disk h)
  ]
]

pub evict_all-IsPart :
    (os : System) (xs : Assoc Key Entry) (c : Cache)
    → IsPart (evict_all os xs c).index.entries c.index.entries
unfolding evict_all
evict_all-IsPart os [] c j e h = h
evict_all-IsPart os ((k, f) ∷ xs) c j e h =
    elim (Bool-cases (leb c.index.total_bytes trim_target)) [
      | inl low ↦ rw (evict_all, low) at h
      | inr high ↦
          evict-IsPart os k c j e
            (evict_all-IsPart os xs (evict os k c) j e (rw (evict_all, high) at h))
    ]

evict_all_mono :
    (os : System) (xs : Assoc Key Entry) (c : Cache) (p : FramePath)
    → (remove_file os p c.disk).0 ≡ false
    → (remove_file os p (evict_all os xs c).disk).0 ≡ false
unfolding evict_all
evict_all_mono os [] c p h = h
evict_all_mono os ((k, f) ∷ xs) c p h =
    let later = evict_all_mono os xs (evict os k c) p (evict_mono os k c p h) in ground arith

-- An entry whose turn came and which is still there has a stuck file.
pub turn_lem :
    (os : System) (k : Key) (xs : Assoc Key Entry) (c : Cache) (e : Entry)
    → lookup k (evict_all os xs (evict os k c)).index.entries ≡ some e
    → IsStuck os (evict_all os xs (evict os k c)) k e
turn_lem os k xs c e h =
    evict_all_mono os xs (evict os k c) (frame_path k e.frame_idx)
      (evict_turn os k c e (evict_all-IsPart os xs (evict os k c) k e h))

pub same_turn :
    (os : System) (j k : Key) (xs : Assoc Key Entry) (c : Cache) (e : Entry)
    → (j == k) ≡ true
    → lookup k (evict_all os xs (evict os j c)).index.entries ≡ some e
    → IsStuck os (evict_all os xs (evict os j c)) k e
same_turn os j k xs c e same =
    let last = evict_all os xs (evict os j c) in
    subst (λ (x : Key). lookup x last.index.entries ≡ some e → IsStuck os last x e)
      ((key_beq_iff j k).0 same) (turn_lem os j xs c e)

-- The count is at its target, or every entry whose turn was due has a stuck file.
pub evict_all_lem :
    (os : System) (xs : Assoc Key Entry) (c : Cache)
    → ((evict_all os xs c).index.total_bytes ≤ trim_target)
      ⊎ ((k : Key) (e : Entry)
          → contains k xs ≡ true
          → lookup k (evict_all os xs c).index.entries ≡ some e
          → IsStuck os (evict_all os xs c) k e)
unfolding evict_all contains
evict_all_lem os [] c = inr (λ k e h there. absurd cc)
evict_all_lem os ((j, f) ∷ xs) c = elim (Bool-cases (leb c.index.total_bytes trim_target)) [
  | inl low ↦ rw (evict_all, low) (inl (leb→le _ _ low))
  | inr high ↦ elim (evict_all_lem os xs (evict os j c)) [
    | inl reached ↦ rw (evict_all, high) (inl reached)
    | inr stuck ↦
        rw (evict_all, high)
          (inr (λ k e h there. elim (Bool-cases (j == k)) [
            | inl same ↦ same_turn os j k xs c e same there
            | inr other ↦ stuck k e (rw (contains, other) at h) there
          ]))
  ]
]
