-- ===== src/Server/FrameIndex.antt =====
-- IndexProgress and FrameIndexManager of server.rs.
pub mod Shared
use jellyfin_recents.Prelude.{
  ℕ, ◌+◌, ◌<◌, ◌≡◌, ap, sym, ◌∙◌, Bool, true, false, Option, none, some, List, [], ◌∷◌, ◌++◌, arith,
  ◌==◌, nat_eq, list_eq, if◌then◌else◌, beq_refl, list_beq_iff, Option-cases, inl, inr, get_elem?,
}
use jellyfin_recents.Prelude.Options.{◌>>=◌, unwrap_or}
use jellyfin_recents.Prelude.Int.{ℤ, pos, negsuc}
use jellyfin_recents.Prelude.Assoc.{Assoc, lookup, insert, remove, lookup-insert}
use jellyfin_recents.Wire.Bytes.{Text}
use jellyfin_recents.Server.Lru.{Lru}

-- The frames' times and whether they are key frames, and the frame rate.
pub record FrameIndex : Type 0 where
  pub frames : List (ℤ × Bool)
  pub fps_num : ℤ
  pub fps_den : ℤ

-- The shared object of the streams that wait for one demuxing task.
pub record IndexProgress : Type 0 where
  pub batches : List (Text × ℤ)
  pub done : Bool

unfoldable pub push : Text → ℤ → IndexProgress → IndexProgress
push batch max_ms p = record p { batches = p.batches ++ (batch, max_ms) ∷ [] }

unfoldable pub finish : IndexProgress → IndexProgress
finish p = record p { done = true }

pub data FrameInfoSubscription : Type 0 where
  cached : FrameIndex → FrameInfoSubscription
  existing : ℕ → FrameInfoSubscription
  new : ℕ → FrameInfoSubscription

module _ (L : Lru Text FrameIndex) where
  -- An `Arc<IndexProgress>` is a number into the table `progress`.
  pub record FrameIndexManager : Type 0 where
    pub index : L.Store
    pub in_progress : Assoc Text ℕ
    pub progress : Assoc ℕ IndexProgress
    pub next : ℕ

  unfoldable pub get : Text → FrameIndexManager → Option FrameIndex
  get path m = L.peek path m.index

  unfoldable pub put_if_absent : Text → FrameIndex → FrameIndexManager → FrameIndexManager
  put_if_absent path idx m = elim (L.peek path m.index) [
    | none ↦ record m { index = L.put path idx m.index }
    | some old ↦ m
  ]

  abbrev pub after_demux :
      Text → Option FrameIndex → FrameIndexManager → Option FrameIndex × FrameIndexManager
  after_demux path none m = (none, m)
  after_demux path (some idx) m =
      let m' = put_if_absent path idx m in (some (unwrap_or idx (get path m')), m')

  -- `demux` is jfs_common::index_frames, which fails where the file cannot be demuxed. While it
  -- runs, other tasks may change the manager: `later` is the manager when it is done.
  unfoldable pub get_or_build :
      (Text → Option FrameIndex)
      → Text
      → FrameIndexManager
      → FrameIndexManager
      → Option FrameIndex × FrameIndexManager
  get_or_build demux path m later = elim (get path m) [
    | some idx ↦ (some idx, m)
    | none ↦ after_demux path (demux path) later
  ]

  abbrev pub join : Text → Option ℕ → FrameIndexManager → FrameInfoSubscription × FrameIndexManager
  join path (some id) m = (existing id, m)
  join path none m = (
    new m.next,
    record {
      index = m.index;
      in_progress = insert path m.next m.in_progress;
      progress = insert m.next (record { batches = []; done = false }) m.progress;
      next = m.next + 1;
    },
  )

  -- The index is looked up under one lock, the progress under another: `later` is the manager at the
  -- second, which other tasks may have changed.
  unfoldable pub get_or_subscribe :
      Text → FrameIndexManager → FrameIndexManager → FrameInfoSubscription × FrameIndexManager
  get_or_subscribe path m later = elim (get path m) [
    | some idx ↦ (cached idx, m)
    | none ↦ join path (lookup path later.in_progress) later
  ]

  unfoldable pub remove_progress : Text → FrameIndexManager → FrameIndexManager
  remove_progress path m = record m { in_progress = remove path m.in_progress }

  -- The frame's time, where the index has the frame.
  abbrev pub pts_of : Option FrameIndex → ℕ → Option ℤ
  pts_of none i = none
  pts_of (some idx) i = (get_elem? idx.frames i >>= λ (f : ℤ × Bool). some f.0)

  -- `resolve_frame_idx`.
  unfoldable pub resolve_frame_idx :
      (Text → Option FrameIndex) → Text → ℤ → FrameIndexManager → Option ℤ × FrameIndexManager
  resolve_frame_idx demux path (negsuc n) m = (none, m)
  resolve_frame_idx demux path (pos n) m =
      let (idx, m') = get_or_build demux path m m in (pts_of idx n, m')

  put_if_absent-cached :
      (path : Text) (idx : FrameIndex) (m : FrameIndexManager)
      → (r : FrameIndex) × (get path (put_if_absent path idx m) ≡ some r)
  unfolding get put_if_absent
  put_if_absent-cached path idx m = elim (Option-cases (L.peek path m.index)) [
    | inl missing ↦ (idx, rw (missing, put_if_absent) (L.peek-put path idx m.index))
    | inr (old, there) ↦ (old, rw (there, put_if_absent) there)
  ]

  after_demux_cached :
      (path : Text) (idx : FrameIndex) (o : Option FrameIndex) (m : FrameIndexManager)
      → (after_demux path o m).0 ≡ some idx
      → get path (after_demux path o m).1 ≡ some idx
  after_demux_cached path idx none m h = absurd cc
  after_demux_cached path idx (some i) m h =
      let (r, there) = put_if_absent-cached path i m in there ∙ (rw (there, unwrap_or) at h)

  pub build_cached :
      (demux : Text → Option FrameIndex) (path : Text) (idx : FrameIndex)
      (m later : FrameIndexManager)
      → get path m ≡ some idx
      → (get_or_build demux path m later).0 ≡ some idx
  unfolding get_or_build
  build_cached demux path idx m later h = rw (h, get_or_build)

  -- After a file's index has been built, the next request finds it without demuxing: it gets the
  -- same index, whatever demuxing would answer then. This holds also where another task put an
  -- index while this one was demuxing: then both get that one.
  pub get_or_build_again :
      (demux demux' : Text → Option FrameIndex) (path : Text) (m later : FrameIndexManager)
      (idx : FrameIndex)
      → get path m ≡ none
      → (get_or_build demux path m later).0 ≡ some idx
      → (get_or_build demux' path
          (get_or_build demux path m later).1
          (get_or_build demux path m later).1).0
        ≡ some idx
  unfolding get_or_build
  get_or_build_again demux demux' path m later idx missing built =
      build_cached demux' path idx _ _ (
        rw (missing, get_or_build)
          (after_demux_cached path idx (demux path) later (rw (missing, get_or_build) at built)))

  again_of :
      (demux : Text → Option FrameIndex) (path : Text) (m : FrameIndexManager)
      (r : Option FrameIndex × FrameIndexManager)
      → get_or_build demux path m m ≡ r
      → (get_or_build demux path r.1 r.1).0 ≡ r.0
      → let g = get_or_build demux path m m in (get_or_build demux path g.1 g.1).0 ≡ g.0
  again_of demux path m r e h =
      ap (λ (x : Option FrameIndex × FrameIndexManager). (get_or_build demux path x.1 x.1).0) e
      ∙ h
      ∙ ap (λ (x : Option FrameIndex × FrameIndexManager). x.0) (sym e)

  found_again :
      (demux : Text → Option FrameIndex) (path : Text) (idx : FrameIndex) (m : FrameIndexManager)
      → get path m ≡ some idx
      → let g = get_or_build demux path m m in (get_or_build demux path g.1 g.1).0 ≡ g.0
  unfolding get_or_build
  found_again demux path idx m there =
      let g : get_or_build demux path m m ≡ (some idx, m) = rw (there, get_or_build) in
      again_of demux path m (some idx, m) g (build_cached demux path idx m m there)

  broken_again :
      (demux : Text → Option FrameIndex) (path : Text) (m : FrameIndexManager)
      → get path m ≡ none
      → demux path ≡ none
      → let g = get_or_build demux path m m in (get_or_build demux path g.1 g.1).0 ≡ g.0
  unfolding get_or_build
  broken_again demux path m missing broken =
      let g : get_or_build demux path m m ≡ (none, m) = rw (missing, get_or_build, broken) in
      again_of demux path m (none, m) g (ap (λ (r : Option FrameIndex × FrameIndexManager). r.0) g)

  built_again :
      (demux : Text → Option FrameIndex) (path : Text) (idx : FrameIndex) (m : FrameIndexManager)
      → get path m ≡ none
      → demux path ≡ some idx
      → let g = get_or_build demux path m m in (get_or_build demux path g.1 g.1).0 ≡ g.0
  unfolding get_or_build
  built_again demux path idx m missing built =
      let g : get_or_build demux path m m ≡ after_demux path (some idx) m =
        rw (missing, get_or_build, built) in
      let answer : (get_or_build demux path m m).0 ≡ (after_demux path (some idx) m).0 =
        ap (λ (r : Option FrameIndex × FrameIndexManager). r.0) g in
      get_or_build_again demux demux path m m _ missing answer ∙ sym answer

  pub get_or_build_idempotent :
      (demux : Text → Option FrameIndex) (path : Text) (m : FrameIndexManager)
      → let g = get_or_build demux path m m in (get_or_build demux path g.1 g.1).0 ≡ g.0
  get_or_build_idempotent demux path m = elim (Option-cases (get path m)) [
    | inr (idx, there) ↦ found_again demux path idx m there
    | inl missing ↦ elim (Option-cases (demux path)) [
      | inl broken ↦ broken_again demux path m missing broken
      | inr (idx, built) ↦ built_again demux path idx m missing built
    ]
  ]
