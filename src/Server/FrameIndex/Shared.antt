-- ===== src/Server/FrameIndex/Shared.antt =====
-- The streams of one file share the progress of one demuxing task, over all runs of the manager.
use jellyfin_recents.Prelude.{
  ℕ, ◌≡◌, ap, sym, ◌∙◌, false, Option, none, some, ◌==◌, nat_eq, list_eq, list_beq_iff, beq_refl,
  Bool-cases, Option-cases, inl, inr,
}
use jellyfin_recents.Prelude.Assoc.{insert, lookup, lookup-insert, lookup-remove}
use jellyfin_recents.Wire.Bytes.{Text}
use jellyfin_recents.Server.Lru.{Lru}
use jellyfin_recents.Server.FrameIndex.{
  FrameIndex, IndexProgress, FrameInfoSubscription, existing, new, FrameIndexManager, get,
  put_if_absent, join, get_or_subscribe, remove_progress,
}

module _ (L : Lru Text FrameIndex) where
  -- What tasks do to the manager, each under one lock: a stream that has not found the index of its
  -- file joins or registers a progress, a task puts an index, a task takes its progress out, and a
  -- task pushes to its progress or finishes it.
  pub data Step : FrameIndexManager L → FrameIndexManager L → Type 0 where
    joined :
        (path : Text) (m : FrameIndexManager L)
        → Step m (join L path (lookup path m.in_progress) m).1
    indexed :
        (path : Text) (idx : FrameIndex) (m : FrameIndexManager L)
        → Step m (put_if_absent L path idx m)
    removed : (path : Text) (m : FrameIndexManager L) → Step m (remove_progress L path m)
    progressed :
        (id : ℕ) (p : IndexProgress) (m : FrameIndexManager L)
        → Step m (record m { progress = insert id p m.progress })

  pub data Run : FrameIndexManager L → FrameIndexManager L → Type 0 where
    stop : (m : FrameIndexManager L) → Run m m
    next : (a b c : FrameIndexManager L) → Step a b → Run b c → Run a c

  -- The step does not take out the progress of the file; and no step of the run does.
  abbrev pub IsKept : Text → (a b : FrameIndexManager L) → Step a b → Type 0
  IsKept path _ _ (joined p m) = Unit
  IsKept path _ _ (indexed p idx m) = Unit
  IsKept path _ _ (removed p m) = (p == path) ≡ false
  IsKept path _ _ (progressed id p m) = Unit

  unfoldable pub IsRunning : Text → (a b : FrameIndexManager L) → Run a b → Type 0
  IsRunning path _ _ (stop m) = Unit
  IsRunning path _ _ (next a b c s r) = IsKept path a b s × IsRunning path b c r

  join_keeps :
      (path p : Text) (id : ℕ) (m : FrameIndexManager L)
      → lookup path m.in_progress ≡ some id
      → lookup path (join L p (lookup p m.in_progress) m).1.in_progress ≡ some id
  join_keeps path p id m there = elim (Option-cases (lookup p m.in_progress)) [
    | inr (i, running) ↦ rw (running, join) there
    | inl idle ↦ elim (Bool-cases (p == path)) [
      | inl same ↦
          (let missing : lookup path m.in_progress ≡ none =
              ap (λ (x : Text). lookup x m.in_progress) (sym ((list_beq_iff p path).0 same))
              ∙ idle in
            let wrong : some id ≡ none = sym there ∙ missing in absurd cc)
      | inr other ↦ rw (idle, join) (rw (lookup-insert p path m.next m.in_progress, other) there)
    ]
  ]

  put_keeps :
      (path p : Text) (id : ℕ) (idx : FrameIndex) (m : FrameIndexManager L)
      → lookup path m.in_progress ≡ some id
      → lookup path (put_if_absent L p idx m).in_progress ≡ some id
  unfolding put_if_absent
  put_keeps path p id idx m there = elim (Option-cases (L.peek p m.index)) [
    | inl missing ↦ rw (missing, put_if_absent) there
    | inr (old, found) ↦ rw (found, put_if_absent) there
  ]

  remove_keeps :
      (path p : Text) (id : ℕ) (m : FrameIndexManager L)
      → (p == path) ≡ false
      → lookup path m.in_progress ≡ some id
      → lookup path (remove_progress L p m).in_progress ≡ some id
  unfolding remove_progress
  remove_keeps path p id m other there = rw (lookup-remove p path m.in_progress, other) there

  run_keeps :
      (path : Text) (id : ℕ) (a b : FrameIndexManager L) (r : Run a b)
      → IsRunning path a b r
      → lookup path a.in_progress ≡ some id
      → lookup path b.in_progress ≡ some id
  unfolding IsRunning
  run_keeps path id _ _ (stop m) u h = h
  run_keeps path id _ _ (next _ _ c (joined p m) r) u h =
      run_keeps path id _ c r u.1 (join_keeps path p id m h)
  run_keeps path id _ _ (next _ _ c (indexed p idx m) r) u h =
      run_keeps path id _ c r u.1 (put_keeps path p id idx m h)
  run_keeps path id _ _ (next _ _ c (removed p m) r) u h =
      run_keeps path id _ c r u.1 (remove_keeps path p id m u.0 h)
  run_keeps path id _ _ (next _ _ c (progressed i p m) r) u h = run_keeps path id _ c r u.1 h

  subscribe_missing :
      (path : Text) (m later : FrameIndexManager L)
      → get L path m ≡ none
      → get_or_subscribe L path m later ≡ join L path (lookup path later.in_progress) later
  unfolding get_or_subscribe
  subscribe_missing path m later missing = rw (missing, get_or_subscribe)

  -- For a file without a progress at the second lock: the stream that has not found the index
  -- registers a new progress. However streams and tasks interleave from there on, as long as the
  -- file's progress is not taken out, every further stream of the file that has not found the index
  -- joins this progress, and so starts no second task.
  pub get_or_subscribe_once :
      (path : Text) (m later asked b : FrameIndexManager L)
      (r : Run (get_or_subscribe L path m later).1 b)
      → get L path m ≡ none
      → lookup path later.in_progress ≡ none
      → IsRunning path (get_or_subscribe L path m later).1 b r
      → get L path asked ≡ none
      → ((get_or_subscribe L path m later).0 ≡ new later.next)
        × ((get_or_subscribe L path asked b).0 ≡ existing later.next)
  get_or_subscribe_once path m later asked b r missing idle u missing' =
      let first : get_or_subscribe L path m later ≡ join L path none later =
        subscribe_missing path m later missing ∙ ap (λ (o : Option ℕ). join L path o later) idle in
      let registered : lookup path (get_or_subscribe L path m later).1.in_progress
          ≡ some later.next =
        ap (λ (x : FrameInfoSubscription × FrameIndexManager L). lookup path x.1.in_progress) first
        ∙ (rw (lookup-insert path path later.next later.in_progress, beq_refl path)) in
      let running = run_keeps path later.next _ b r u registered in
      (
        ap (λ (x : FrameInfoSubscription × FrameIndexManager L). x.0) first,
        ap (λ (x : FrameInfoSubscription × FrameIndexManager L). x.0)
              (subscribe_missing path asked b missing')
            ∙ ap (λ (o : Option ℕ). (join L path o b).0) running,
      )
