-- ===== src/Server/Prefetch/Blocked.antt =====
-- A frame whose job was lost on a full queue, over all runs of the prefetch queue.
use jellyfin_recents.Prelude.{
  ◌+◌, ◌≤◌, ◌≡◌, sym, ◌∙◌, subst, true, false, List, ◌∷◌, ◌++◌, arith, ltb, ◌==◌, beq_refl,
  Bool-cases, inl, inr, length,
}
use jellyfin_recents.DiskCache.State.{Key, key_eq, key_beq_iff}
use jellyfin_recents.Server.Prefetch.{
  PrefetchJob, job_key, prefetch_queue_cap, Jobs, is_member, remove_key, try_send, submit,
  submit_unchecked, submitted, ranged, taken, finished, Run, stop, next, IsUnranged, count, one_if,
}
use jellyfin_recents.Server.Prefetch.Tracked.{
  IsTracked, count-append, member-remove, member-cons, try_send_lem, idle_lem, ranged_other,
}

full_queue :
    (j : PrefetchJob) (q : List PrefetchJob) → prefetch_queue_cap ≤ length q → try_send j q ≡ q
unfolding try_send
full_queue j q full =
    let closed : ltb (length q) prefetch_queue_cap ≡ false = ground (arith, full) in rw closed

-- The frame's key is in progress although the frame has no job.
pub record IsBlocked (k : Key) (s : Jobs) : Type 0 where
  pub there : is_member k s.in_progress ≡ true
  pub no_job : count k s.queue + count k s.active ≡ 0
  pub bounded : length s.queue ≤ prefetch_queue_cap

submit_other-IsBlocked :
    (k : Key) (j : PrefetchJob) (s : Jobs)
    → (job_key j == k) ≡ false
    → IsBlocked k s
    → IsBlocked k (record s { in_progress = job_key j ∷ s.in_progress; queue = try_send j s.queue })
submit_other-IsBlocked k j s other h =
    let sent : count k (try_send j s.queue) ≤ count k s.queue + one_if false =
      rw other at ((try_send_lem j s.queue h.bounded).1 k) in
    record {
      there = rw (member-cons k (job_key j) s.in_progress, other) h.there;
      no_job = omega (arith, sent, h.no_job);
      bounded = (try_send_lem j s.queue h.bounded).0;
    }

submit-IsBlocked : (k : Key) (j : PrefetchJob) (s : Jobs) → IsBlocked k s → IsBlocked k (submit j s)
unfolding submit
submit-IsBlocked k j s h = elim (Bool-cases (is_member (job_key j) s.in_progress)) [
  | inl there ↦ rw there h
  | inr idle ↦ elim (Bool-cases (job_key j == k)) [
    | inl same ↦
        (let missing : is_member k s.in_progress ≡ false =
            subst (λ (x : Key). is_member x s.in_progress ≡ false)
              ((key_beq_iff (job_key j) k).0 same) idle in
          let wrong : true ≡ false = sym h.there ∙ missing in absurd cc)
    | inr other ↦ rw idle (submit_other-IsBlocked k j s other h)
  ]
]

ranged-IsBlocked :
    (k : Key) (j : PrefetchJob) (s : Jobs)
    → (job_key j == k) ≡ false
    → IsBlocked k s
    → IsBlocked k (submit_unchecked j s)
ranged-IsBlocked k j s other h =
    let (key, less, active, bounded) = ranged_other k j s other h.bounded in
    record {
      there = key ∙ h.there;
      no_job = rw active (omega (arith, less, h.no_job));
      bounded = bounded;
    }

taken-IsBlocked :
    (k : Key) (j : PrefetchJob) (q : List PrefetchJob) (s : Jobs)
    → s.queue ≡ j ∷ q
    → IsBlocked k s
    → IsBlocked k (record s { queue = q; active = j ∷ s.active })
taken-IsBlocked k j q s e h =
    let bound : length (j ∷ q) ≤ prefetch_queue_cap = rw e at h.bounded in
    let none_left : count k (j ∷ q) + count k s.active ≡ 0 = rw e at h.no_job in
    record { there = h.there; no_job = ground (arith, none_left); bounded = omega (arith, bound) }

finished-IsBlocked :
    (k : Key) (before after : List PrefetchJob) (j : PrefetchJob) (s : Jobs)
    → s.active ≡ before ++ j ∷ after
    → IsBlocked k s
    → IsBlocked k
        (record s { in_progress = remove_key (job_key j) s.in_progress; active = before ++ after })
finished-IsBlocked k before after j s e h =
    let none_left : count k s.queue + count k (before ++ j ∷ after) ≡ 0 = rw e at h.no_job in
    let other : (job_key j == k) ≡ false =
      ground (arith, none_left, count-append k before (j ∷ after)) in
    record {
      there = rw (member-remove k (job_key j) s.in_progress, other, h.there);
      no_job =
          ground (arith, none_left, count-append k before (j ∷ after), count-append k before after);
      bounded = h.bounded;
    }

run-IsBlocked :
    (k : Key) (a b : Jobs) (r : Run a b) → IsUnranged k a b r → IsBlocked k a → IsBlocked k b
unfolding IsUnranged
run-IsBlocked k _ _ (stop s) u h = h
run-IsBlocked k _ _ (next a _ c (submitted j s) r) u h =
    run-IsBlocked k _ c r u.1 (submit-IsBlocked k j s h)
run-IsBlocked k _ _ (next a _ c (ranged j s) r) u h =
    run-IsBlocked k _ c r u.1 (ranged-IsBlocked k j s u.0 h)
run-IsBlocked k _ _ (next a _ c (taken j q s e) r) u h =
    run-IsBlocked k _ c r u.1 (taken-IsBlocked k j q s e h)
run-IsBlocked k _ _ (next a _ c (finished before after j s e) r) u h =
    run-IsBlocked k _ c r u.1 (finished-IsBlocked k before after j s e h)

full-IsBlocked :
    (j : PrefetchJob) (s : Jobs)
    → IsTracked (job_key j) s
    → is_member (job_key j) s.in_progress ≡ false
    → prefetch_queue_cap ≤ length s.queue
    → IsBlocked (job_key j) (submit j s)
unfolding submit
full-IsBlocked j s h idle full =
    rw (idle, full_queue j s.queue full)
      (record {
        there = rw (member-cons (job_key j) (job_key j) s.in_progress, beq_refl (job_key j));
        no_job = idle_lem s (job_key j) h idle;
        bounded = h.bounded;
      })

-- When a request for a single frame that has no job meets a full queue, then however requests and
-- workers interleave from there on, as long as no request for a range asks for the frame: its key
-- stays in progress, and the frame never gets a job.
pub submit_when_full :
    (j : PrefetchJob) (s t : Jobs) (r : Run (submit j s) t)
    → IsTracked (job_key j) s
    → is_member (job_key j) s.in_progress ≡ false
    → prefetch_queue_cap ≤ length s.queue
    → IsUnranged (job_key j) (submit j s) t r
    → (is_member (job_key j) t.in_progress ≡ true)
      × (count (job_key j) t.queue + count (job_key j) t.active ≡ 0)
submit_when_full j s t r h idle full u =
    let blocked = run-IsBlocked (job_key j) (submit j s) t r u (full-IsBlocked j s h idle full) in
    (blocked.there, blocked.no_job)
