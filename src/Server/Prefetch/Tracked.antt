-- ===== src/Server/Prefetch/Tracked.antt =====
-- How many jobs a frame has, over all runs of the prefetch queue.
use jellyfin_recents.Prelude.{
  ◌+◌, ◌≤◌, ◌≡◌, refl, subst, Bool, true, false, not, ◌&&◌, ◌||◌, List, [], ◌∷◌, ◌++◌, arith, ltb,
  ◌==◌, Bool-cases, inl, inr, length, length-append, ltb→lt,
}
use jellyfin_recents.DiskCache.State.{Key, key_eq, key_beq_iff}
use jellyfin_recents.Server.Prefetch.{
  PrefetchJob, job_key, prefetch_queue_cap, Jobs, is_member, remove_key, try_send, submit,
  insert_key, submit_unchecked, submitted, ranged, taken, finished, Run, stop, next, IsUnranged,
  count, one_if,
}

-- The frame has at most one job, queued or with a worker, and none unless its key is in progress.
-- The queue is within its capacity.
pub record IsTracked (k : Key) (s : Jobs) : Type 0 where
  pub jobs : count k s.queue + count k s.active ≤ one_if (is_member k s.in_progress)
  pub bounded : length s.queue ≤ prefetch_queue_cap

pub count-append :
    (k : Key) (xs ys : List PrefetchJob) → count k (xs ++ ys) ≡ count k xs + count k ys
count-append k [] ys = omega arith
count-append k (x ∷ xs) ys = ground (arith, count-append k xs ys)

pub member-remove :
    (k j : Key) (ks : List Key) → is_member k (remove_key j ks) ≡ (is_member k ks && not (j == k))
unfolding is_member remove_key
member-remove k j [] = refl
member-remove k j (i ∷ ks) =
    ground (arith, member-remove k j ks, key_beq_iff i j, key_beq_iff i k, key_beq_iff j k)

pub member-cons : (k j : Key) (ks : List Key) → is_member k (j ∷ ks) ≡ (j == k || is_member k ks)
unfolding is_member
member-cons k j ks = refl

-- The queue after `try_send`: within its capacity, and with at most one more job.
pub try_send_lem :
    (j : PrefetchJob) (q : List PrefetchJob)
    → length q ≤ prefetch_queue_cap
    → (length (try_send j q) ≤ prefetch_queue_cap)
      × ((k : Key) → count k (try_send j q) ≤ count k q + one_if (job_key j == k))
unfolding try_send
try_send_lem j q h = elim (Bool-cases (ltb (length q) prefetch_queue_cap)) [
  | inl room ↦ rw room (
    omega (arith, length-append q (j ∷ []), ltb→lt _ _ room),
    λ k. ground (arith, count-append k q (j ∷ [])),
  )
  | inr full ↦ rw full (h, λ k. omega arith)
]

-- A key that is not in progress has no job.
pub idle_lem :
    (s : Jobs) (k : Key)
    → IsTracked k s
    → is_member k s.in_progress ≡ false
    → count k s.queue + count k s.active ≡ 0
idle_lem s k h idle =
    let bound : count k s.queue + count k s.active ≤ one_if false = rw idle at (h.jobs) in
    omega (arith, bound)

submitted_count :
    (j : PrefetchJob) (s : Jobs) (k : Key)
    → IsTracked k s
    → is_member (job_key j) s.in_progress ≡ false
    → count k (try_send j s.queue) + count k s.active
      ≤ one_if (is_member k (job_key j ∷ s.in_progress))
submitted_count j s k h idle =
    rw (member-cons k (job_key j) s.in_progress) (elim (Bool-cases (job_key j == k)) [
      | inl same ↦
          (let sent : count k (try_send j s.queue) ≤ count k s.queue + one_if true =
              rw same at ((try_send_lem j s.queue h.bounded).1 k) in
            let free : is_member k s.in_progress ≡ false =
              subst (λ (x : Key). is_member x s.in_progress ≡ false)
                ((key_beq_iff (job_key j) k).0 same) idle in
            rw same (omega (arith, sent, idle_lem s k h free)))
      | inr other ↦
          (let sent : count k (try_send j s.queue) ≤ count k s.queue + one_if false =
              rw other at ((try_send_lem j s.queue h.bounded).1 k) in
            rw other (omega (arith, sent, h.jobs)))
    ])

submit-IsTracked : (k : Key) (j : PrefetchJob) (s : Jobs) → IsTracked k s → IsTracked k (submit j s)
unfolding submit
submit-IsTracked k j s h = elim (Bool-cases (is_member (job_key j) s.in_progress)) [
  | inl there ↦ rw there h
  | inr idle ↦ rw idle (record {
    jobs = submitted_count j s k h idle;
    bounded = (try_send_lem j s.queue h.bounded).0;
  })
]

finished_count :
    (before after : List PrefetchJob) (j : PrefetchJob) (s : Jobs) (k : Key)
    → s.active ≡ before ++ j ∷ after
    → IsTracked k s
    → count k s.queue + count k (before ++ after)
      ≤ one_if (is_member k (remove_key (job_key j) s.in_progress))
finished_count before after j s k e h =
    let all_jobs : count k s.queue + count k (before ++ j ∷ after)
        ≤ one_if (is_member k s.in_progress) =
      rw e at (h.jobs) in
    rw (member-remove k (job_key j) s.in_progress)
      (ground (arith, all_jobs, count-append k before (j ∷ after), count-append k before after))

finished-IsTracked :
    (k : Key) (before after : List PrefetchJob) (j : PrefetchJob) (s : Jobs)
    → s.active ≡ before ++ j ∷ after
    → IsTracked k s
    → IsTracked k
        (record s { in_progress = remove_key (job_key j) s.in_progress; active = before ++ after })
finished-IsTracked k before after j s e h = record {
  jobs = finished_count before after j s k e h;
  bounded = h.bounded;
}

taken-IsTracked :
    (k : Key) (j : PrefetchJob) (q : List PrefetchJob) (s : Jobs)
    → s.queue ≡ j ∷ q
    → IsTracked k s
    → IsTracked k (record s { queue = q; active = j ∷ s.active })
taken-IsTracked k j q s e h =
    let bound : length (j ∷ q) ≤ prefetch_queue_cap = rw e at h.bounded in
    record {
      jobs =
          (let before : count k (j ∷ q) + count k s.active ≤ one_if (is_member k s.in_progress) =
              rw e at (h.jobs) in
            ground (arith, before));
      bounded = omega (arith, bound);
    }

and_true : (b : Bool) → (b && true) ≡ b
and_true true = refl
and_true false = refl

insert_other :
    (k j : Key) (ks : List Key) → (j == k) ≡ false → is_member k (insert_key j ks) ≡ is_member k ks
unfolding insert_key
insert_other k j ks other = elim (Bool-cases (is_member j ks)) [
  | inl there ↦ rw (there, insert_key) refl
  | inr new ↦ rw (new, insert_key, member-cons k j ks, other) refl
]

-- The submission of a frame of a range leaves the other frames' keys and jobs as they are.
pub ranged_other :
    (k : Key) (j : PrefetchJob) (s : Jobs)
    → (job_key j == k) ≡ false
    → length s.queue ≤ prefetch_queue_cap
    → (is_member k (submit_unchecked j s).in_progress ≡ is_member k s.in_progress)
      × (count k (submit_unchecked j s).queue ≤ count k s.queue)
      × ((submit_unchecked j s).active ≡ s.active)
      × (length (submit_unchecked j s).queue ≤ prefetch_queue_cap)
unfolding submit_unchecked
ranged_other k j s other h =
    let sent : count k (try_send j s.queue) ≤ count k s.queue + one_if false =
      rw other at ((try_send_lem j s.queue h).1 k) in
    let kept = insert_other k (job_key j) s.in_progress other in
    elim (Bool-cases (ltb (length s.queue) prefetch_queue_cap)) [
      | inl room ↦
          rw (room, submit_unchecked)
            (kept, omega (arith, sent), refl, (try_send_lem j s.queue h).0)
      | inr full ↦
          rw (full, submit_unchecked)
            (
              rw (member-remove k (job_key j) (insert_key (job_key j) s.in_progress), other, kept)
                  (and_true (is_member k s.in_progress)),
              omega arith,
              refl,
              h,
            )
    ]

ranged-IsTracked :
    (k : Key) (j : PrefetchJob) (s : Jobs)
    → (job_key j == k) ≡ false
    → IsTracked k s
    → IsTracked k (submit_unchecked j s)
ranged-IsTracked k j s other h =
    let (key, less, active, bounded) = ranged_other k j s other h.bounded in
    record { jobs = rw (key, active) (omega (arith, less, h.jobs)); bounded = bounded }

-- However requests and workers interleave, as long as no request for a range asks for the frame: from
-- a state where the frame has at most one job, queued or being decoded, and none unless its key is in
-- progress, and the queue is within its capacity, this stays true.
pub run-IsTracked :
    (k : Key) (a b : Jobs) (r : Run a b) → IsUnranged k a b r → IsTracked k a → IsTracked k b
unfolding IsUnranged
run-IsTracked k _ _ (stop s) u h = h
run-IsTracked k _ _ (next a _ c (submitted j s) r) u h =
    run-IsTracked k _ c r u.1 (submit-IsTracked k j s h)
run-IsTracked k _ _ (next a _ c (ranged j s) r) u h =
    run-IsTracked k _ c r u.1 (ranged-IsTracked k j s u.0 h)
run-IsTracked k _ _ (next a _ c (taken j q s e) r) u h =
    run-IsTracked k _ c r u.1 (taken-IsTracked k j q s e h)
run-IsTracked k _ _ (next a _ c (finished before after j s e) r) u h =
    run-IsTracked k _ c r u.1 (finished-IsTracked k before after j s e h)
