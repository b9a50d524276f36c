-- ===== src/Server/Prefetch.antt =====
-- The queue of frames to prefetch in server.rs: `prefetch_tx`, `in_progress`, and the jobs that the
-- workers hold.
pub mod Tracked
pub mod Blocked
use jellyfin_recents.Prelude.{
  ℕ, suc, ◌≡◌, Bool, true, false, not, ◌&&◌, ◌||◌, List, [], ◌∷◌, ◌++◌, arith, ltb, ◌==◌,
  if◌then◌else◌, any, keep, length,
}
use jellyfin_recents.Prelude.Int.{ℤ}
use jellyfin_recents.Wire.Bytes.{Text}
use jellyfin_recents.Wire.Requests.Types.{HwDecodeFlags}
use jellyfin_recents.DiskCache.State.{Key, key_eq}

pub record PrefetchJob : Type 0 where
  pub item_id : Text
  pub path : Text
  pub pos_ms : ℤ
  pub width : ℕ
  pub hw : HwDecodeFlags

-- The job's entry in `in_progress`.
abbrev pub job_key : PrefetchJob → Key
job_key j = record { item_id = j.item_id; pos_ms = j.pos_ms; width = j.width }

abbrev pub prefetch_queue_cap : ℕ
prefetch_queue_cap = 128

-- `active` are the jobs that the workers have taken and not finished.
pub record Jobs : Type 0 where
  pub in_progress : List Key
  pub queue : List PrefetchJob
  pub active : List PrefetchJob

unfoldable pub is_member : Key → List Key → Bool
is_member k ks = any (λ j. j == k) ks

unfoldable pub remove_key : Key → List Key → List Key
remove_key k ks = keep (λ j. not (j == k)) ks

-- `try_send`, whose failure on a full queue the caller ignores.
unfoldable pub try_send : PrefetchJob → List PrefetchJob → List PrefetchJob
try_send j q = if ltb (length q) prefetch_queue_cap then q ++ j ∷ [] else q

-- The end of `handle_prefetch_frame`: the key goes into `in_progress`, and the job into the queue,
-- unless the key is there already.
unfoldable pub submit : PrefetchJob → Jobs → Jobs
submit j s = if is_member (job_key j) s.in_progress then s else record {
  in_progress = job_key j ∷ s.in_progress;
  queue = try_send j s.queue;
  active = s.active;
}

-- `HashSet::insert`.
unfoldable pub insert_key : Key → List Key → List Key
insert_key k ks = if is_member k ks then ks else k ∷ ks

-- What `handle_prefetch_range` does for each of its frames: the key goes in, the job into the queue;
-- where the queue is full, the key is taken out again. Other than for a single frame, nothing asks
-- whether the key was there already.
unfoldable pub submit_unchecked : PrefetchJob → Jobs → Jobs
submit_unchecked j s =
    let keys = insert_key (job_key j) s.in_progress in
    if ltb (length s.queue) prefetch_queue_cap
    then record s { in_progress = keys; queue = try_send j s.queue }
    else record s { in_progress = remove_key (job_key j) keys }

-- A step of the handlers and the workers: `submitted` for a single frame, `ranged` for a frame of a
-- range. A worker that finishes takes its key out, whether the
-- frame was cached already, decoded, or could not be decoded.
pub data Step : Jobs → Jobs → Type 0 where
  submitted : (j : PrefetchJob) (s : Jobs) → Step s (submit j s)
  ranged : (j : PrefetchJob) (s : Jobs) → Step s (submit_unchecked j s)
  taken :
      (j : PrefetchJob) (q : List PrefetchJob) (s : Jobs)
      → s.queue ≡ j ∷ q
      → Step s (record s { queue = q; active = j ∷ s.active })
  finished :
      (before after : List PrefetchJob) (j : PrefetchJob) (s : Jobs)
      → s.active ≡ before ++ j ∷ after
      → Step s (record s {
        in_progress = remove_key (job_key j) s.in_progress;
        active = before ++ after;
      })

pub data Run : Jobs → Jobs → Type 0 where
  stop : (s : Jobs) → Run s s
  next : (a b c : Jobs) → Step a b → Run b c → Run a c

-- The step is not one of a range that asks for the frame `k`; and no step of the run is.
abbrev pub IsOther : Key → (a b : Jobs) → Step a b → Type 0
IsOther k _ _ (submitted j s) = Unit
IsOther k _ _ (ranged j s) = (job_key j == k) ≡ false
IsOther k _ _ (taken j q s e) = Unit
IsOther k _ _ (finished before after j s e) = Unit

unfoldable pub IsUnranged : Key → (a b : Jobs) → Run a b → Type 0
IsUnranged k _ _ (stop s) = Unit
IsUnranged k _ _ (next a b c st r) = IsOther k a b st × IsUnranged k b c r

abbrev pub count : Key → List PrefetchJob → ℕ
count k [] = 0
count k (j ∷ js) = let rest = count k js in if job_key j == k then suc rest else rest

abbrev pub one_if : Bool → ℕ
one_if true = 1
one_if false = 0
