-- ===== src/Tests/Daemons.antt =====
-- The daemons at concrete inputs. The cache of the crate `lru` is an association list here.
use jellyfin_recents.Prelude.{
  ◌++◌, ◌⊎◌, ℕ, zero, suc, ◌≡◌, ◌≢◌, ◌↔◌, ◌≤◌, ◌+◌, refl, ap, Bool, true, false, ◌&&◌, Option, none,
  some, [], ◌∷◌, arith, ◌==◌, Eq, nat_eq, list_eq, int_eq, replicate, length, list_beq_iff,
  int_beq_iff, nat_beq_iff, beq_refl,
}
use jellyfin_recents.Prelude.Int.{pos, negsuc}
use jellyfin_recents.Prelude.Assoc.{Assoc, lookup, insert, lookup-insert}
use jellyfin_recents.Wire.Bytes.{Text}
use jellyfin_recents.Wire.Requests.Types.{codes, HwDecodeFlags, SingleFrameReq, idle_resource}
use jellyfin_recents.Wire.Responses.Send.{DecodeVendor, nvidia, amd, intel, HwDecodeCapabilities}
use jellyfin_recents.DiskCache.State.{Cache, System, key_eq}
use jellyfin_recents.DiskCache.Access.{read, find_current}
use jellyfin_recents.Server.Hardware.{pick_idle_resource_vendor, has_vendor, supported_vendors}
use jellyfin_recents.Server.Hardware.Choice.{pick_idle_resource_vendor_least}
use jellyfin_recents.Server.Lru.{Lru}
use jellyfin_recents.Server.FrameIndex.{
  FrameIndex, FrameIndexManager, get, put_if_absent, get_or_subscribe, new, existing, join,
}
use jellyfin_recents.Server.FrameIndex.Shared
use jellyfin_recents.Server.Prefetch.{
  PrefetchJob, Jobs, job_key, is_member, submit, submit_unchecked, count, Run, stop, next,
  submitted, taken, ranged, IsUnranged, try_send,
}
use jellyfin_recents.Server.Prefetch.Tracked.{IsTracked, run-IsTracked}
use jellyfin_recents.Server.Prefetch.Blocked.{submit_when_full}
use jellyfin_recents.Server.Daemon.{
  RamKey, Outside, jpeg, Daemon, position, serve_at, handle_single_frame,
}
use jellyfin_recents.Server.Repeat.{handle_single_frame_again}
use jellyfin_recents.Server.Connection.{closed, waiting, handle_conn, handle_conn_has_fuel}

module _ {K V : Type 0} ⦃e : Eq K⦄ where
  pub put_other :
      (j k : K) (v w : V) (s : Assoc K V)
      → j ≢ k
      → lookup j (insert k v s) ≡ some w
      → lookup j s ≡ some w
  put_other j k v w s ne h = ground (arith, lookup-insert k j v s, e.beq_iff k j, ne, h)

  pub put_same : (k : K) (v : V) (s : Assoc K V) → lookup k (insert k v s) ≡ some v
  put_same k v s = rw (lookup-insert k k v s, beq_refl k)

  pub empty_lem : (k : K) → lookup {V = V} k [] ≡ none
  unfolding lookup
  empty_lem k = refl

  abbrev pub assoc_lru : Lru K V
  assoc_lru = record {
    Store = Assoc K V;
    empty = [];
    peek = λ k s. lookup k s;
    touch = λ k s. s;
    put = λ k v s. insert k v s;
    peek-empty = empty_lem;
    peek-put = put_same;
    peek-touch = λ j k s. refl;
    peek-put_other = put_other;
  }

abbrev pub hw : HwDecodeFlags
hw = record { hw_decode_enabled = true; device_strategy = idle_resource }

abbrev caps : HwDecodeCapabilities
caps = record {
  supported = true;
  vendors =
      record { vendor = nvidia; supported = false; reason = [] }
      ∷ record { vendor = amd; supported = true; reason = [] }
      ∷ record { vendor = intel; supported = true; reason = [] }
      ∷ [];
}

-- Intel reports no load.
abbrev load : DecodeVendor → Option ℕ
load nvidia = some 5
load amd = some 40
load intel = none

abbrev node : DecodeVendor → Option Text
node v = some (codes "/dev/dri/renderD128")

amd_is_idle : pick_idle_resource_vendor load (supported_vendors caps) ≡ some amd
unfolding pick_idle_resource_vendor has_vendor
amd_is_idle = refl

pick_idle_resource_vendor_least_example :
    (l : ℕ) × (has_vendor amd (supported_vendors caps) ≡ true)
    × (load amd ≡ some l)
    × ((w : DecodeVendor) (m : ℕ)
        → has_vendor w (supported_vendors caps) ≡ true
        → load w ≡ some m
        → l ≤ m)
pick_idle_resource_vendor_least_example =
    pick_idle_resource_vendor_least load (supported_vendors caps) amd amd_is_idle

abbrev pub file : Text
file = codes "/media/film.mkv"

abbrev pub film : FrameIndex
film = record {
  frames = (pos 0, true) ∷ (pos 42, false) ∷ [];
  fps_num = pos 24000;
  fps_den = pos 1001;
}

abbrev demux : Text → Option FrameIndex
demux path = some film

abbrev pub indices : Lru Text FrameIndex
indices = assoc_lru

abbrev pub manager : FrameIndexManager indices
manager = record { index = []; in_progress = []; progress = []; next = 0 }

not_cached : get indices file manager ≡ none
unfolding get lookup
not_cached = refl

unregistered : lookup file manager.in_progress ≡ none
unfolding lookup
unregistered = refl

-- The first stream's task starts; a stream of another file comes, and the task puts the index.
abbrev first_asked : FrameIndexManager indices
first_asked = (get_or_subscribe indices file manager manager).1

abbrev other_asked : FrameIndexManager indices
other_asked = (join indices (codes "b") (lookup (codes "b") first_asked.in_progress) first_asked).1

abbrev index_put : FrameIndexManager indices
index_put = put_if_absent indices file film other_asked

abbrev subscribed : Shared.Run indices first_asked index_put
subscribed = Shared.next first_asked other_asked index_put (Shared.joined (codes "b") first_asked) (
    Shared.next other_asked index_put index_put (Shared.indexed file film other_asked)
      (Shared.stop index_put))

subscribed-IsRunning : Shared.IsRunning indices file first_asked index_put subscribed
unfolding Shared.IsRunning
subscribed-IsRunning = (tt, (tt, tt))

get_or_subscribe_once_example :
    ((get_or_subscribe indices file manager manager).0 ≡ new 0)
    × ((get_or_subscribe indices file manager index_put).0 ≡ existing 0)
get_or_subscribe_once_example =
    Shared.get_or_subscribe_once indices file manager manager manager index_put subscribed
      not_cached unregistered subscribed-IsRunning not_cached

abbrev pub job : ℕ → PrefetchJob
job ms = record { item_id = codes "abc"; path = file; pos_ms = pos ms; width = 320; hw = hw }

abbrev pub idle : Jobs
idle = record { in_progress = []; queue = []; active = [] }

idle-IsTracked : (ms : ℕ) → IsTracked (job_key (job ms)) idle
idle-IsTracked ms = record { jobs = omega arith; bounded = omega arith }

submit_lem :
    submit (job 0) idle
    ≡ record { in_progress = job_key (job 0) ∷ []; queue = job 0 ∷ []; active = [] }
unfolding submit try_send is_member
submit_lem = refl

abbrev queued : Jobs
queued = submit (job 0) idle

queue_lem : queued.queue ≡ job 0 ∷ []
queue_lem = ap (λ (s : Jobs). s.queue) submit_lem

abbrev busy : Jobs
busy = record queued { queue = []; active = job 0 ∷ queued.active }

-- A request, a worker that takes its job, and a range with another frame.
abbrev steps : Run idle (submit_unchecked (job 42) busy)
steps =
    next _ _ _ (submitted (job 0) idle)
      (next _ _ _ (taken (job 0) [] queued queue_lem) (next _ _ _ (ranged (job 42) busy) (stop _)))

steps-IsUnranged : IsUnranged (job_key (job 0)) idle (submit_unchecked (job 42) busy) steps
unfolding IsUnranged
steps-IsUnranged = (tt, (tt, (refl, tt)))

run-IsTracked_example : IsTracked (job_key (job 0)) (submit_unchecked (job 42) busy)
run-IsTracked_example =
    run-IsTracked (job_key (job 0)) idle _ steps steps-IsUnranged (idle-IsTracked 0)

-- The first `n` requests for different frames.
fill : ℕ → Jobs
fill zero = idle
fill (suc n) = submit (job n) (fill n)

fill-IsTracked : (ms n : ℕ) → IsTracked (job_key (job ms)) (fill n)
unfolding fill IsUnranged
fill-IsTracked ms zero = idle-IsTracked ms
fill-IsTracked ms (suc n) =
    run-IsTracked (job_key (job ms)) (fill n) _ (next _ _ _ (submitted (job n) (fill n)) (stop _))
      (tt, tt) (fill-IsTracked ms n)

full :
    (is_member (job_key (job 500)) (fill 128).in_progress ≡ false) × (length (fill 128).queue ≡ 128)
unfolding fill submit try_send is_member
full = (refl, refl)

abbrev refused : Jobs
refused = submit (job 500) (fill 128)

-- The frame is asked for once more.
abbrev asked_again : Run refused (submit (job 500) refused)
asked_again = next _ _ _ (submitted (job 500) refused) (stop _)

asked_again-IsUnranged :
    IsUnranged (job_key (job 500)) refused (submit (job 500) refused) asked_again
unfolding IsUnranged
asked_again-IsUnranged = (tt, tt)

submit_when_full_example :
    (is_member (job_key (job 500)) (submit (job 500) refused).in_progress ≡ true)
    × (count (job_key (job 500)) (submit (job 500) refused).queue
          + count (job_key (job 500)) (submit (job 500) refused).active
        ≡ 0)
submit_when_full_example =
    submit_when_full (job 500) (fill 128) _ asked_again (fill-IsTracked 500 128) full.0
      (omega (arith, full.1)) asked_again-IsUnranged

-- A prefetch of frame 1 of "/a", a second message of the type 20 whose bytes are too few.
abbrev messages : Text
messages =
    19
    ∷ 7
    ∷ 0
    ∷ 0
    ∷ 0
    ∷ 1
    ∷ 0
    ∷ 0
    ∷ 0
    ∷ 0
    ∷ 0
    ∷ 0
    ∷ 0
    ∷ 64
    ∷ 1
    ∷ 0
    ∷ 0
    ∷ 2
    ∷ 0
    ∷ 0
    ∷ 0
    ∷ 47
    ∷ 97
    ∷ (replicate 32 b'a' ++ 1 ∷ 0 ∷ 20 ∷ 1 ∷ [])

-- Every handler succeeds.
abbrev succeeds : ℕ → Text → Option Bool
succeeds t s = some true

-- The prefetch waits for ever.
abbrev waits : ℕ → Text → Option Bool
waits t s = none

handle_conn_has_fuel_example :
    ((handle_conn 100 waits messages []).ending ≡ closed)
    ⊎ ((handle_conn 100 waits messages []).ending ≡ waiting)
handle_conn_has_fuel_example = handle_conn_has_fuel waits 100 messages [] (omega arith)

abbrev pub os : System
os = record {
  video_modified = λ v. some 100;
  now = some 5;
  can_create = λ f. true;
  can_read = λ p. true;
  can_write = λ p. true;
  can_remove = λ p. true;
  can_remove_folder = λ f. true;
  leftover = λ p. none;
  can_save = true;
  index_leftover = none;
}

abbrev pub empty_disk : Cache
empty_disk = record {
  index = record { entries = []; total_bytes = 0 };
  disk = record { files = []; folders = []; index_text = none };
}

abbrev pub ram_beq : RamKey → RamKey → Bool
ram_beq a b = a.path == b.path && a.pos_ms == b.pos_ms && a.width == b.width

pub ram_beq_iff : (a b : RamKey) → (ram_beq a b ≡ true) ↔ (a ≡ b)
ram_beq_iff a b =
    ground (
      arith,
      list_beq_iff a.path b.path,
      int_beq_iff a.pos_ms b.pos_ms,
      nat_beq_iff a.width b.width,
    )

instance abbrev pub ram_eq : Eq RamKey
ram_eq = record { beq = ram_beq; beq_iff = ram_beq_iff }

abbrev pub ram : Lru RamKey Text
ram = assoc_lru

abbrev outside : Outside
outside = record {
  demux = demux;
  decode = λ p t w h. some (record {
    pts_ms = pos 42;
    fps_num = pos 24000;
    fps_den = pos 1001;
    webp = 1 ∷ 2 ∷ [];
    webp_orig = [];
  });
  quality = λ webp. some 3;
  load = load;
  node = node;
  caps = caps;
}

abbrev pub daemon : Daemon ram indices
daemon = record { ram = []; cache = empty_disk; frames = manager; jobs = idle }

abbrev request : SingleFrameReq
request = record {
  request_id = 7;
  frame_idx = pos 1;
  width = 320;
  path = file;
  item_id = replicate 32 b'a';
  hw = hw;
}

answered :
    (handle_single_frame ram indices os outside request daemon).0 ≡ jpeg (1 ∷ 2 ∷ []) 3 (pos 42)
unfolding handle_single_frame position serve_at read find_current lookup
answered = refl

-- By then the disk cannot be read and nothing can be decoded.
abbrev broken : System
broken = record os { can_read = λ p. false }

abbrev blind : Outside
blind = record outside { decode = λ p t w h. none }

handle_single_frame_again_example :
    (handle_single_frame ram indices broken blind request
      (handle_single_frame ram indices os outside request daemon).1).0
    ≡ jpeg (1 ∷ 2 ∷ []) 3 (negsuc 0)
handle_single_frame_again_example =
    handle_single_frame_again ram indices os broken outside blind request daemon (1 ∷ 2 ∷ []) 3
      (pos 42) refl refl answered
