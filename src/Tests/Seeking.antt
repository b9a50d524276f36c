-- ===== src/Tests/Seeking.antt =====
-- The seek-preview daemon at concrete inputs.
use jellyfin_recents.Prelude.{ℕ, ◌≡◌, refl, Option, none, some, [], ◌∷◌, nat_eq, list_eq, arith}
use jellyfin_recents.Prelude.Int.{ℤ, pos}
use jellyfin_recents.Prelude.Assoc.{lookup}
use jellyfin_recents.Wire.Bytes.{Text}
use jellyfin_recents.Wire.Requests.Types.{codes}
use jellyfin_recents.DiskCache.State.{Key, key_eq}
use jellyfin_recents.Server.Lru.{Lru}
use jellyfin_recents.Seek.Protocol.{Request}
use jellyfin_recents.Seek.Session.{
  CacheEntry, Decoded, State, cache_key, evict_on_switch, from_decoder,
}
use jellyfin_recents.Seek.Steps.{
  decoded, advance, Serving, begin, Run, stop, next, begun, IsCalmRun,
}
use jellyfin_recents.Seek.Active.{IsSteady, IsClean, run-IsSteady, late_frame}
use jellyfin_recents.Tests.Daemons.{assoc_lru, file, os, empty_disk}

abbrev pictures : Lru Key CacheEntry
pictures = assoc_lru

abbrev session : State pictures
session = record { cache = []; disk = empty_disk; active_item_id = some (codes "xyz") }

abbrev serving : Serving pictures
serving = record { state = session; pending = [] }

serving-IsSteady : IsSteady pictures (codes "xyz") serving
unfolding lookup
serving-IsSteady = record {
  memory = record { active = refl; only = λ k e h. absurd cc };
  requests = tt;
}

abbrev fetch : Request
fetch = record {
  priority = 1;
  request_id = 7;
  pos_ms = pos 41708;
  width = 320;
  path = file;
  item_id = codes "abc";
}

abbrev prefetch : Request
prefetch = record fetch { priority = 2; pos_ms = pos 42000 }

abbrev no_decoder : Text → ℤ → ℕ → Option Decoded
no_decoder path pos_ms width = none

abbrev fetching : Serving pictures
fetching = begin pictures fetch serving

abbrev both : Serving pictures
both = begin pictures prefetch fetching

-- Two requests of the new item.
abbrev requests : Run pictures serving both
requests = next _ _ _ (begun fetch serving) (next _ _ _ (begun prefetch fetching) (stop _))

requests-IsCalm : IsCalmRun pictures serving both requests
unfolding IsCalmRun begin
requests-IsCalm = (tt, ((refl, tt), tt))

run-IsSteady_example : (now : Text) × IsSteady pictures now both
run-IsSteady_example =
    run-IsSteady pictures serving both requests (codes "xyz") requests-IsCalm serving-IsSteady

abbrev picture_of : Decoded
picture_of = record { pts_ms = pos 41708; fps_num = pos 24; fps_den = pos 1; webp = 1 ∷ 2 ∷ [] }

different : ¬ (codes "abc" ≡ codes "xyz")
different e = ground (arith, e)

late_frame_example :
    let late =
      (advance pictures os no_decoder fetch
        (decoded picture_of)
        (evict_on_switch pictures (codes "xyz") session)).1 in
    (late.active_item_id ≡ some (codes "xyz"))
    × (lookup (cache_key fetch) late.cache ≡ some (from_decoder pictures picture_of))
    × ¬ IsClean pictures late
late_frame_example =
    late_frame pictures os no_decoder fetch picture_of (codes "xyz") session different
