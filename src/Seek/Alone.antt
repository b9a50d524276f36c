-- ===== src/Seek/Alone.antt =====
-- A request that no other one interrupts: its steps do what the handler does in one go.
use jellyfin_recents.Prelude.{◌≡◌, refl, Bool, true, false, Option, none, some, if◌then◌else◌}
use jellyfin_recents.Wire.Bytes.{Text}
use jellyfin_recents.DiskCache.State.{Key, Cache, System}
use jellyfin_recents.DiskCache.Access.{read, exists}
use jellyfin_recents.Server.Lru.{Lru}
use jellyfin_recents.Seek.Protocol.{Request}
use jellyfin_recents.Seek.Session.{
  CacheEntry, Decoded, Reply, ack, cache_key, is_fetch, picture, State, evict_on_switch,
  after_decode, after_read, serve_missing, serve, handle_request,
}
use jellyfin_recents.Seek.Steps.{
  switched, missed, decoding, Next, answered, going, Decoder, after_look, after_disk, save_decoded,
  advance, alone,
}

module _ (L : Lru Key CacheEntry) (os : System) (decode : Decoder) (r : Request) where
  abbrev pub reply : Reply × State L → Next × State L
  reply (answer, s) = (answered answer, s)

  saved :
      (o : Option Decoded) (s : State L)
      → alone L 1 os decode r (save_decoded L os r o s) ≡ reply (after_decode L os r o s)
  unfolding advance
  saved none s = refl
  saved (some d) s = refl

  alone_decoding :
      (s : State L)
      → alone L 2 os decode r (going decoding, s)
        ≡ reply (after_decode L os r (decode r.path r.pos_ms r.width) s)
  unfolding advance
  alone_decoding s = saved (decode r.path r.pos_ms r.width) s

  alone_read :
      (p : Option Text × Cache) (s : State L)
      → alone L 2 os decode r (after_disk L p s) ≡ reply (after_read L os decode r p s)
  unfolding advance
  alone_read (some webp, c) s = refl
  alone_read (none, c) s = alone_decoding (record s { disk = c })

  asked :
      (fetch there : Bool) (p : Option Text × Cache) (s : State L)
      → alone L 2 os decode r
          (if fetch then after_disk L p s else (if there then answered ack else going decoding, s))
        ≡ reply (
            if fetch
            then after_read L os decode r p s
            else if there
            then (ack, s)
            else after_decode L os r (decode r.path r.pos_ms r.width) s)
  asked true there p s = alone_read p s
  asked false true p s = refl
  asked false false p s = alone_decoding s

  alone_missed :
      (s : State L)
      → alone L 3 os decode r (going missed, s) ≡ reply (serve_missing L os decode r s)
  unfolding advance serve_missing
  alone_missed s =
      asked (is_fetch r) (exists os r.path (cache_key r) s.disk)
        (read os r.path (cache_key r) s.disk) s

  looked :
      (o : Option CacheEntry) (s : State L)
      → alone L 3 os decode r (after_look L r o, s)
        ≡ reply (elim o [ some e ↦ (picture L r e.webp, s) | none ↦ serve_missing L os decode r s ])
  looked none s = alone_missed s
  looked (some e) s = refl

  pub alone_lem :
      (s : State L)
      → alone L 4 os decode r (going switched, evict_on_switch L r.item_id s)
        ≡ reply (handle_request L os decode r s)
  unfolding advance handle_request serve
  alone_lem s =
      let s' = evict_on_switch L r.item_id s in
      looked (L.peek (cache_key r) s'.cache) (record s' { cache = L.touch (cache_key r) s'.cache })
