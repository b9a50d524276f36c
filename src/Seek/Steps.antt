-- ===== src/Seek/Steps.antt =====
-- Requests of several connections at once: `handle_conn` of crates/seek-preview/src/server.rs, step by
-- step. Each phase of a request ends where it gives up a lock or awaits; other requests may come in
-- between.
use jellyfin_recents.Prelude.{
  ℕ, zero, suc, ◌≡◌, Option, none, some, List, [], ◌∷◌, ◌++◌, list_eq, if◌then◌else◌, All,
}
use jellyfin_recents.Prelude.Int.{ℤ}
use jellyfin_recents.Wire.Bytes.{Text}
use jellyfin_recents.DiskCache.State.{Key, Cache, System}
use jellyfin_recents.DiskCache.Access.{read, exists, write}
use jellyfin_recents.Server.Frames.{compute_frame_idx}
use jellyfin_recents.Server.Lru.{Lru}
use jellyfin_recents.Seek.Protocol.{Request}
use jellyfin_recents.Seek.Session.{
  CacheEntry, Decoded, Reply, response, ack, cache_key, is_fetch, State, evict_on_switch, picture,
  remember, from_disk, from_decoder,
}

-- How far a request is: the item has been switched; the frame is not in memory; it was read from the
-- disk; it has to be decoded; it was decoded and written to the disk.
pub data Phase : Type 0 where
  switched missed decoding : Phase
  on_disk : Text → Phase
  decoded : Decoded → Phase

pub data Next : Type 0 where
  answered : Reply → Next
  going : Phase → Next

-- `decode_and_encode`.
abbrev pub Decoder : Type 0
Decoder = Text → ℤ → ℕ → Option Decoded

abbrev pub Pending : Type 0
Pending = Request × Phase

module _ (L : Lru Key CacheEntry) where
  abbrev pub after_look : Request → Option CacheEntry → Next
  after_look r none = going missed
  after_look r (some e) = answered (picture L r e.webp)

  abbrev pub after_disk : Option Text × Cache → State L → Next × State L
  after_disk (none, c) s = (going decoding, record s { disk = c })
  after_disk (some webp, c) s = (going (on_disk webp), record s { disk = c })

  abbrev pub ask_disk : System → Request → State L → Next × State L
  ask_disk os r s =
      if is_fetch r
      then after_disk (read os r.path (cache_key r) s.disk) s
      else (if exists os r.path (cache_key r) s.disk then answered ack else going decoding, s)

  abbrev pub save_decoded : System → Request → Option Decoded → State L → Next × State L
  save_decoded os r none s = (answered ack, s)
  save_decoded os r (some d) s =
      let frame_idx = compute_frame_idx d.pts_ms d.fps_num d.fps_den in
      (
        going (decoded d),
        record s { disk = (write os os r.path (cache_key r) frame_idx d.webp s.disk).1 },
      )

  unfoldable pub advance : System → Decoder → Request → Phase → State L → Next × State L
  advance os decode r switched s = (
    after_look r (L.peek (cache_key r) s.cache),
    record s { cache = L.touch (cache_key r) s.cache },
  )
  advance os decode r missed s = ask_disk os r s
  advance os decode r (on_disk webp) s =
      (answered (response webp), remember L (cache_key r) (from_disk L webp) s)
  advance os decode r decoding s = save_decoded os r (decode r.path r.pos_ms r.width) s
  advance os decode r (decoded d) s =
      (answered (picture L r d.webp), remember L (cache_key r) (from_decoder L d) s)

  -- A request alone, for at most `n` steps.
  abbrev pub alone : ℕ → System → Decoder → Request → Next × State L → Next × State L
  alone zero os decode r p = p
  alone (suc n) os decode r (answered reply, s) = (answered reply, s)
  alone (suc n) os decode r (going phase, s) = alone n os decode r (advance os decode r phase s)

  pub record Serving : Type 0 where
    pub state : State L
    pub pending : List Pending

  abbrev pub still : Request → Next → List Pending
  still r (answered reply) = []
  still r (going phase) = (r, phase) ∷ []

  unfoldable pub begin : Request → Serving → Serving
  begin r s = record {
    state = evict_on_switch L r.item_id s.state;
    pending = (r, switched) ∷ s.pending;
  }

  -- A connection has read a request, or one of the pending requests takes its next step.
  pub data Step : Serving → Serving → Type 0 where
    begun : (r : Request) (s : Serving) → Step s (begin r s)
    advanced :
        (os : System) (decode : Decoder) (before after : List Pending) (r : Request) (phase : Phase)
        (s : Serving)
        → s.pending ≡ before ++ (r, phase) ∷ after
        → Step s (record {
          state = (advance os decode r phase s.state).1;
          pending = before ++ (still r (advance os decode r phase s.state).0 ++ after);
        })

  pub data Run : Serving → Serving → Type 0 where
    stop : (s : Serving) → Run s s
    next : (a b c : Serving) → Step a b → Run b c → Run a c

  -- A request begins only while all that are pending are of its item; and so in all of a run.
  abbrev pub IsCalm : (a b : Serving) → Step a b → Type 0
  IsCalm _ _ (begun r s) = All (λ (p : Pending). p.0.item_id ≡ r.item_id) s.pending
  IsCalm _ _ (advanced os decode before after r phase s e) = Unit

  unfoldable pub IsCalmRun : (a b : Serving) → Run a b → Type 0
  IsCalmRun _ _ (stop s) = Unit
  IsCalmRun _ _ (next a b c st r) = IsCalm a b st × IsCalmRun b c r
