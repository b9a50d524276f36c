-- ===== src/Server/Repeat.antt =====
-- What the daemon answers when a frame is asked for again.
use jellyfin_recents.Prelude.{ℕ, ◌≡◌, refl, ap, ◌∙◌, Option, none, some, Option-cases, inl, inr}
use jellyfin_recents.Prelude.Options.{unwrap_or}
use jellyfin_recents.Prelude.Int.{ℤ, pos, negsuc}
use jellyfin_recents.Wire.Bytes.{Text}
use jellyfin_recents.Wire.Requests.Types.{SingleFrameReq}
use jellyfin_recents.DiskCache.State.{Key, Cache, System}
use jellyfin_recents.Server.Lru.{Lru}
use jellyfin_recents.Server.FrameIndex.{
  FrameIndex, FrameIndexManager, get, get_or_build, get_or_build_idempotent, pts_of,
  resolve_frame_idx,
}
use jellyfin_recents.Server.Daemon.{
  RamKey, Decoded, Outside, Reply, jpeg, ack, failed, at_least_zero, hardware, Daemon, position,
  cached_reply, decoded_reply, serve_decoded, serve_from_disk, serve_at, handle_single_frame,
}

module _ (R : Lru RamKey Text) (L : Lru Text FrameIndex) where
  -- The picture of a reply is in memory.
  Holds : RamKey → Reply → Daemon R L → Type 0
  Holds k (jpeg webp flags pts_ms) s = R.peek k s.ram ≡ some webp
  Holds k ack s = Unit
  Holds k failed s = Unit

  -- A reply with a picture comes from a picture that loads, with its rating.
  IsRated : Outside → Reply → Type 0
  IsRated o (jpeg webp flags pts_ms) = o.quality webp ≡ some flags
  IsRated o ack = Unit
  IsRated o failed = Unit

  -- What is served for a picture that is in memory from now on.
  kept_reply :
      (o : Outside) (k : RamKey) (webp : Text) (s : Daemon R L)
      → R.peek k s.ram ≡ some webp
      → Holds k (cached_reply R L o webp) s × IsRated o (cached_reply R L o webp)
  unfolding Holds IsRated
  kept_reply o k webp s there = elim (Option-cases (o.quality webp)) [
    | inl broken ↦ rw (broken, cached_reply) (tt, tt)
    | inr (flags, rated) ↦ rw (rated, cached_reply) (there, rated)
  ]

  new_reply :
      (o : Outside) (k : RamKey) (r : Decoded) (s : Daemon R L)
      → R.peek k s.ram ≡ some r.webp
      → Holds k (decoded_reply R L o r) s × IsRated o (decoded_reply R L o r)
  unfolding Holds IsRated
  new_reply o k r s there = elim (Option-cases (o.quality r.webp)) [
    | inl broken ↦ rw (broken, decoded_reply) (tt, tt)
    | inr (flags, rated) ↦ rw (rated, decoded_reply) (there, rated)
  ]

  abbrev request_key : SingleFrameReq → ℤ → RamKey
  request_key req pos_ms = record { path = req.path; pos_ms = pos_ms; width = req.width }

  serve_decoded_lem :
      (os : System) (o : Outside) (path : Text) (k : Key) (d : Option Decoded) (s : Daemon R L)
      → let r = serve_decoded R L os o path k d s in
        Holds (record { path = path; pos_ms = k.pos_ms; width = k.width }) r.0 r.1 × IsRated o r.0
  unfolding Holds IsRated
  serve_decoded_lem os o path k none s = (tt, tt)
  serve_decoded_lem os o path k (some r) s =
      new_reply o _ r _
        (R.peek-put (record { path = path; pos_ms = k.pos_ms; width = k.width }) r.webp s.ram)

  serve_from_disk_lem :
      (os : System) (o : Outside) (req : SingleFrameReq) (k : Key) (p : Option Text × Cache)
      (s : Daemon R L)
      → let r = serve_from_disk R L os o req k p s in
        Holds (record { path = req.path; pos_ms = k.pos_ms; width = k.width }) r.0 r.1
        × IsRated o r.0
  serve_from_disk_lem os o req k (some webp, c) s =
      kept_reply o _ webp _
        (R.peek-put (record { path = req.path; pos_ms = k.pos_ms; width = k.width }) webp s.ram)
  serve_from_disk_lem os o req k (none, c) s =
      serve_decoded_lem os o req.path k _ (record s { cache = c })

  serve_at_lem :
      (os : System) (o : Outside) (req : SingleFrameReq) (pos_ms : ℤ) (s : Daemon R L)
      → let r = serve_at R L os o req pos_ms s in
        Holds (request_key req pos_ms) r.0 r.1 × IsRated o r.0
  unfolding serve_at
  serve_at_lem os o req pos_ms s =
      let key = request_key req pos_ms in
      elim (Option-cases (R.peek key s.ram)) [
        | inl missing ↦ rw (missing, serve_at) (serve_from_disk_lem os o req _ _ _)
        | inr (webp, there) ↦
            rw (there, serve_at) (kept_reply o key webp _ (R.peek-touch key key s.ram ∙ there))
      ]

  serve_in_memory :
      (os : System) (o : Outside) (req : SingleFrameReq) (pos_ms : ℤ) (s : Daemon R L) (webp : Text)
      (flags : ℕ)
      → R.peek (request_key req pos_ms) s.ram ≡ some webp
      → o.quality webp ≡ some flags
      → (serve_at R L os o req pos_ms s).0 ≡ jpeg webp flags (negsuc 0)
  unfolding serve_at
  serve_in_memory os o req pos_ms s webp flags there rated =
      rw (there, serve_at) (rw (rated, cached_reply))

  from_disk_frames :
      (os : System) (o : Outside) (req : SingleFrameReq) (k : Key) (p : Option Text × Cache)
      (s : Daemon R L)
      → (serve_from_disk R L os o req k p s).1.frames ≡ s.frames
  from_disk_frames os o req k (some webp, c) s = refl
  from_disk_frames os o req k (none, c) s =
      elim (Option-cases (o.decode req.path k.pos_ms k.width (hardware o req.hw))) [
        | inl broken ↦ rw (serve_from_disk, broken) refl
        | inr (r, decoded) ↦ rw (serve_from_disk, decoded) refl
      ]

  -- Serving leaves the files' indices as they are.
  serve_frames :
      (os : System) (o : Outside) (req : SingleFrameReq) (pos_ms : ℤ) (s : Daemon R L)
      → (serve_at R L os o req pos_ms s).1.frames ≡ s.frames
  unfolding serve_at
  serve_frames os o req pos_ms s = elim (Option-cases (R.peek (request_key req pos_ms) s.ram)) [
    | inl missing ↦ rw (missing, serve_at) (from_disk_frames os o req _ _ _)
    | inr (webp, there) ↦ rw (there, serve_at) refl
  ]

  build_same :
      (demux demux' : Text → Option FrameIndex) (path : Text) (m : FrameIndexManager L)
      → demux' path ≡ demux path
      → get_or_build L demux' path m m ≡ get_or_build L demux path m m
  unfolding get_or_build
  build_same demux demux' path m same = elim (Option-cases (get L path m)) [
    | inl missing ↦ rw (missing, get_or_build, same) refl
    | inr (idx, there) ↦ rw (there, get_or_build) refl
  ]

  resolve_same :
      (demux demux' : Text → Option FrameIndex) (path : Text) (frame_idx : ℤ)
      (m : FrameIndexManager L)
      → demux' path ≡ demux path
      → resolve_frame_idx L demux' path frame_idx m ≡ resolve_frame_idx L demux path frame_idx m
  unfolding resolve_frame_idx
  resolve_same demux demux' path (negsuc n) m same = refl
  resolve_same demux demux' path (pos n) m same =
      ap (λ (r : Option FrameIndex × FrameIndexManager L). (pts_of L r.0 n, r.1))
        (build_same demux demux' path m same)

  resolve_again :
      (demux : Text → Option FrameIndex) (path : Text) (frame_idx : ℤ) (m : FrameIndexManager L)
      → (resolve_frame_idx L demux path frame_idx (resolve_frame_idx L demux path frame_idx m).1).0
        ≡ (resolve_frame_idx L demux path frame_idx m).0
  unfolding resolve_frame_idx
  resolve_again demux path (negsuc n) m = refl
  resolve_again demux path (pos n) m =
      ap (λ (i : Option FrameIndex). pts_of L i n) (get_or_build_idempotent L demux path m)

  -- A frame that was sent with a picture is sent again with the same picture and the same rating,
  -- from memory and so without a time of its own (-1), whatever the disk and the decoder would
  -- answer by then, as long as nothing is put into memory in between, demuxing the file answers the
  -- same, and so does the rating of the picture.
  pub handle_single_frame_again :
      (os os' : System) (o o' : Outside) (req : SingleFrameReq) (s : Daemon R L) (webp : Text)
      (flags : ℕ) (pts_ms : ℤ)
      → o'.demux req.path ≡ o.demux req.path
      → o'.quality webp ≡ o.quality webp
      → (handle_single_frame R L os o req s).0 ≡ jpeg webp flags pts_ms
      → (handle_single_frame R L os' o' req (handle_single_frame R L os o req s).1).0
        ≡ jpeg webp flags (negsuc 0)
  unfolding handle_single_frame position Holds IsRated
  handle_single_frame_again os os' o o' req s webp flags pts_ms demuxed rates answered =
      let (pos_ms, s') = position R L o req.path req.frame_idx s in
      let s'' = (serve_at R L os o req pos_ms s').1 in
      let (holds, rated) = serve_at_lem os o req pos_ms s' in
      let there : Holds (request_key req pos_ms) (jpeg webp flags pts_ms) s'' =
        rw answered at holds in
      let rating : IsRated o (jpeg webp flags pts_ms) = rw answered at rated in
      let same : (position R L o' req.path req.frame_idx s'').0 ≡ pos_ms =
        ap (λ (r : Option ℤ × FrameIndexManager L). unwrap_or (at_least_zero req.frame_idx) r.0)
          (resolve_same o.demux o'.demux req.path req.frame_idx s''.frames demuxed)
        ∙ ap
            (λ (m : FrameIndexManager L).
              unwrap_or (at_least_zero req.frame_idx)
                (resolve_frame_idx L o.demux req.path req.frame_idx m).0)
            (serve_frames os o req pos_ms s')
        ∙ ap (unwrap_or (at_least_zero req.frame_idx))
            (resolve_again o.demux req.path req.frame_idx s.frames) in
      let s3 = (position R L o' req.path req.frame_idx s'').1 in
      ap (λ (p : ℤ). (serve_at R L os' o' req p s3).0) same
      ∙ serve_in_memory os' o' req pos_ms s3 webp flags there (rates ∙ rating)
