-- ===== src/Server/Stream/Demux/Agreement.antt =====
-- The task that walks a file publishes the events that its finished index gives.
use jellyfin_recents.Prelude.{
  suc, ◌-◌, ◌^◌, ◌≡◌, refl, ap, sym, ◌∙◌, Bool, true, Option, none, some, List, [], ◌∷◌, ◌++◌, map,
  arith, leb, if◌then◌else◌, Bool-cases, inl, inr, length, length-append, nat_eq, list_eq,
}
use mathlib.Core.List.{append_assoc, append-nil}
use jellyfin_recents.Prelude.Assoc.{lookup, remove-lookup-none}
use jellyfin_recents.Prelude.Int.{ℤ, pos, negsuc}
use jellyfin_recents.Wire.Bytes.{Text}
use jellyfin_recents.Server.Lru.{Lru}
use jellyfin_recents.Server.FrameIndex.{
  FrameIndex, IndexProgress, push, finish, FrameIndexManager, remove_progress,
}
use jellyfin_recents.Server.Stream.Batches.{
  Entry, FrameIndexEntry, Batches, batch_size, batch_size_pos, make_batch, add_frame, add_frames,
  send_rest, add_frames_lem, chunk_events,
}
use jellyfin_recents.Server.Stream.Bridge.{texts}
use jellyfin_recents.Server.Stream.Bridge.Faithful.{texts-push}
use jellyfin_recents.Server.Stream.Window.{Frame, enumerate}
use jellyfin_recents.Server.Stream.Demux.{
  Packet, Opened, packet_ms, fps_den_of, done_event, fps_event, Demuxing, demux_frame, demux_packet,
  demux_packets, push_rest, start_demux, demuxed, built_index, queue_b_demux, cached_events,
}

abbrev pub video_frames : ℤ → List Packet → List Frame
video_frames start [] = []
video_frames start (p ∷ ps) =
    let rest = video_frames start ps in
    if p.is_video then (packet_ms start p.raw_ms, p.is_key) ∷ rest else rest

module _ (fps_json : ℤ → ℤ → Text) (to_string : List FrameIndexEntry → Option Text) where
  abbrev pub view : Demuxing fps_json to_string → Batches to_string
  view d = record { events = texts d.progress; batch = d.batch }

  demux_frame-view :
      (ms : ℤ) (is_key : Bool) (d : Demuxing fps_json to_string)
      → view (demux_frame fps_json to_string ms is_key d)
        ≡ add_frame to_string (length d.all_frames, ms, is_key) (view d)
  unfolding add_frame
  demux_frame-view ms is_key d =
      let c = d.batch ++ (length d.all_frames, ms, is_key) ∷ [] in
      elim (Bool-cases (leb batch_size (length c))) [
        | inl full ↦ rw (full, texts-push)
        | inr room ↦ rw room
      ]

  demux_frame-all :
      (ms : ℤ) (is_key : Bool) (d : Demuxing fps_json to_string)
      → (demux_frame fps_json to_string ms is_key d).all_frames ≡ d.all_frames ++ (ms, is_key) ∷ []
  demux_frame-all ms is_key d =
      elim (Bool-cases
        (leb batch_size (length (d.batch ++ (length d.all_frames, ms, is_key) ∷ [])))) [
          | inl full ↦ rw full
          | inr room ↦ rw room
        ]

  demux_packets-all :
      (start : ℤ) (ps : List Packet) (d : Demuxing fps_json to_string)
      → (demux_packets fps_json to_string start ps d).all_frames
        ≡ d.all_frames ++ video_frames start ps
  unfolding demux_packets demux_packet
  demux_packets-all start [] d = sym (append-nil d.all_frames)
  demux_packets-all start (p ∷ ps) d = elim (Bool-cases p.is_video) [
    | inl video ↦
        (let d' = demux_frame fps_json to_string (packet_ms start p.raw_ms) p.is_key d in
          rw video (
            demux_packets-all start ps d'
            ∙ ap (λ (fs : List Frame). fs ++ video_frames start ps)
                (demux_frame-all (packet_ms start p.raw_ms) p.is_key d)
            ∙ append_assoc d.all_frames ((packet_ms start p.raw_ms, p.is_key) ∷ [])
                (video_frames start ps)))
    | inr other ↦ rw other (demux_packets-all start ps d)
  ]

  demux_packets-view :
      (start : ℤ) (ps : List Packet) (d : Demuxing fps_json to_string)
      → view (demux_packets fps_json to_string start ps d)
        ≡ add_frames to_string (enumerate (length d.all_frames) (video_frames start ps)) (view d)
  unfolding demux_packets demux_packet add_frames
  demux_packets-view start [] d = refl
  demux_packets-view start (p ∷ ps) d = elim (Bool-cases p.is_video) [
    | inl video ↦
        (let ms = packet_ms start p.raw_ms in
          let d' = demux_frame fps_json to_string ms p.is_key d in
          let size : length d'.all_frames ≡ suc (length d.all_frames) =
            ap length (demux_frame-all ms p.is_key d)
            ∙ omega (arith, length-append d.all_frames ((ms, p.is_key) ∷ [])) in
          rw video (demux_packets-view start ps d' ∙ (rw (size, demux_frame-view ms p.is_key d))))
    | inr other ↦ rw other (demux_packets-view start ps d)
  ]

  rest_texts :
      (batch : List Entry) (max_ms : ℤ) (progress : IndexProgress)
      → texts (elim batch [
        | [] ↦ progress
        | e ∷ es ↦ push (make_batch to_string (e ∷ es)) max_ms progress
      ])
        ≡ (send_rest to_string (record { events = texts progress; batch = batch })).events
  unfolding send_rest
  rest_texts [] max_ms progress = refl
  rest_texts (e ∷ es) max_ms progress = texts-push _ max_ms progress

  push_rest-texts :
      (d : Demuxing fps_json to_string)
      → texts (push_rest fps_json to_string d) ≡ (send_rest to_string (view d)).events
  unfolding send_rest
  push_rest-texts d = rest_texts d.batch d.max_ms_in_batch d.progress

  demuxed_frames :
      (o : Opened) (p : IndexProgress)
      → (demuxed fps_json to_string o p).all_frames ≡ video_frames o.stream_start_ms o.packets
  demuxed_frames o p =
      demux_packets-all o.stream_start_ms o.packets (start_demux fps_json to_string o p)

  started :
      (o : Opened) (p : IndexProgress)
      → p.batches ≡ []
      → texts (start_demux fps_json to_string o p).progress
        ≡ fps_event fps_json to_string o.rate_num (fps_den_of o) ∷ []
  started o p fresh =
      texts-push _ (negsuc 0) p
      ∙ ap
          (λ (bs : List (Text × ℤ)).
            map (λ (b : Text × ℤ). b.0) bs
            ++ fps_event fps_json to_string o.rate_num (fps_den_of o) ∷ [])
          fresh

  demuxed_events :
      (o : Opened) (p : IndexProgress)
      → p.batches ≡ []
      → texts (
          finish (
            push done_event
              (pos (2 ^ 63 - 1))
              (push_rest fps_json to_string (demuxed fps_json to_string o p))))
        ≡ cached_events fps_json to_string (built_index fps_json to_string o p)
  unfolding finish cached_events
  demuxed_events o p fresh =
      let d = demuxed fps_json to_string o p in
      let first = fps_event fps_json to_string o.rate_num (fps_den_of o) in
      let es = enumerate 0 (video_frames o.stream_start_ms o.packets) in
      let rest : texts (push_rest fps_json to_string d) ≡ first ∷ chunk_events to_string es =
        push_rest-texts d
        ∙ ap (λ (b : Batches to_string). (send_rest to_string b).events)
            (demux_packets-view o.stream_start_ms o.packets (start_demux fps_json to_string o p))
        ∙ add_frames_lem to_string es (view (start_demux fps_json to_string o p)) batch_size_pos
        ∙ ap (λ (out : List Text). out ++ chunk_events to_string es) (started o p fresh) in
      texts-push done_event (pos (2 ^ 63 - 1)) (push_rest fps_json to_string d)
      ∙ (rw (rest, demuxed_frames o p))

  -- For a file that can be opened and a progress that has no events yet: the task succeeds, and
  -- publishes exactly the events, in the same order and the same batches, that a stream is sent
  -- for the index that the task has built. It marks the progress as done and takes it out.
  pub queue_b_demux-cached_events :
      (L : Lru Text FrameIndex) (input : Text → Option Opened) (path : Text) (o : Opened)
      (p : IndexProgress) (m : FrameIndexManager L)
      → input path ≡ some o
      → p.batches ≡ []
      → let r = queue_b_demux fps_json to_string L input path p m in
        (r.0 ≡ true)
        × (texts r.1 ≡ cached_events fps_json to_string (built_index fps_json to_string o p))
        × (r.1.done ≡ true)
        × (lookup path r.2.in_progress ≡ none)
  unfolding queue_b_demux cached_events remove_progress finish
  queue_b_demux-cached_events L input path o p m e fresh =
      rw (e, queue_b_demux) (refl, demuxed_events o p fresh, refl, remove-lookup-none path _)
