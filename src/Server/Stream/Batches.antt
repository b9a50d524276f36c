-- ===== src/Server/Stream/Batches.antt =====
-- The batches of frame entries: `make_batch`, and the frames that are gathered until `BATCH_SIZE`
-- of them are sent as one event. Putting the entries into JSON is serde's: `to_string` is none
-- where it fails.
use jellyfin_recents.Prelude.{
  ℕ, ◌≤◌, ◌<◌, ◌≡◌, ap, sym, ◌∙◌, Bool, Option, List, [], ◌∷◌, ◌++◌, map, arith, leb, if◌then◌else◌,
  Bool-cases, inl, inr, length, length-append, leb→le,
}
use mathlib.Core.List.{append_assoc, append-nil}
use jellyfin_recents.Prelude.Options.{unwrap_or}
use jellyfin_recents.Prelude.Chunks.{chunks, chunks_nil, chunks_full, chunks_last}
use jellyfin_recents.Prelude.Int.{ℤ, signed}
use jellyfin_recents.Wire.Bytes.{Text}
use jellyfin_recents.Wire.Requests.Types.{codes}

pub record FrameIndexEntry : Type 0 where
  pub frame_index : ℤ
  pub ms : ℤ
  pub is_key : Bool

-- A frame's number, time, and whether it is a key frame.
abbrev pub Entry : Type 0
Entry = ℕ × ℤ × Bool

unfoldable pub batch_size : ℕ
batch_size = 5000

pub batch_size_pos : 0 < batch_size
unfolding batch_size
batch_size_pos = omega arith

-- The frame number, a usize, is cast to i64.
abbrev pub entry_json : Entry → FrameIndexEntry
entry_json (fi, ms, is_key) = record { frame_index = signed fi; ms = ms; is_key = is_key }

module _ (to_string : List FrameIndexEntry → Option Text) where
  unfoldable pub make_batch : List Entry → Text
  make_batch entries =
      codes "data: " ++ unwrap_or [] (to_string (map entry_json entries)) ++ (10 ∷ 10 ∷ [])

  -- The events that were sent, and the frames that wait for the next one.
  pub record Batches : Type 0 where
    pub events : List Text
    pub batch : List Entry

  unfoldable pub add_frame : Entry → Batches → Batches
  add_frame e b =
      let batch = b.batch ++ e ∷ [] in
      if leb batch_size (length batch)
      then (record { events = b.events ++ make_batch batch ∷ []; batch = [] })
      else (record { events = b.events; batch = batch })

  -- After the loop: what is left is sent, unless it is empty.
  unfoldable pub send_rest : Batches → Batches
  send_rest b = elim b.batch [
    | [] ↦ b
    | e ∷ es ↦ record { events = b.events ++ make_batch (e ∷ es) ∷ []; batch = [] }
  ]

  unfoldable pub add_frames : List Entry → Batches → Batches
  add_frames [] b = b
  add_frames (e ∷ es) b = add_frames es (add_frame e b)

  unfoldable pub chunk_events : List Entry → List Text
  chunk_events es = map make_batch (chunks batch_size es)

  full_events :
      (c xs : List Entry)
      → length c ≡ batch_size
      → chunk_events (c ++ xs) ≡ make_batch c ∷ chunk_events xs
  unfolding chunk_events
  full_events c xs h = ap (map make_batch) (chunks_full batch_size c xs batch_size_pos h)

  last_events :
      (e : Entry) (c : List Entry)
      → length (e ∷ c) ≤ batch_size
      → chunk_events (e ∷ c) ≡ make_batch (e ∷ c) ∷ []
  unfolding chunk_events
  last_events e c h = ap (map make_batch) (chunks_last batch_size e c h)

  rest_events :
      (c : List Entry) (out : List Text)
      → length c < batch_size
      → (send_rest (record { events = out; batch = c })).events ≡ out ++ chunk_events c
  unfolding send_rest chunk_events
  rest_events [] out h = rw (chunks_nil {A = Entry} batch_size, append-nil out)
  rest_events (e ∷ c) out h = ap (◌++◌ out) (sym (last_events e c (omega arith)))

  -- The events sent for frames are those of the frames' chunks.
  pub add_frames_lem :
      (es : List Entry) (b : Batches)
      → length b.batch < batch_size
      → (send_rest (add_frames es b)).events ≡ b.events ++ chunk_events (b.batch ++ es)
  unfolding add_frames add_frame
  add_frames_lem [] b h = rw (append-nil b.batch) (rest_events b.batch b.events h)
  add_frames_lem (e ∷ es) b h =
      let c = b.batch ++ e ∷ [] in
      let split : b.batch ++ e ∷ es ≡ c ++ es = sym (append_assoc b.batch (e ∷ []) es) in
      elim (Bool-cases (leb batch_size (length c))) [
        | inl full ↦
            (let size : length c ≡ batch_size =
                omega (arith, leb→le _ _ full, length-append b.batch (e ∷ [])) in
              rw (full, split, full_events c es size)
                (add_frames_lem es (record { events = b.events ++ make_batch c ∷ []; batch = [] })
                    batch_size_pos
                  ∙ append_assoc b.events (make_batch c ∷ []) (chunk_events es)))
        | inr room ↦
            (let less : length c < batch_size = ground (arith, room) in
              rw (room, split) (add_frames_lem es (record { events = b.events; batch = c }) less))
      ]
