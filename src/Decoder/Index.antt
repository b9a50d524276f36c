-- ===== src/Decoder/Index.antt =====
-- `demux_frames` and `index_frames` of decoder.rs. What ffmpeg answers is a parameter: the packets
-- with what its parser makes of each, and the conversion of times, which is in floating point.
use jellyfin_recents.Prelude.{
  ℕ, suc, ◌+◌, ◌*◌, ◌≡◌, refl, ap, sym, ◌∙◌, Bool, true, false, not, ◌&&◌, Option, none, some, List,
  [], ◌∷◌, ◌++◌, map, arith, if◌then◌else◌, Bool-cases, inl, inr, length, length-append, All,
}
use mathlib.Core.List.{append_assoc, append-nil}
use jellyfin_recents.Prelude.Options.{unwrap_or}
use jellyfin_recents.Prelude.Int.{ℤ, pos, ◌*ℤ◌, ◌-ℤ◌, ltb_ℤ, wrap_i64}
use jellyfin_recents.Server.Daemon.{at_least_zero}
use jellyfin_recents.Server.Frames.{div_i64}
use jellyfin_recents.Server.FrameIndex.{FrameIndex}
use jellyfin_recents.Server.Stream.Window.{Frame}
use jellyfin_recents.Server.Stream.Demux.{Packet, packet_ms}
use jellyfin_recents.Server.Stream.Demux.Agreement.{video_frames}

-- A packet of the file. `is_shown` and `corrected` are the parser's: whether it put a frame out, and
-- the time in display order where it knows one.
pub record RawPacket : Type 0 where
  pub is_video : Bool
  pub is_key : Bool
  pub pts : Option ℤ
  pub dts : Option ℤ
  pub is_shown : Bool
  pub corrected : Option ℤ

-- `has_time_base` is false where one of its parts is 0, and then `stream_start_ms` is 0.
pub record Source : Type 0 where
  pub rate_num : ℤ
  pub rate_den : ℤ
  pub has_time_base : Bool
  pub to_ms : ℤ → ℤ
  pub stream_start_ms : ℤ
  pub has_parser : Bool
  pub packets : List RawPacket

abbrev pub or_else : Option ℤ → Option ℤ → Option ℤ
or_else none other = other
or_else (some a) other = some a

abbrev pub raw_time : RawPacket → ℤ
raw_time p = unwrap_or (pos 0) (or_else p.pts p.dts)

abbrev pub rate_den_of : Source → ℤ
rate_den_of src = if ltb_ℤ (pos 0) src.rate_den then src.rate_den else pos 1

-- Without a time base: from the frame's number.
abbrev pub counted_ms : Source → ℕ → ℤ
counted_ms src n =
    if ltb_ℤ (pos 0) src.rate_num
    then div_i64 (wrap_i64 (pos n *ℤ rate_den_of src *ℤ pos 1000)) src.rate_num
    else pos (n * 42)

abbrev pub from_start : Source → ℤ → ℤ
from_start src raw = at_least_zero (wrap_i64 (raw -ℤ src.stream_start_ms))

unfoldable pub parsed_ms : Source → ℕ → RawPacket → ℤ
parsed_ms src n p =
    let raw_pts = unwrap_or (raw_time p) p.corrected in
    from_start src (if src.has_time_base then src.to_ms raw_pts else counted_ms src n)

unfoldable pub plain_ms : Source → ℕ → RawPacket → ℤ
plain_ms src n p =
    if src.has_time_base then from_start src (src.to_ms (raw_time p)) else counted_ms src n

-- The time of a packet's frame, where it has one: from whether it is the video's, whether there is
-- a parser and it puts the frame out, and the two times.
abbrev pub frame_time : Bool → Bool → Bool → ℤ → ℤ → Option ℤ
frame_time false has_parser is_shown parsed plain = none
frame_time true false is_shown parsed plain = some plain
frame_time true true false parsed plain = none
frame_time true true true parsed plain = some parsed

abbrev pub append_frame : Option ℤ → Bool → List Frame → List Frame
append_frame none is_key fs = fs
append_frame (some ms) is_key fs = fs ++ (ms, is_key) ∷ []

unfoldable pub add_packet : Source → RawPacket → List Frame → List Frame
add_packet src p fs =
    append_frame
      (frame_time p.is_video src.has_parser p.is_shown (parsed_ms src (length fs) p)
        (plain_ms src (length fs) p))
      p.is_key fs

unfoldable pub add_packets : Source → List RawPacket → List Frame → List Frame
add_packets src [] fs = fs
add_packets src (p ∷ ps) fs = add_packets src ps (add_packet src p fs)

-- A file without a frame is an error.
abbrev pub unless_empty : Source → List Frame → Option FrameIndex
unless_empty src [] = none
unless_empty src (f ∷ fs) =
    some (record { frames = f ∷ fs; fps_num = src.rate_num; fps_den = rate_den_of src })

unfoldable pub index_frames : Source → Option FrameIndex
index_frames src = unless_empty src (add_packets src src.packets [])

-- The packet as the walk of the frame server reads it, which does not ask the parser.
abbrev pub plain_packet : Source → RawPacket → Packet
plain_packet src p = record {
  is_video = p.is_video;
  raw_ms = src.to_ms (raw_time p);
  is_key = p.is_key;
}

-- A video packet for which the parser puts no frame out.
abbrev pub is_hidden : RawPacket → Bool
is_hidden p = p.is_video && not p.is_shown

abbrev pub count_hidden : List RawPacket → ℕ
count_hidden [] = 0
count_hidden (p ∷ ps) = let rest = count_hidden ps in if is_hidden p then suc rest else rest

-- The parser does not hide the packet, and where it reports a time, that is the packet's own.
abbrev pub IsPlain : RawPacket → Type 0
IsPlain p = (is_hidden p ≡ false) × (unwrap_or (raw_time p) p.corrected ≡ raw_time p)

time_of_other : (v h s : Bool) (a b : ℤ) → v ≡ false → frame_time v h s a b ≡ none
time_of_other v h s a b e = ground (arith, e)

time_of_shown :
    (v h s : Bool) (a b : ℤ) → v ≡ true → h ≡ true → s ≡ true → frame_time v h s a b ≡ some a
time_of_shown v h s a b e f g = ground (arith, e, f, g)

time_of_hidden :
    (v h s : Bool) (a b : ℤ) → v ≡ true → h ≡ true → s ≡ false → frame_time v h s a b ≡ none
time_of_hidden v h s a b e f g = ground (arith, e, f, g)

hidden_test : (v s : Bool) (c : Bool) → v ≡ true → s ≡ not c → (v && not s) ≡ c
hidden_test v s c e f = ground (arith, e, f)

-- With a parser, the index has fewer frames than the server's walk counts, by the number of hidden
-- packets.
pub hidden_packets_lem :
    (src : Source) (ps : List RawPacket) (fs : List Frame)
    → src.has_parser ≡ true
    → length (add_packets src ps fs) + count_hidden ps
      ≡ length fs + length (video_frames src.stream_start_ms (map (plain_packet src) ps))
unfolding add_packets add_packet
hidden_packets_lem src [] fs h = refl
hidden_packets_lem src (p ∷ ps) fs h =
    let start = src.stream_start_ms in
    let rest = video_frames start (map (plain_packet src) ps) in
    let parsed = parsed_ms src (length fs) p in
    let plain = plain_ms src (length fs) p in
    let here : Frame = (packet_ms start (src.to_ms (raw_time p)), p.is_key) in
    let walked : Bool → ℕ = λ (b : Bool). length (if b then here ∷ rest else rest) in
    let counted : Bool → ℕ = λ (b : Bool). if b then suc (count_hidden ps) else count_hidden ps in
    let built : Option ℤ → ℕ =
      λ (t : Option ℤ). length (add_packets src ps (append_frame t p.is_key fs)) in
    elim (Bool-cases p.is_video) [
      | inr other ↦ omega (
        arith,
        hidden_packets_lem src ps fs h,
        ap walked other,
        ap counted (ap (λ (b : Bool). b && not p.is_shown) other),
        ap built (time_of_other p.is_video src.has_parser p.is_shown parsed plain other),
      )
      | inl video ↦ elim (Bool-cases p.is_shown) [
        | inl shown ↦ omega (
          arith,
          hidden_packets_lem src ps (fs ++ (parsed, p.is_key) ∷ []) h,
          length-append fs ((parsed, p.is_key) ∷ []),
          ap walked video,
          ap counted (hidden_test p.is_video p.is_shown false video shown),
          ap built (time_of_shown p.is_video src.has_parser p.is_shown parsed plain video h shown),
        )
        | inr hidden ↦ omega (
          arith,
          hidden_packets_lem src ps fs h,
          ap walked video,
          ap counted (hidden_test p.is_video p.is_shown true video hidden),
          ap built
              (time_of_hidden p.is_video src.has_parser p.is_shown parsed plain video h hidden),
        )
      ]
    ]

plain_time :
    (src : Source) (n : ℕ) (p : RawPacket)
    → src.has_time_base ≡ true
    → unwrap_or (raw_time p) p.corrected ≡ raw_time p
    → (parsed_ms src n p ≡ packet_ms src.stream_start_ms (src.to_ms (raw_time p)))
      × (plain_ms src n p ≡ packet_ms src.stream_start_ms (src.to_ms (raw_time p)))
unfolding parsed_ms plain_ms packet_ms
plain_time src n p t c =
    let chosen : (if src.has_time_base
          then src.to_ms (unwrap_or (raw_time p) p.corrected)
          else counted_ms src n)
        ≡ src.to_ms (unwrap_or (raw_time p) p.corrected) =
      ap
        (λ (b : Bool).
          if b then src.to_ms (unwrap_or (raw_time p) p.corrected) else counted_ms src n)
        t in
    (
      ap (from_start src) (chosen ∙ ap src.to_ms c),
      ap (λ (b : Bool). if b then from_start src (src.to_ms (raw_time p)) else counted_ms src n) t,
    )

time_of_plain :
    (v h s : Bool) (a b t : ℤ)
    → (v && not s) ≡ false
    → a ≡ t
    → b ≡ t
    → frame_time v h s a b ≡ (if v then some t else none)
time_of_plain v h s a b t e f g = ground (arith, e, f, g)

-- A frame that is there or not, in front of the rest.
append_if :
    (v : Bool) (t : ℤ) (is_key : Bool) (fs rest : List Frame)
    → append_frame (if v then some t else none) is_key fs ++ rest
      ≡ fs ++ (if v then (t, is_key) ∷ rest else rest)
append_if true t is_key fs rest = append_assoc fs ((t, is_key) ∷ []) rest
append_if false t is_key fs rest = refl

-- Where the file has a time base, and the parser hides no packet of the video and reports for each
-- packet no time or the packet's own: the index has the frames, with the times and the numbers, that
-- the server's walk finds.
pub add_packets-video_frames :
    (src : Source) (ps : List RawPacket) (fs : List Frame)
    → src.has_time_base ≡ true
    → All IsPlain ps
    → add_packets src ps fs ≡ fs ++ video_frames src.stream_start_ms (map (plain_packet src) ps)
unfolding add_packets add_packet
add_packets-video_frames src [] fs t h = sym (append-nil fs)
add_packets-video_frames src (p ∷ ps) fs t h =
    let ms = packet_ms src.stream_start_ms (src.to_ms (raw_time p)) in
    let rest = video_frames src.stream_start_ms (map (plain_packet src) ps) in
    let (parsed, plain) = plain_time src (length fs) p t h.0.1 in
    let time =
      time_of_plain p.is_video src.has_parser p.is_shown (parsed_ms src (length fs) p)
        (plain_ms src (length fs) p) ms h.0.0 parsed plain in
    add_packets-video_frames src ps (add_packet src p fs) t h.1
    ∙ ap (λ (o : Option ℤ). append_frame o p.is_key fs ++ rest) time
    ∙ append_if p.is_video ms p.is_key fs rest
