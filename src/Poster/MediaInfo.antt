-- ===== src/Poster/MediaInfo.antt =====
-- The names and numbers of media_info.rs: codecs, channels, colour spaces, durations, bit depths and
-- HDR. Upper case beyond ASCII is not needed for names of codecs.
pub mod BitDepth
use Prim.Native.String.{String}
use jellyfin_recents.Prelude.{
  ℕ, zero, suc, ◌+◌, ◌-◌, ◌*◌, ◌/◌, ◌%◌, ◌^◌, ◌≤◌, Bool, true, false, not, ◌&&◌, ◌||◌, Option, none,
  some, List, [], ◌∷◌, ◌++◌, map, ltb, leb, ◌==◌, nat_eq, list_eq, if◌then◌else◌, any,
}
use jellyfin_recents.Prelude.Int.{ℤ, pos}
use jellyfin_recents.Wire.Bytes.{Text}
use jellyfin_recents.Wire.Requests.Types.{codes}
use jellyfin_recents.DiskCache.Text.Decimal.{print_nat, print_padded, parse_unsigned, is_digit}
use jellyfin_recents.DiskCache.Text.Strings.{strip_prefix, rsplit_once}

-- A `match` on names: the value of the first arm that lists the name.
abbrev pub match_name : Text → List (List Text × Text) → Option Text
match_name name [] = none
match_name name ((names, value) ∷ arms) =
    let rest = match_name name arms in if any (λ n. n == name) names then some value else rest

abbrev pub one : String → List Text
one n = codes n ∷ []

abbrev pub two : String → String → List Text
two a b = codes a ∷ codes b ∷ []

abbrev pub three : String → String → String → List Text
three a b c = codes a ∷ codes b ∷ codes c ∷ []

unfoldable pub to_uppercase : Text → Text
to_uppercase s = map (λ c. if leb 97 c && leb c 122 then c - 32 else c) s

abbrev pub or_uppercase : Text → Option Text → Text
or_uppercase name none = to_uppercase name
or_uppercase name (some friendly) = friendly

unfoldable pub friendly_video_codec : Text → Text
friendly_video_codec name = or_uppercase name (
    match_name name (
      (two "h264" "libx264", codes "H.264")
      ∷ (two "hevc" "libx265", codes "H.265")
      ∷ (three "av1" "libaom-av1" "libsvtav1", codes "AV1")
      ∷ (two "vp9" "libvpx-vp9", codes "VP9")
      ∷ (two "vp8" "libvpx", codes "VP8")
      ∷ (one "mpeg2video", codes "MPEG-2")
      ∷ (one "mpeg4", codes "MPEG-4")
      ∷ (three "wmv3" "wmv2" "wmv1", codes "WMV")
      ∷ (one "prores", codes "ProRes")
      ∷ []))

unfoldable pub friendly_audio_codec : Text → Text
friendly_audio_codec name = or_uppercase name (
    match_name name (
      (one "aac", codes "AAC")
      ∷ (one "mp3", codes "MP3")
      ∷ (one "ac3", codes "AC3")
      ∷ (one "eac3", codes "E-AC3")
      ∷ (one "dts", codes "DTS")
      ∷ (one "flac", codes "FLAC")
      ∷ (one "opus", codes "Opus")
      ∷ (one "vorbis", codes "Vorbis")
      ∷ (three "pcm_s16le" "pcm_s24le" "pcm_s32le", codes "PCM")
      ∷ (one "truehd", codes "TrueHD")
      ∷ []))

abbrev pub by_channels : ℕ → Text
by_channels n =
    if n == 1
    then codes "1ch"
    else if n == 2
    then codes "2ch"
    else if n == 6
    then codes "5.1ch"
    else if n == 8
    then codes "7.1ch"
    else if ltb 0 n
    then print_nat n ++ codes "ch"
    else []

abbrev pub or_channels : ℕ → Option Text → Text
or_channels n none = by_channels n
or_channels n (some layout) = layout

unfoldable pub channel_layout_name : Text → ℕ → Text
channel_layout_name layout channels = or_channels channels (
    match_name layout (
      (one "mono", codes "1ch")
      ∷ (one "stereo", codes "2ch")
      ∷ (one "2.1", codes "2.1ch")
      ∷ (two "3.0" "3.0(back)", codes "3ch")
      ∷ (three "4.0" "quad" "quad(side)", codes "4ch")
      ∷ (two "5.1" "5.1(side)", codes "5.1ch")
      ∷ (two "7.1" "7.1(wide)", codes "7.1ch")
      ∷ []))

abbrev pub or_same : Text → Option Text → Text
or_same name none = name
or_same name (some value) = value

unfoldable pub normalize_colour_space : Text → Text
normalize_colour_space cs = or_same cs (
    match_name cs (
      (one "bt709", codes "BT.709")
      ∷ (three "bt2020nc" "bt2020" "bt2020c", codes "BT.2020")
      ∷ (two "bt470bg" "bt470m", codes "BT.601")
      ∷ (one "smpte170m", codes "SMPTE 170M")
      ∷ (one "smpte240m", codes "SMPTE 240M")
      ∷ (one "smpte432", codes "P3-D65")
      ∷ (two "iec61966_2_1" "iec61966-2-1", codes "sRGB")
      ∷ []))

unfoldable pub detect_hdr : Text → Text → Option Text
detect_hdr color_transfer color_primaries =
    if color_transfer == codes "smpte2084"
    then some (codes "HDR10")
    else if color_transfer == codes "arib-std-b67"
    then some (codes "HLG")
    else if color_primaries == codes "bt2020"
    then some (codes "HDR")
    else none

-- The whole seconds; the truncation from floating point is before this.
unfoldable pub secs_to_hhmmss : ℕ → Text
secs_to_hhmmss total =
    print_padded 2 (pos (total / 3600))
    ++ 58 ∷ print_padded 2 (pos (total % 3600 / 60))
    ++ 58 ∷ print_padded 2 (pos (total % 60))

abbrev pub take_digits : Text → Text
take_digits [] = []
take_digits (c ∷ s) = let rest = take_digits s in if is_digit c then c ∷ rest else []

abbrev pub starts_with : Text → String → Bool
starts_with s p = elim (strip_prefix (codes p) s) [ none ↦ false | some rest ↦ true ]

-- The digits behind the last "p", as an i32; 8 without digits for planar formats.
abbrev pub depth_of : Text → Text → Option ℕ
depth_of pix_fmt [] =
    if starts_with pix_fmt "yuv" || starts_with pix_fmt "rgb" || starts_with pix_fmt "gbr"
    then some 8
    else none
depth_of pix_fmt (d ∷ ds) = parse_unsigned (2 ^ 31 - 1) (d ∷ ds)

abbrev pub depth_behind : Text → Option (Text × Text) → Option ℕ
depth_behind pix_fmt none = none
depth_behind pix_fmt (some (before, after)) = depth_of pix_fmt (take_digits after)

unfoldable pub parse_bit_depth_from_pix_fmt : Text → Option ℕ
parse_bit_depth_from_pix_fmt pix_fmt = depth_behind pix_fmt (rsplit_once 112 pix_fmt)
