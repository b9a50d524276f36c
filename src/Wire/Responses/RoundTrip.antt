-- ===== src/Wire/Responses/RoundTrip.antt =====
-- The client reads each response as the daemon meant it.
use jellyfin_recents.Prelude.{
  ℕ, suc, ◌+◌, ◌<◌, ◌%◌, ◌^◌, ◌≡◌, refl, Bool, Option, none, some, List, [], ◌∷◌, map, arith,
  length, All, nat_beq-suc_zero, if◌then◌else◌,
}
use jellyfin_recents.Prelude.Int.{ℤ, IsI64}
use jellyfin_recents.Wire.Bytes.{Text}
use jellyfin_recents.Wire.Reader.{ok, pure, ◌>>=◌}
use jellyfin_recents.Wire.Writer.{write_string, write_bytes}
use jellyfin_recents.Wire.Requests.Fields.{
  read_exact-append, read_u8-write_u8, read_u16-write_u16, read_u32-write_u32, read_i64-write_i64,
  read_flag-write_flag,
}
use jellyfin_recents.Wire.Responses.Send.{
  write_jpeg_response, write_ack, write_frames, write_frame_index, write_entries,
  write_cached_entries, VendorCapability, HwDecodeCapabilities, hw_vendor_to_wire, write_vendors,
  write_hw_decode_caps,
}
use jellyfin_recents.Wire.Responses.Receive.{
  clamp_pts, receive_frame, receive_frames, receive_frame_index, receive_indices, receive_cached,
  first_reason, receive_vendors, receive_hw_decode_caps,
}

length_as_u32 : (n : ℕ) → n < 2 ^ 32 → n % 2 ^ 32 ≡ n
length_as_u32 n h = omega arith

-- An image that is not empty arrives whole, with its quality flags, and with its timestamp raised
-- to 0; an acknowledgement arrives as no image. Either way exactly the response is taken off the
-- stream.
pub receive-write_frame :
    (id b flags : ℕ) (bs : Text) (pts : ℤ) (rest : Text)
    → id < 2 ^ 32
    → suc (length bs) < 2 ^ 32
    → flags < 2 ^ 16
    → IsI64 pts
    → (receive_frame (write_jpeg_response id (b ∷ bs) flags pts rest) ≡ (
      ok (some (record { jpeg_data = b ∷ bs; flags = flags; actual_pts_ms = clamp_pts pts })),
      rest,
    ))
      × (receive_frame (write_ack id rest) ≡ (ok none, rest))
unfolding receive_frame write_jpeg_response write_ack write_string write_bytes ◌>>=◌ pure
receive-write_frame id b flags bs pts rest hid hlen hflags hpts = (
  rw (
    read_u32-write_u32 id _ hid,
    length_as_u32 (suc (length bs)) hlen,
    read_u32-write_u32 (suc (length bs)) _ hlen,
    nat_beq-suc_zero (length bs),
    read_exact-append (suc (length bs)) (b ∷ bs) _ refl,
    read_u16-write_u16 flags _ hflags,
    read_i64-write_i64 pts rest hpts,
  ),
  rw (read_u32-write_u32 id _ hid, read_u32-write_u32 0 rest (omega arith)),
)

abbrev pub EntryFits : ℤ × ℤ → Type 0
EntryFits (pos_ms, frame_idx) = IsI64 pos_ms × IsI64 frame_idx

receive_indices-write_entries :
    (es : List (ℤ × ℤ)) (rest : Text)
    → All EntryFits es
    → receive_indices (length es) (write_entries es rest) ≡ (ok (map (λ e. e.1) es), rest)
unfolding receive_indices write_entries ◌>>=◌ pure
receive_indices-write_entries [] rest h = refl
receive_indices-write_entries ((pos_ms, frame_idx) ∷ es) rest h = rw (
  read_i64-write_i64 frame_idx _ h.0.1,
  read_i64-write_i64 pos_ms _ h.0.0,
  receive_indices-write_entries es rest h.1,
)

-- The listing of cached frames: the client gets the frame index of every entry, in order, whatever
-- the positions, and exactly the response is taken off the stream.
pub receive-write_cached :
    (id : ℕ) (es : List (ℤ × ℤ)) (rest : Text)
    → id < 2 ^ 32
    → length es < 2 ^ 32
    → All EntryFits es
    → receive_cached (write_cached_entries id es rest) ≡ (ok (map (λ e. e.1) es), rest)
unfolding receive_cached write_cached_entries ◌>>=◌ pure
receive-write_cached id es rest hid hlen hes = rw (
  read_u32-write_u32 id _ hid,
  length_as_u32 (length es) hlen,
  read_u32-write_u32 (length es) _ hlen,
  receive_indices-write_entries es rest hes,
)

receive_frames-write_frames :
    (fs : List (ℤ × Bool)) (rest : Text)
    → All (λ f. IsI64 f.0) fs
    → receive_frames (length fs) (write_frames fs rest) ≡ (ok fs, rest)
unfolding receive_frames write_frames ◌>>=◌ pure
receive_frames-write_frames [] rest h = refl
receive_frames-write_frames ((ms, is_key) ∷ fs) rest h = rw (
  read_i64-write_i64 ms _ h.0,
  read_flag-write_flag is_key _,
  receive_frames-write_frames fs rest h.1,
)

-- A frame index arrives as it was sent: every timestamp and keyframe mark in order, and the rate.
pub receive-write_frame_index :
    (fs : List (ℤ × Bool)) (num den : ℤ) (rest : Text)
    → length fs < 2 ^ 32
    → All (λ f. IsI64 f.0) fs
    → IsI64 num
    → IsI64 den
    → receive_frame_index (write_frame_index fs num den rest)
      ≡ (ok (record { frames = fs; num = num; den = den }), rest)
unfolding receive_frame_index write_frame_index ◌>>=◌ pure
receive-write_frame_index fs num den rest hlen hfs hnum hden = rw (
  length_as_u32 (length fs) hlen,
  read_u32-write_u32 (length fs) _ hlen,
  read_i64-write_i64 num _ hnum,
  read_i64-write_i64 den _ hden,
  receive_frames-write_frames fs rest hfs,
)

-- What the client's loop makes of the vendors.
abbrev pub count_supported : ℕ → List VendorCapability → ℕ
count_supported n [] = n
count_supported n (v ∷ vs) = count_supported (if v.supported then n + 1 else n) vs

abbrev pub first_unsupported : Option Text → List VendorCapability → Option Text
first_unsupported first [] = first
first_unsupported first (v ∷ vs) = first_unsupported (first_reason first v.supported v.reason) vs

receive_vendors-write_vendors :
    (vs : List VendorCapability) (first : Option Text) (n : ℕ) (rest : Text)
    → All (λ v. length v.reason < 2 ^ 32) vs
    → receive_vendors (length vs) first n (write_vendors vs rest)
      ≡ (ok (first_unsupported first vs, count_supported n vs), rest)
unfolding receive_vendors write_vendors write_string write_bytes ◌>>=◌ pure hw_vendor_to_wire
receive_vendors-write_vendors [] first n rest h = refl
receive_vendors-write_vendors (v ∷ vs) first n rest h = rw (
  read_u8-write_u8 (hw_vendor_to_wire v.vendor) _ (ground arith),
  read_flag-write_flag v.supported _,
  length_as_u32 (length v.reason) h.0,
  read_u32-write_u32 (length v.reason) _ h.0,
  read_exact-append (length v.reason) v.reason _ refl,
  receive_vendors-write_vendors vs (first_reason first v.supported v.reason) _ rest h.1,
)

-- The decode capabilities: the client gets the daemon's verdict, the number of vendors that are
-- supported, and, when the verdict is no, the first reason given for one that is not.
pub receive-write_hw_decode_caps :
    (caps : HwDecodeCapabilities) (rest : Text)
    → length caps.vendors < 256
    → All (λ v. length v.reason < 2 ^ 32) caps.vendors
    → receive_hw_decode_caps (write_hw_decode_caps caps rest) ≡ (
      ok (record {
        supported = caps.supported;
        reason = if caps.supported then none else first_unsupported none caps.vendors;
        supported_vendor_count = count_supported 0 caps.vendors;
      }),
      rest,
    )
unfolding receive_hw_decode_caps write_hw_decode_caps ◌>>=◌ pure
receive-write_hw_decode_caps caps rest hlen h =
    let whole : length caps.vendors % 256 ≡ length caps.vendors = omega arith in
    rw (
      read_flag-write_flag caps.supported _,
      whole,
      read_u8-write_u8 (length caps.vendors) _ hlen,
      receive_vendors-write_vendors caps.vendors none 0 rest h,
    )
